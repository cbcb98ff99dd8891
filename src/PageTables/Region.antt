-- ===== src/PageTables/Region.antt =====
-- The mapping of a region of pages.
use valerioedx.Base.{
  ℕ, zero, suc, ◌+◌, ◌-◌, ◌*◌, ◌/◌, ◌%◌, ◌^◌, ◌≤◌, ◌<◌, ◌≡◌, refl, ◌⊎◌, inl, inr, Bool, true, false,
  [], ltb, ◌==◌, if◌then◌else◌, arith, ap, ◌∙◌,
}
use valerioedx.PageTables.{
  Tables, leaf_entry, index1, index2, get_next_table, vmm_map_page, map_pages, vmm_map_region,
}
use valerioedx.PageTables.Leaf.{IsLeaf, leaf_entry-IsLeaf}
use valerioedx.PageTables.Tree.{Place, IsTree}
use valerioedx.PageTables.Walks.{entry_of, next_cases}
use valerioedx.PageTables.Map.{same_page, IsMapped, IsUnmapped, map_cases, map_outcome}

-- How many pages `v` is behind `virt`, around the 2^27 pages that are translated.
abbrev pub pages_behind : (virt v : ℕ) → ℕ
pages_behind virt v = (v / 4096 % 2 ^ 27 + (2 ^ 27 - virt / 4096 % 2 ^ 27)) % 2 ^ 27

behind_next :
    (virt v : ℕ)
    → pages_behind (virt + 4096) v
      ≡ (if pages_behind virt v == 0 then 2 ^ 27 - 1 else pages_behind virt v - 1)
behind_next virt v = ground arith

same_page_behind : (virt v : ℕ) → same_page virt v ≡ (pages_behind virt v == 0)
unfolding same_page
same_page_behind virt v = ground arith

-- Without frames there are none later.
next_out_of : (m i : ℕ) (s : Tables) → s.frames ≡ [] → (get_next_table m i s).1.frames ≡ []
next_out_of m i s e = elim (next_cases m i s) [
  | inl (old, q) ↦ ap (λ r. r.1.frames) q ∙ e
  | inr (inl (e', q)) ↦ ap (λ r. r.1.frames) q ∙ e
  | inr (inr (f, fs, e', missing, q)) ↦ cc (e, e')
]

either_out_of :
    (a b : Bool) (x y z : Tables)
    → x.frames ≡ []
    → y.frames ≡ []
    → z.frames ≡ []
    → (if a then x else if b then y else z).frames ≡ []
either_out_of true b x y z hx hy hz = hx
either_out_of false true x y z hx hy hz = hy
either_out_of false false x y z hx hy hz = hz

map_out_of :
    (root virt phys flags : ℕ) (s : Tables)
    → s.frames ≡ []
    → (vmm_map_page root virt phys flags s).frames ≡ []
map_out_of root virt phys flags s e =
    let (l2, s1) = get_next_table root (index1 virt) s in
    let (l3, s2) = get_next_table l2 (index2 virt) s1 in
    let e1 = next_out_of root (index1 virt) s e in
    let e2 = next_out_of l2 (index2 virt) s1 e1 in
    ap (λ t. t.frames) (map_cases root virt phys flags l2 l3 s s1 s2 refl refl)
    ∙ either_out_of (l2 == 0) (l3 == 0) s1 s2 _ e1 e2 e2

pages_out_of :
    (pages virt phys flags root : ℕ) (s : Tables)
    → s.frames ≡ []
    → (map_pages pages virt phys flags root s).frames ≡ []
unfolding map_pages
pages_out_of zero virt phys flags root s e = e
pages_out_of (suc pages) virt phys flags root s e =
    pages_out_of pages (virt + 4096) (phys + 4096) flags root (vmm_map_page root virt phys flags s)
      (map_out_of root virt phys flags s e)

-- What is known of a region that was mapped: the tables are a tree, and unless no frame is left, the
-- translation of a page of the region is `entry` of its page behind `phys`.
abbrev pub IsTranslated : (root virt phys pages : ℕ) (entry : ℕ → ℕ) (s s' : Tables) → Type 0
IsTranslated root virt phys pages entry s s' =
    ((place : ℕ → Place) × IsTree root place s')
    × ((s'.frames ≡ [])
        ⊎ ((v : ℕ)
            → entry_of root v s' ≡ (
                if ltb (pages_behind virt v) pages
                then entry (phys + pages_behind virt v * 4096)
                else entry_of root v s)))

next_page :
    (virt phys pages old : ℕ) (entry : ℕ → ℕ) (v : ℕ)
    → pages < 2 ^ 27
    → (if ltb (pages_behind (virt + 4096) v) pages
        then entry (phys + 4096 + pages_behind (virt + 4096) v * 4096)
        else if same_page virt v
        then entry phys
        else old)
      ≡ (if ltb (pages_behind virt v) (suc pages)
          then entry (phys + pages_behind virt v * 4096)
          else old)
next_page virt phys pages old entry v h =
    rw (behind_next virt v, same_page_behind virt v) (by_offset (pages_behind virt v))
  where
    by_offset :
        (k : ℕ)
        → (if ltb (if k == 0 then 2 ^ 27 - 1 else k - 1) pages
            then entry (phys + 4096 + (if k == 0 then 2 ^ 27 - 1 else k - 1) * 4096)
            else if k == 0
            then entry phys
            else old)
          ≡ (if ltb k (suc pages) then entry (phys + k * 4096) else old)
    by_offset zero = let at : phys ≡ phys + 0 * 4096 = omega arith in ground (arith, h, ap entry at)
    by_offset (suc k) =
        let at : phys + 4096 + k * 4096 ≡ phys + suc k * 4096 = omega arith in
        ground (arith, h, ap entry at)

map_pages-IsTranslated :
    (pages root virt phys flags : ℕ) (place : ℕ → Place) (s : Tables)
    → IsTree root place s
    → pages ≤ 2 ^ 27
    → IsTranslated root virt phys pages
        (λ p. leaf_entry p flags)
        s
        (map_pages pages virt phys flags root s)
unfolding map_pages IsMapped IsUnmapped
map_pages-IsTranslated zero root virt phys flags place s t h = ((place, t), inr (λ v. ground arith))
map_pages-IsTranslated (suc pages) root virt phys flags place s t h =
    let s1 = vmm_map_page root virt phys flags s in
    let ((place1, t1), first) = map_outcome root virt phys flags place s t in
    let (tree, rest) =
      map_pages-IsTranslated pages root (virt + 4096) (phys + 4096) flags place1 s1 t1
        (omega (arith, h)) in
    (
      tree,
      elim rest [
        | inl out ↦ inl out
        | inr later ↦ elim first [
          | inl (out, same) ↦ inl (pages_out_of pages (virt + 4096) (phys + 4096) flags root s1 out)
          | inr here ↦ inr (λ v.
              later v
              ∙ ap
                  (λ x.
                    if ltb (pages_behind (virt + 4096) v) pages
                    then leaf_entry (phys + 4096 + pages_behind (virt + 4096) v * 4096) flags
                    else x)
                  (here v)
              ∙ next_page virt phys pages (entry_of root v s) (λ p. leaf_entry p flags) v
                  (omega (arith, h)))
        ]
      ],
    )

-- In a tree of tables, `vmm_map_region` of at most 2^39 bytes, to physical addresses below 2^64,
-- leaves a tree of tables. Unless no frame is left, the addresses of the pages from `virt` on that
-- the size needs have the entries of the pages from `phys` on, each bit of which is set in the
-- address of the page or stands for what `flags` ask for, and all others have the entry they had.
pub vmm_map_region_lem :
    (root virt phys size flags : ℕ) (place : ℕ → Place) (s : Tables)
    → IsTree root place s
    → size ≤ 2 ^ 39
    → phys + size ≤ 2 ^ 64
    → (entry : ℕ → ℕ) × ((p : ℕ) → IsLeaf p flags (entry p))
      × IsTranslated root virt phys
          ((size + 4095) / 4096)
          entry
          s
          (vmm_map_region root virt phys size flags s)
unfolding vmm_map_region
vmm_map_region_lem root virt phys size flags place s t h below = (
  λ p. leaf_entry p flags,
  λ p. leaf_entry-IsLeaf p flags,
  map_pages-IsTranslated ((size + 4095) / 4096) root virt phys flags place s t (omega (arith, h)),
)
