-- ===== src/PageTables/Map.antt =====
-- vmm_map_page against the translation as a function of the address.
use valerioedx.Base.{
  ℕ, ◌/◌, ◌%◌, ◌^◌, ◌≡◌, refl, ◌≢◌, ◌⊎◌, inl, inr, Bool, true, ◌&&◌, [], ◌==◌, if◌then◌else◌, arith,
  ap, sym, ◌∙◌, Bool-cases, subst,
}
use valerioedx.PageTables.{
  Tables, is_entry, address_in, index1, index2, index3, store, get_next_table, leaf_entry,
  vmm_map_page,
}
use valerioedx.PageTables.Leaf.{IsLeaf, leaf_entry-IsLeaf}
use valerioedx.PageTables.Tree.{walk, Place, nowhere, top, middle, bottom, IsTree}
use valerioedx.PageTables.Walks.{entry_of, entry_of-walk, Reached, first_level, second_level}

module _ (root l2 l3 i j k e : ℕ) (place : ℕ → Place) (s : Tables) (t : IsTree root place s)
    (at2 : place l2 ≡ middle i) (at3 : place l3 ≡ bottom i j) where
  leaf-IsTree : IsTree root place (record s { ram = store l3 k e s.ram })
  leaf-IsTree =
      let not_top : root ≢ l3 = λ h. cc (t.at_top, at3, ap place h) in
      record {
        at_top = t.at_top;
        no_null = t.no_null;
        below_top = λ i' v. ground (arith, not_top, t.below_top i');
        below_middle = λ u i' j' h v. ground (arith, at3, t.below_middle u i' j' h);
        fresh = t.fresh;
      }

  module _ (entry1 : is_entry (s.ram root i) ≡ true) (leads1 : address_in (s.ram root i) ≡ l2)
      (entry2 : is_entry (s.ram l2 j) ≡ true) (leads2 : address_in (s.ram l2 j) ≡ l3) where
    kept_apart : (u i' : ℕ) → place u ≡ middle i' → u ≢ l3
    kept_apart u i' h q = cc (h, at3, ap place q)

    same_path :
        (i' j' : ℕ)
        → let u2 = address_in (s.ram root i') in
          is_entry (s.ram root i') ≡ true
          → is_entry (s.ram u2 j') ≡ true
          → (address_in (s.ram u2 j') == l3) ≡ ((i' == i) && (j' == j))
    same_path i' j' v1 v2 =
        let u2 = address_in (s.ram root i') in
        let u3 = address_in (s.ram u2 j') in
        let p3 = t.below_middle u2 i' j' (t.below_top i' v1) v2 in
        let into : u3 ≡ l3 → (i' ≡ i) × (j' ≡ j) =
          λ h. (cc (p3, at3, ap place h), cc (p3, at3, ap place h)) in
        let back : i' ≡ i → j' ≡ j → u3 ≡ l3 = λ h1 h2. cc (h1, h2, leads1, leads2) in
        ground (arith, into, back)

    leaf_walk :
        (i' j' k' : ℕ)
        → walk root i' j' k' (store l3 k e s.ram)
          ≡ (if (i' == i) && (j' == j) && (k' == k) then e else walk root i' j' k' s.ram)
    unfolding walk
    leaf_walk i' j' k' =
        let not_top : root ≢ l3 = λ h. cc (t.at_top, at3, ap place h) in
        let u2 = address_in (s.ram root i') in
        elim (Bool-cases (is_entry (s.ram root i'))) [
          | inl v1 ↦
              let apart = kept_apart u2 i' (t.below_top i' v1) in
              elim (Bool-cases (is_entry (s.ram u2 j'))) [
                | inl v2 ↦ ground (arith, not_top, v1, v2, apart, same_path i' j' v1 v2)
                | inr v2 ↦ ground (arith, not_top, v1, v2, apart, entry2, leads1)
              ]
          | inr v1 ↦ ground (arith, not_top, v1, entry1)
        ]

unfoldable pub same_page : (virt v : ℕ) → Bool
same_page virt v = v / 2 ^ 12 % 2 ^ 27 == virt / 2 ^ 12 % 2 ^ 27

same_page_lem :
    (virt v : ℕ)
    → same_page virt v
      ≡ ((index1 v == index1 virt) && (index2 v == index2 virt) && (index3 v == index3 virt))
unfolding same_page
same_page_lem virt v = ground arith

pub map_cases :
    (root virt phys flags l2 l3 : ℕ) (s s1 s2 : Tables)
    → get_next_table root (index1 virt) s ≡ (l2, s1)
    → get_next_table l2 (index2 virt) s1 ≡ (l3, s2)
    → vmm_map_page root virt phys flags s ≡ (
        if l2 == 0
        then s1
        else if l3 == 0
        then s2
        else record s2 { ram = store l3 (index3 virt) (leaf_entry phys flags) s2.ram })
unfolding vmm_map_page
map_cases root virt phys flags l2 l3 s s1 s2 e1 e2 = rw e1 (rw e2 refl)

-- What mapping does to every translation.
unfoldable pub IsMapped : (root virt e : ℕ) (s s' : Tables) → Type 0
IsMapped root virt e s s' =
    (v : ℕ) → entry_of root v s' ≡ (if same_page virt v then e else entry_of root v s)

unfoldable pub IsUnmapped : (root : ℕ) (s s' : Tables) → Type 0
IsUnmapped root s s' = (s'.frames ≡ []) × ((v : ℕ) → entry_of root v s' ≡ entry_of root v s)

abbrev pub HasOutcome : (root virt e : ℕ) (s s' : Tables) → Type 0
HasOutcome root virt e s s' =
    ((place : ℕ → Place) × IsTree root place s')
    × (IsUnmapped root s s' ⊎ IsMapped root virt e s s')

not_null :
    (place : ℕ → Place) (n : ℕ) (here : Place)
    → place 0 ≡ nowhere
    → place n ≡ here
    → here ≢ nowhere
    → n ≢ 0
not_null place n here h0 hn ne q = ne (cc (h0, hn, ap place q))

root_not_null : (root : ℕ) (place : ℕ → Place) (s : Tables) → IsTree root place s → root ≢ 0
root_not_null root place s t = not_null place root top t.no_null t.at_top (λ h. cc h)

null_first {ℓ} :
    {A : Type ℓ} (a b : ℕ) (x y z : A) → a ≡ 0 → (if a == 0 then x else if b == 0 then y else z) ≡ x
null_first a b x y z h = rw h refl

null_second {ℓ} :
    {A : Type ℓ} (a b : ℕ) (x y z : A)
    → a ≢ 0
    → b ≡ 0
    → (if a == 0 then x else if b == 0 then y else z) ≡ y
null_second a b x y z h k = ground (arith, h, k)

none_null {ℓ} :
    {A : Type ℓ} (a b : ℕ) (x y z : A)
    → a ≢ 0
    → b ≢ 0
    → (if a == 0 then x else if b == 0 then y else z) ≡ z
none_null a b x y z h k = ground (arith, h, k)

same_entries :
    (root : ℕ) (s s' : Tables)
    → root ≢ 0
    → ((i j k : ℕ) → walk root i j k s'.ram ≡ walk root i j k s.ram)
    → (v : ℕ) → entry_of root v s' ≡ entry_of root v s
same_entries root s s' ne same v =
    rw (entry_of-walk root v s' ne, entry_of-walk root v s ne)
      (same (index1 v) (index2 v) (index3 v))

leaf_outcome :
    (root virt l2 l3 e : ℕ) (s s1 s2 : Tables)
    → root ≢ 0
    → (r1 : Reached root root (index1 virt) l2 (middle (index1 virt)) s s1)
    → (r2 : Reached root l2 (index2 virt) l3 (bottom (index1 virt) (index2 virt)) s1 s2)
    → ((k : ℕ) → s2.ram root k ≡ s1.ram root k)
    → HasOutcome root virt e s (record s2 { ram = store l3 (index3 virt) e s2.ram })
unfolding IsMapped
leaf_outcome root virt l2 l3 e s s1 s2 ne r1 r2 kept =
    let i = index1 virt in
    let j = index2 virt in
    let k = index3 virt in
    let entry1 : is_entry (s2.ram root i) ≡ true = ap is_entry (kept i) ∙ r1.entry in
    let leads1 : address_in (s2.ram root i) ≡ l2 = ap address_in (kept i) ∙ r1.leads in
    let at2 : r2.place l2 ≡ middle i = sym (ap r2.place leads1) ∙ r2.tree.below_top i entry1 in
    let s' = record s2 { ram = store l3 k e s2.ram } in
    let walks =
      leaf_walk root l2 l3 i j k e r2.place s2 r2.tree at2 r2.there entry1 leads1 r2.entry
        r2.leads in
    (
      (r2.place, leaf-IsTree root l2 l3 i j k e r2.place s2 r2.tree at2 r2.there),
      inr (λ v.
          rw (entry_of-walk root v s' ne, entry_of-walk root v s ne, same_page_lem virt v)
            (walks (index1 v) (index2 v) (index3 v)
              ∙ ap (λ x. if (index1 v == i) && (index2 v == j) && (index3 v == k) then e else x)
                  (r2.same (index1 v) (index2 v) (index3 v)
                    ∙ r1.same (index1 v) (index2 v) (index3 v)))),
    )

pub map_outcome :
    (root virt phys flags : ℕ) (place : ℕ → Place) (s : Tables)
    → IsTree root place s
    → let s' = vmm_map_page root virt phys flags s in
      HasOutcome root virt (leaf_entry phys flags) s s'
unfolding IsUnmapped
map_outcome root virt phys flags place s t =
    let (l2, s1) = get_next_table root (index1 virt) s in
    let (l3, s2) = get_next_table l2 (index2 virt) s1 in
    let e = leaf_entry phys flags in
    let q = map_cases root virt phys flags l2 l3 s s1 s2 refl refl in
    let ne = root_not_null root place s t in
    let ne2 = λ (r1 : Reached root root (index1 virt) l2 (middle (index1 virt)) s s1).
      not_null r1.place l2 (middle (index1 virt)) r1.tree.no_null r1.there (λ h. cc h) in
    elim (first_level root (index1 virt) place s t) [
      | inl (z, same, empty) ↦
          subst (HasOutcome root virt e s) (sym (q ∙ null_first l2 l3 s1 s2 _ z ∙ same))
            ((place, t), inl (empty, λ v. refl))
      | inr r1 ↦
          elim (second_level root l2 (index1 virt) (index2 virt) r1.place s1 r1.tree r1.there) [
            | inl (z, same, empty) ↦
                subst (HasOutcome root virt e s) (sym (q ∙ null_second l2 l3 s1 s2 _ (ne2 r1) z)) (
                  subst (HasOutcome root virt e s) (sym same)
                    ((r1.place, r1.tree), inl (empty, same_entries root s s1 ne r1.same)))
            | inr (r2, kept) ↦
                subst (HasOutcome root virt e s)
                  (sym (
                    q
                    ∙ none_null l2 l3 s1 s2 _ (ne2 r1) (
                        not_null r2.place l3 (bottom (index1 virt) (index2 virt)) r2.tree.no_null
                          r2.there (λ h. cc h))))
                  (leaf_outcome root virt l2 l3 e s s1 s2 ne r1 r2 kept)
          ]
    ]

-- In a tree of tables, `vmm_map_page` leaves a tree of tables. Unless the frames ran out, in which case no
-- address changes its translation, the addresses of the page of `virt` (of the 39 bits that are
-- translated) have one entry, each bit of which is set in `phys` or stands for what `flags` ask for, and
-- all others the one they had.
pub vmm_map_page_lem :
    (root virt phys flags : ℕ) (place : ℕ → Place) (s : Tables)
    → IsTree root place s
    → (e : ℕ) × IsLeaf phys flags e × HasOutcome root virt e s (vmm_map_page root virt phys flags s)
vmm_map_page_lem root virt phys flags place s t = (
  leaf_entry phys flags,
  leaf_entry-IsLeaf phys flags,
  map_outcome root virt phys flags place s t,
)
