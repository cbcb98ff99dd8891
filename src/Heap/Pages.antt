-- ===== src/Heap/Pages.antt =====
-- Pages are taken from the first run that is long enough, and given back.
use valerioedx.Base.{
  ℕ, zero, suc, ◌+◌, ◌*◌, ◌%◌, ◌^◌, ◌≤◌, ◌<◌, ◌≡◌, refl, ◌⊎◌, inl, inr, true, ◌&&◌, Option, none,
  some, ltb, leb, ◌==◌, if◌then◌else◌, arith, ap, ◌∙◌, fun_ext, Bool-cases,
}
use valerioedx.Heap.{
  PageType, free_page, slab_page, large_page, PageInfo, Heap, page, is_free, is_free_kind, heap_end,
  virt_to_page_idx, page_idx_to_virt, find_run, mark_pages, alloc_pages_backend, clear_pages,
  free_pages_backend,
}
use valerioedx.Heap.Runs.{AllFree, NoneBelow, FirstRun, find_run-FirstRun}

-- What is known of a page of `num` that were taken from `start` on.
abbrev pub taken : (start num : ℕ) → PageType → (ℕ → PageInfo) → ℕ → PageInfo
taken start num kind md a =
    if leb start a && ltb a (start + num)
    then record { kind = kind; count = if a == start then num % 2 ^ 16 else 0 }
    else md a

mark_pages-taken :
    (rounds j start num : ℕ) (kind : PageType) (md : ℕ → PageInfo) (a : ℕ)
    → j + rounds ≡ num
    → mark_pages rounds j start num kind md a ≡ (
        if leb (start + j) a && ltb a (start + num)
        then record { kind = kind; count = if a == start then num % 2 ^ 16 else 0 }
        else md a)
unfolding mark_pages
mark_pages-taken zero j start num kind md a h = ground arith
mark_pages-taken (suc rounds) j start num kind md a h =
    mark_pages-taken rounds (j + 1) start num kind _ a (omega arith) ∙ ground arith

clear_pages-freed :
    (rounds j idx total : ℕ) (md : ℕ → PageInfo) (a : ℕ)
    → idx + (j + rounds) ≤ total
    → clear_pages rounds j idx total md a ≡ (
        if leb (idx + j) a && ltb a (idx + (j + rounds))
        then record { kind = free_page; count = 0 }
        else md a)
unfolding clear_pages
clear_pages-freed zero j idx total md a h = ground arith
clear_pages-freed (suc rounds) j idx total md a h =
    clear_pages-freed rounds (j + 1) idx total _ a (omega arith) ∙ ground arith

-- Nothing for want of a run, or the pages of the first run.
abbrev pub FromFirstRun : (num : ℕ) → PageType → Heap → ℕ → Heap → Type 0
FromFirstRun num kind h p h' =
    ((p ≡ 0) × (h' ≡ h) × ((k : ℕ) → k + num ≤ h.total_pages → AllFree h.metadata k num → ⊥))
    ⊎ ((k : ℕ) × (p ≡ h.start_addr + k * page)
        × (k + num ≤ h.total_pages)
        × AllFree h.metadata k num
        × NoneBelow h.metadata k num
        × (h' ≡ record h { metadata = taken k num kind h.metadata }))

-- With a heap that does not begin at NULL, `alloc_pages_backend` of one page or more returns NULL and
-- changes nothing where no run of free pages is long enough; else it takes the first run that is,
-- returns its address, marks its pages with the kind, the first with the number, and changes no other
-- page.
pub alloc_pages_lem :
    (num : ℕ) (kind : PageType) (h : Heap)
    → 0 < num
    → 0 < h.start_addr
    → let (p, h') = alloc_pages_backend num kind h in FromFirstRun num kind h p h'
unfolding alloc_pages_backend page_idx_to_virt
alloc_pages_lem num kind h pos_num pos_start =
    found (find_run h.total_pages 0 0 0 num h.metadata) refl (
      find_run-FirstRun h.total_pages 0 0 0 0 h.total_pages num h.metadata (omega arith)
        (omega arith) pos_num (λ n. refl) (λ a l u. absurd (omega arith))
        (λ k l. absurd (omega arith)))
  where
    found :
        (r : Option ℕ)
        → find_run h.total_pages 0 0 0 num h.metadata ≡ r
        → FirstRun h.metadata h.total_pages num r
        → let (p, h') = alloc_pages_backend num kind h in FromFirstRun num kind h p h'
    found none e f = rw (alloc_pages_backend, e) (inl (refl, refl, f))
    found (some k) e f =
        rw (alloc_pages_backend, e)
          (inr (
            k,
            refl,
            f.0,
            f.1,
            f.2,
            ap (λ md. record h { metadata = md })
                (fun_ext (λ a.
                  mark_pages-taken num 0 k num kind h.metadata a (omega arith) ∙ ground arith)),
          ))

free_info :
    (i : PageInfo) → is_free i ≡ true → i.count ≡ 0 → i ≡ record { kind = free_page; count = 0 }
free_info i h c =
    ap (λ k. record { kind = k; count = i.count }) (free_kind i.kind h)
    ∙ ap (λ n. record { kind = free_page; count = n }) c
  where
    free_kind : (k : PageType) → is_free_kind k ≡ true → k ≡ free_page
    free_kind free_page h = refl
    free_kind slab_page h = cc h
    free_kind large_page h = cc h

-- A heap of less than 4 GiB that ends below 2^64: no pointer into it is beyond heap_end_addr.
abbrev pub InReach : Heap → Type 0
InReach h = (h.total_pages < 2 ^ 20) × (h.start_addr + h.total_pages * page < 2 ^ 64)

pub heap_end_lem : (h : Heap) → InReach h → heap_end h ≡ h.start_addr + h.total_pages * page
unfolding heap_end
heap_end_lem h (few, low) = omega (arith, few, low)

idx_of :
    (k : ℕ) (h : Heap)
    → k < h.total_pages
    → InReach h
    → virt_to_page_idx (h.start_addr + k * page) h ≡ some k
unfolding virt_to_page_idx
idx_of k h l reach = ground (arith, heap_end_lem h reach)

free_null : (h : Heap) → 0 < h.start_addr → free_pages_backend 0 h ≡ h
unfolding free_pages_backend virt_to_page_idx
free_null h l = ground (arith, l)

freed_taken :
    (k num : ℕ) (kind : PageType) (md : ℕ → PageInfo) (a : ℕ)
    → num < 2 ^ 16
    → AllFree md k num
    → ((a : ℕ) → is_free (md a) ≡ true → (md a).count ≡ 0)
    → (if leb (k + 0) a && ltb a (k + (0 + num % 2 ^ 16))
        then record { kind = free_page; count = 0 }
        else taken k num kind md a)
      ≡ md a
freed_taken k num kind md a small free blank = elim (Bool-cases (leb k a && ltb a (k + num))) [
  | inl inside ↦
      let q : is_free (md a) ≡ true = free a (ground (arith, inside)) (ground (arith, inside)) in
      let i = free_info (md a) q (blank a q) in ground (arith, inside, small, i)
  | inr outside ↦ ground (arith, outside, small)
]

free_taken :
    (k num : ℕ) (kind : PageType) (h : Heap)
    → 0 < num
    → num < 2 ^ 16
    → k + num ≤ h.total_pages
    → AllFree h.metadata k num
    → ((a : ℕ) → is_free (h.metadata a) ≡ true → (h.metadata a).count ≡ 0)
    → InReach h
    → free_pages_backend
        (h.start_addr + k * page)
        (record h { metadata = taken k num kind h.metadata })
      ≡ h
unfolding free_pages_backend
free_taken k num kind h pos_num small inside free blank reach =
    let h' = record h { metadata = taken k num kind h.metadata } in
    let idx : virt_to_page_idx (h.start_addr + k * page) h' ≡ some k =
      idx_of k h' (omega arith) reach in
    let n : (h'.metadata k).count ≡ num % 2 ^ 16 = ground (arith, pos_num) in
    rw (free_pages_backend, idx, n)
      (ap (λ md. record h { metadata = md })
        (fun_ext (λ a.
          clear_pages-freed (num % 2 ^ 16) 0 k h.total_pages (taken k num kind h.metadata) a
            (omega arith)
          ∙ freed_taken k num kind h.metadata a small free blank)))

-- In a heap of less than 4 GiB that ends below 2^64, where the pages that are free have the count 0, `free_pages_backend` of what `alloc_pages_backend` of 1 to
-- 65535 pages returned, NULL included, puts the heap back to what it was.
pub free-alloc_pages :
    (num : ℕ) (kind : PageType) (h : Heap)
    → 0 < num
    → num < 2 ^ 16
    → 0 < h.start_addr
    → ((a : ℕ) → is_free (h.metadata a) ≡ true → (h.metadata a).count ≡ 0)
    → InReach h
    → let (p, h') = alloc_pages_backend num kind h in free_pages_backend p h' ≡ h
free-alloc_pages num kind h pos_num small pos_start blank reach =
    elim (alloc_pages_lem num kind h pos_num pos_start) [
      | inl (null, same, none_long) ↦
          ap (λ p. free_pages_backend p (alloc_pages_backend num kind h).1) null
          ∙ ap (free_pages_backend 0) same
          ∙ free_null h pos_start
      | inr (k, at, inside, free, first, changed) ↦
          ap (λ p. free_pages_backend p (alloc_pages_backend num kind h).1) at
          ∙ ap (free_pages_backend (h.start_addr + k * page)) changed
          ∙ free_taken k num kind h pos_num small inside free blank reach
    ]
