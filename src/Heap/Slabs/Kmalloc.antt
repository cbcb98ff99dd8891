-- ===== src/Heap/Slabs/Kmalloc.antt =====
-- heap.c's kmalloc: what is in use after it.
use valerioedx.Base.{
  ℕ, zero, suc, ◌+◌, ◌-◌, ◌*◌, ◌/◌, ◌%◌, ◌^◌, ◌≤◌, ◌<◌, ◌≡◌, refl, inl, inr, true, false, ◌&&◌,
  Option, none, some, ltb, leb, ◌==◌, if◌then◌else◌, arith, ap, sym, ◌∙◌, Bool-cases, subst,
}
use valerioedx.Heap.{large_page, Heap, page, is_free, alloc_pages_backend}
use valerioedx.Heap.Pages.{FromFirstRun, alloc_pages_lem}
use valerioedx.Heap.Slabs.{Slabs, slab_size, num_cache_sizes, cache_alloc, find_cache, kmalloc}
use valerioedx.Heap.Slabs.Moves.{not_both}
use valerioedx.Heap.Slabs.Valid.{IsSlab, IsValid, in_list, in_use_at, same-IsSlab}
use valerioedx.Heap.Slabs.Given.{AllocResult, cache_alloc_lem}

-- What the search for a cache comes to.
abbrev Found : (rounds c size : ℕ) → Option ℕ → Type 0
Found rounds c size none = (i : ℕ) → c ≤ i → i < c + rounds → slab_size i < size
Found rounds c size (some j) =
    (j < c + rounds) × (size ≤ slab_size j) × ((i : ℕ) → c ≤ i → i < j → slab_size i < size)

find_cache-Found : (rounds c size : ℕ) → Found rounds c size (find_cache rounds c size)
unfolding find_cache
find_cache-Found zero c size = λ i l h. absurd (omega (arith, l, h))
find_cache-Found (suc rounds) c size =
    step (find_cache rounds (c + 1) size) (find_cache-Found rounds (c + 1) size)
  where
    first : (i : ℕ) → leb size (slab_size c) ≡ false → c ≡ i → slab_size i < size
    first i less e =
        let here : slab_size c < size = ground (arith, less) in
        subst (λ z. slab_size z < size) e here

    step :
        (r : Option ℕ)
        → Found rounds (c + 1) size r
        → Found (suc rounds) c size (if leb size (slab_size c) then some c else r)
    step none f = elim (Bool-cases (leb size (slab_size c))) [
      | inl e ↦ rw e (omega arith, ground (arith, e), λ i l h. absurd (omega (arith, l, h)))
      | inr e ↦ rw e (λ i l h. elim (Bool-cases (c == i)) [
        | inl q ↦ first i e (ground (arith, q))
        | inr q ↦ f i (ground (arith, q, l)) (omega (arith, h))
      ])
    ]
    step (some j) f = elim (Bool-cases (leb size (slab_size c))) [
      | inl e ↦ rw e (omega arith, ground (arith, e), λ i l h. absurd (omega (arith, l, h)))
      | inr e ↦ rw e (
        omega (arith, f.0),
        f.1,
        λ i l h. elim (Bool-cases (c == i)) [
          | inl q ↦ first i e (ground (arith, q))
          | inr q ↦ f.2 i (ground (arith, q, l)) h
        ],
      )
    ]

small_equation :
    (size c : ℕ) (k : Slabs)
    → (size == 0) ≡ false
    → leb size 2048 ≡ true
    → find_cache num_cache_sizes 0 size ≡ some c
    → kmalloc size k ≡ cache_alloc c k
unfolding kmalloc
small_equation size c k z l e = rw (kmalloc, z, l, e) refl

-- In a valid state kmalloc of 1 to 2048 bytes uses the smallest class of objects that are large enough.
-- It returns NULL and changes nothing where this class has no partial slab and no page of the heap is
-- free. Else it returns an object of the class that was not in use and overlaps none that was; this one
-- and no other has come into use, the sizes of the others stay, no page but free ones that became slabs
-- is touched, and the state is valid again.
pub kmalloc_small :
    (size : ℕ) (k : Slabs)
    → IsValid k
    → 0 < size
    → size ≤ 2048
    → let (p, k') = kmalloc size k in
      (c : ℕ) × (c < 8)
      × (size ≤ slab_size c)
      × ((i : ℕ) → i < c → slab_size i < size)
      × AllocResult c k p k'
kmalloc_small size k v pos small =
    by_class (find_cache num_cache_sizes 0 size) refl (find_cache-Found num_cache_sizes 0 size)
  where
    by_class :
        (r : Option ℕ)
        → find_cache num_cache_sizes 0 size ≡ r
        → Found num_cache_sizes 0 size r
        → let (p, k') = kmalloc size k in
          (c : ℕ) × (c < 8)
          × (size ≤ slab_size c)
          × ((i : ℕ) → i < c → slab_size i < size)
          × AllocResult c k p k'
    by_class none e f = absurd (omega (arith, f 7 (omega arith) (omega arith), small))
    by_class (some c) e f =
        let eq = small_equation size c k (ground (arith, pos)) (ground (arith, small)) e in
        (
          c,
          omega (arith, f.0),
          f.1,
          λ i h. f.2 i (omega arith) h,
          subst (λ z. AllocResult c k z.0 z.1) (sym eq)
              (cache_alloc_lem c k v (omega (arith, f.0))),
        )

large_equation :
    (size : ℕ) (k : Slabs)
    → (size == 0) ≡ false
    → leb size 2048 ≡ false
    → let (large, heap') =
        alloc_pages_backend ((size + page - 1) % 2 ^ 64 / page) large_page k.heap in
      kmalloc size k ≡ (large, record k { heap = heap' })
unfolding kmalloc
large_equation size k z l = rw (kmalloc, z, l) refl

-- Slabs under other pages that were free before.
other_pages :
    (k : Slabs) (h' : Heap)
    → IsValid k
    → h'.start_addr ≡ k.heap.start_addr
    → h'.total_pages ≡ k.heap.total_pages
    → ((n : ℕ) → is_free (k.heap.metadata n) ≡ false → h'.metadata n ≡ k.heap.metadata n)
    → IsValid (record k { heap = h' })
other_pages k h' v start total pages =
    let k' : Slabs = record k { heap = h' } in
    let move : (i s : ℕ) → IsSlab k i s → IsSlab k' i s = λ i s q.
      same-IsSlab k k' i s start total
        (λ n e l.
          let same : q.number ≡ n = omega (arith, q.at, e) in
          pages n (ap (λ m. is_free (k.heap.metadata m)) (sym same) ∙ ap is_free q.taken))
        refl refl refl refl q in
    record {
      aligned = ap (λ x. x % 4096) start ∙ v.aligned;
      not_null = omega (arith, start, v.not_null);
      none_free = v.none_free;
      partial_once = v.partial_once;
      full_once = v.full_once;
      partial = λ i s h. let (q, r) = v.partial i s h in (move i s q, r);
      full = λ i s h. let (q, r) = v.full i s h in (move i s q, r);
    }

taken_valid :
    (num : ℕ) (k : Slabs) (p : ℕ) (h' : Heap)
    → IsValid k
    → FromFirstRun num large_page k.heap p h'
    → IsValid (record k { heap = h' })
taken_valid num k p h' v f = elim f [
  | inl (null, same, none_long) ↦
      other_pages k h' v (ap (λ h. h.start_addr) same) (ap (λ h. h.total_pages) same)
        (λ n used. ap (λ h. h.metadata n) same)
  | inr (a, at, inside, free, first, changed) ↦
      other_pages k h' v (ap (λ h. h.start_addr) changed) (ap (λ h. h.total_pages) changed)
        (λ n used. ap (λ h. h.metadata n) changed ∙ elim (Bool-cases (leb a n && ltb n (a + num))) [
          | inl e ↦ absurd (not_both (free n (ground (arith, e)) (ground (arith, e))) used)
          | inr e ↦ rw e refl
        ])
]

-- In a valid state kmalloc of more than 2048 bytes, so few that the sum with the size of a page does not
-- wrap, takes the first run of as many pages as hold them, or returns NULL and changes nothing where no
-- run is long enough. The state is valid again, and the same objects of the slabs are in use.
pub kmalloc_large :
    (size : ℕ) (k : Slabs)
    → IsValid k
    → 2048 < size
    → size + 4095 < 2 ^ 64
    → let (p, k') = kmalloc size k in
      (num : ℕ) × (size ≤ num * 4096)
      × (num * 4096 < size + 4096)
      × FromFirstRun num large_page k.heap p k'.heap
      × IsValid k'
      × ((x : ℕ) → in_use_at k' x ≡ in_use_at k x)
unfolding in_use_at in_list
kmalloc_large size k v large fits =
    let num = (size + page - 1) % 2 ^ 64 / page in
    let r = alloc_pages_backend num large_page k.heap in
    let (lo, hi) = page_count size large fits in
    let from : FromFirstRun num large_page k.heap r.0 r.1 =
      alloc_pages_lem num large_page k.heap (omega (arith, lo, large)) v.not_null in
    let eq = large_equation size k (ground (arith, large)) (ground (arith, large)) in
    rw eq (num, lo, hi, from, taken_valid num k r.0 r.1 v from, λ x. refl)
  where
    page_count :
        (size : ℕ)
        → 2048 < size
        → size + 4095 < 2 ^ 64
        → let num = (size + page - 1) % 2 ^ 64 / page in
          (size ≤ num * 4096) × (num * 4096 < size + 4096)
    page_count size large fits = (omega (arith, large, fits), omega (arith, large, fits))
