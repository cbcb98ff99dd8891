-- ===== src/Heap/Slabs/Given.antt =====
-- heap.c's cache_alloc: what is in use after it.
use valerioedx.Base.{
  ℕ, ◌+◌, ◌*◌, ◌≤◌, ◌<◌, ◌≡◌, refl, ◌≢◌, ◌⊎◌, inl, inr, true, false, some, List, [], ◌∷◌, ◌==◌,
  if◌then◌else◌, arith, ap, sym, ◌∙◌, Bool-cases,
}
use valerioedx.Heap.{slab_page, Heap, page, is_free}
use valerioedx.Heap.Slabs.{
  Slabs, slab_size, page_of, slab_init_page, ready_slab, take_object, cache_alloc,
}
use valerioedx.Heap.Slabs.Moves.{update_same, not_both}
use valerioedx.Heap.Slabs.Valid.{IsValid, in_use_at, slab_aligned, after-IsValid}
use valerioedx.Heap.Slabs.Alloc.{first_partial}
use valerioedx.Heap.Slabs.Take.{GivenOut, take_out}
use valerioedx.Heap.Slabs.Fresh.{with_new, with_new-Changes}
use valerioedx.Heap.Slabs.Ready.{NoPageFree, ready_out, new_unused, with_new_same}
use valerioedx.Heap.Slabs.Apart.{obj_size, used_apart}

-- No page is touched but free ones that became slabs.
abbrev pub PagesGrow : (h h' : Heap) → Type 0
PagesGrow h h' =
    (h'.start_addr ≡ h.start_addr)
    × (h'.total_pages ≡ h.total_pages)
    × ((n : ℕ)
        → (h'.metadata n ≡ h.metadata n)
          ⊎ ((is_free (h.metadata n) ≡ true)
              × (h'.metadata n ≡ record { kind = slab_page; count = 1 })))

-- An object of `size` bytes, which overlaps none in use, has come into use, nothing else of the heap has changed.
abbrev pub Given : (size : ℕ) (k : Slabs) (p : ℕ) (k' : Slabs) → Type 0
Given size k p k' =
    IsValid k'
    × GivenOut k p k'
    × (0 < p)
    × (obj_size k' p ≡ size)
    × ((x : ℕ) → in_use_at k x ≡ true → obj_size k' x ≡ obj_size k x)
    × ((x : ℕ) → in_use_at k x ≡ true → (x + obj_size k' x ≤ p) ⊎ (p + size ≤ x))
    × PagesGrow k.heap k'.heap

no_overlap :
    (size p : ℕ) (k k' : Slabs)
    → IsValid k'
    → GivenOut k p k'
    → obj_size k' p ≡ size
    → (x : ℕ) → in_use_at k x ≡ true
    → (x + obj_size k' x ≤ p) ⊎ (p + size ≤ x)
no_overlap size p k k' v out e x h =
    let ne : x ≢ p = λ q. not_both (ap (in_use_at k) (sym q) ∙ h) out.0 in
    let other : (x == p) ≡ false = ground (arith, ne) in
    let used : in_use_at k' x ≡ true = out.1 x ∙ rw other h in
    let here : in_use_at k' p ≡ true = out.1 p ∙ ground arith in
    elim (used_apart k' x p v used here ne) [ inl l ↦ inl l | inr l ↦ inr (omega (arith, l, e)) ]

taken_heap :
    (c s : ℕ) (slabs : List ℕ) (k : Slabs)
    → IsValid k
    → k.slabs_partial c ≡ s ∷ slabs
    → (take_object c k).1.heap ≡ k.heap
taken_heap c s slabs k v ep =
    let (valid, out, at, inside, heap, owners) = take_out c s slabs k v ep in heap

at_hand_equation :
    (c s : ℕ) (slabs : List ℕ) (k : Slabs) → k.slabs_partial c ≡ s ∷ slabs → ready_slab c k ≡ some k
unfolding ready_slab
at_hand_equation c s slabs k e = rw (ready_slab, e) refl

take-Given :
    (c s : ℕ) (slabs : List ℕ) (k : Slabs)
    → IsValid k
    → k.slabs_partial c ≡ s ∷ slabs
    → let (p, k') = take_object c k in Given (slab_size c) k p k'
take-Given c s slabs k v ep =
    let (valid, out, at, inside, heap, owners) = take_out c s slabs k v ep in
    let q = (first_partial k c s slabs v ep).0 in
    let r = take_object c k in
    let owner : obj_size r.1 r.0 ≡ slab_size c =
      ap (λ f. slab_size (f (page_of r.0))) owners
      ∙ ap (λ z. slab_size (k.cache z)) at
      ∙ ap slab_size q.owner in
    (
      valid,
      out,
      omega (arith, at, (slab_aligned k c s v q).1),
      owner,
      λ x h. ap (λ f. slab_size (f (page_of x))) owners,
      no_overlap (slab_size c) r.0 k r.1 valid out owner,
      (
        ap (λ h. h.start_addr) heap,
        ap (λ h. h.total_pages) heap,
        λ n. inl (ap (λ h. h.metadata n) heap),
      ),
    )

take_new :
    (c n : ℕ) (k : Slabs)
    → IsValid k
    → c < 8
    → n < k.heap.total_pages
    → is_free (k.heap.metadata n) ≡ true
    → k.slabs_partial c ≡ []
    → let (p, k') = take_object c (with_new c n k) in Given (slab_size c) k p k'
unfolding with_new slab_init_page
take_new c n k v small inside free ep =
    let s = k.heap.start_addr + n * page in
    let k1 = with_new c n k in
    let v1 : IsValid k1 = after-IsValid k k1 s v (with_new-Changes c n k v small inside free ep) in
    let ep1 : k1.slabs_partial c ≡ s ∷ [] = update_same k.slabs_partial c (s ∷ []) in
    let (valid, out, pos, large, sizes, apart, pages) = take-Given c s [] k1 v1 ep1 in
    let r = take_object c k1 in
    let heap : r.1.heap ≡ k1.heap = taken_heap c s [] k1 v1 ep1 in
    let same : (x : ℕ) → in_use_at k1 x ≡ in_use_at k x =
      λ x. with_new_same c n x k v small inside free ep in
    (
      valid,
      (sym (same r.0) ∙ out.0, λ x. out.1 x ∙ ap (λ b. if x == r.0 then true else b) (same x)),
      pos,
      large,
      λ x h.
          let away : page_of x ≢ s = λ e. not_both h (new_unused n x k v free e) in
          let owner : k1.cache (page_of x) ≡ k.cache (page_of x) = ground (arith, away) in
          sizes x (same x ∙ h) ∙ ap slab_size owner,
      λ x h. apart x (same x ∙ h),
      (
        ap (λ h. h.start_addr) heap,
        ap (λ h. h.total_pages) heap,
        λ a. elim (Bool-cases (a == n)) [
          | inl e ↦
              let an : a ≡ n = ground (arith, e) in
              inr (
                ap (λ z. is_free (k.heap.metadata z)) an ∙ free,
                ap (λ h. h.metadata a) heap ∙ ground (arith, an),
              )
          | inr e ↦ inl (ap (λ h. h.metadata a) heap ∙ ground (arith, e))
        ],
      ),
    )

-- NULL with the state as it was, where there is neither a partial slab nor a free page, or an object of
-- the cache.
abbrev pub AllocResult : (c : ℕ) (k : Slabs) (p : ℕ) (k' : Slabs) → Type 0
AllocResult c k p k' =
    ((p ≡ 0) × (k' ≡ k) × (k.slabs_partial c ≡ []) × NoPageFree k.heap) ⊎ Given (slab_size c) k p k'

pub cache_alloc_lem :
    (c : ℕ) (k : Slabs) → IsValid k → c < 8 → let (p, k') = cache_alloc c k in AllocResult c k p k'
unfolding cache_alloc
cache_alloc_lem c k v small = by_list (k.slabs_partial c) refl
  where
    by_list :
        (l : List ℕ) → k.slabs_partial c ≡ l → let (p, k') = cache_alloc c k in AllocResult c k p k'
    by_list [] e = elim (ready_out c k v e) [
      | inl (r, full) ↦ rw (cache_alloc, r) (inl (refl, refl, e, full))
      | inr (n, inside, free, r) ↦ rw (cache_alloc, r) (inr (take_new c n k v small inside free e))
    ]
    by_list (s ∷ slabs) e =
        rw (cache_alloc, at_hand_equation c s slabs k e) (inr (take-Given c s slabs k v e))
