-- ===== src/Heap/Slabs/Last.antt =====
-- heap.c's cache_free of an object in use, the last of its slab in use: the page goes back.
use valerioedx.Base.{
  ℕ, ◌+◌, ◌-◌, ◌*◌, ◌/◌, ◌%◌, ◌≤◌, ◌<◌, ◌≡◌, refl, ◌≢◌, inl, inr, true, false, not, ◌&&◌, some,
  List, ltb, leb, ◌==◌, update, member, Distinct, arith, ap, sym, ◌∙◌, Bool-cases,
}
use valerioedx.Heap.{
  heap_end, free_page, slab_page, Heap, page, virt_to_page_idx, clear_pages, free_pages_backend,
}
use valerioedx.Heap.Pages.{InReach, heap_end_lem}
use valerioedx.Heap.Slabs.{Slabs, slab_size, objects_of, page_of, put_object}
use valerioedx.Heap.Slabs.Moves.{not_both}
use valerioedx.Heap.Slabs.Valid.{
  IsValid, in_list, in_use_at, same-IsSlab, Changes, after-IsValid, elsewhere_same,
}
use valerioedx.Heap.Slabs.Put.{Held, only_one}
use valerioedx.Heap.Slabs.Back.{TakenBack}

-- The heap with the page `n` free.
abbrev pub page_back : (n : ℕ) → Heap → Heap
page_back n h = record h { metadata = update h.metadata n (record { kind = free_page; count = 0 }) }

pub page_index :
    (n p : ℕ) (h : Heap)
    → n < h.total_pages
    → page_of p ≡ h.start_addr + n * page
    → h.start_addr % 4096 ≡ 0
    → InReach h
    → virt_to_page_idx p h ≡ some n
unfolding virt_to_page_idx
page_index n p h l at al reach =
    let lo : h.start_addr + n * 4096 ≤ p = omega (arith, at) in
    let hi : p < h.start_addr + n * 4096 + 4096 = omega (arith, at) in
    let below : ltb p h.start_addr ≡ false = ground (arith, lo) in
    let above : leb (heap_end h) p ≡ false = ground (arith, hi, l, heap_end_lem h reach) in
    let idx : (p - h.start_addr) / page ≡ n = omega (arith, lo, hi) in rw (below, above, idx) refl

-- Of a slab, free_pages_backend frees the one page.
pub slab_page_back :
    (n s : ℕ) (h : Heap)
    → n < h.total_pages
    → s ≡ h.start_addr + n * page
    → h.start_addr % 4096 ≡ 0
    → h.metadata n ≡ record { kind = slab_page; count = 1 }
    → InReach h
    → free_pages_backend s h ≡ page_back n h
unfolding free_pages_backend clear_pages
slab_page_back n s h l at al slab reach =
    let idx = page_index n s h l (omega (arith, at, al)) al reach in
    let one : (h.metadata n).count ≡ 1 = ap (λ i. i.count) slab in
    let here : ltb n h.total_pages ≡ true = ground (arith, l) in
    let plus : n + 0 ≡ n = omega arith in rw (free_pages_backend, idx, one) (rw (plus, here) refl)

-- The lists without a slab.
pub record Without (f g : ℕ → List ℕ) (s : ℕ) : Type 0 where
  pub once : (i : ℕ) → Distinct (g i)
  pub same : (i t : ℕ) → t ≢ s → member t (g i) ≡ member t (f i)
  pub gone : (i : ℕ) → member s (g i) ≡ false

-- The state after the last object of a slab was given back.
unfoldable pub drained : (n s ptr : ℕ) (part full : ℕ → List ℕ) → Slabs → Slabs
drained n s ptr part full k = record (put_object s ptr k) {
  heap = page_back n k.heap;
  slabs_partial = part;
  slabs_full = full;
}

drained-Changes :
    (k : Slabs) (n s ptr : ℕ) (part full : ℕ → List ℕ)
    → IsValid k
    → s ≡ k.heap.start_addr + n * page
    → Without k.slabs_partial part s
    → Without k.slabs_full full s
    → Changes k (drained n s ptr part full k) s
unfolding put_object drained
drained-Changes k n s ptr part full v at wp wf =
    let k' = drained n s ptr part full k in
    record {
      start = refl;
      none_free = v.none_free;
      partial_once = wp.once;
      full_once = wf.once;
      others = λ i t ne old.
          same-IsSlab k k' i t refl refl
            (λ m e l.
              let other : m ≢ n =
                λ mn. ne (e ∙ ap (λ z. k.heap.start_addr + z * page) mn ∙ sym at) in
              ground (arith, other))
            refl refl (ground (arith, ne)) (ground (arith, ne)) old;
      free_same = λ t ne. ground (arith, ne);
      cache_same = λ t ne. refl;
      partial_same = wp.same;
      full_same = wf.same;
      partial_self = λ i m. absurd (not_both m (wp.gone i));
      full_self = λ i m. absurd (not_both m (wf.gone i));
    }

pub drained_back :
    (k : Slabs) (c n s ptr : ℕ) (part full : ℕ → List ℕ)
    → IsValid k
    → Held k c s ptr
    → k.in_use s ≡ 1
    → s ≡ k.heap.start_addr + n * page
    → Without k.slabs_partial part s
    → Without k.slabs_full full s
    → let k' = drained n s ptr part full k in
      IsValid k' × TakenBack k ptr k' × ((x : ℕ) → page_of x ≡ s → in_use_at k' x ≡ false)
unfolding in_use_at in_list drained
drained_back k c n s ptr part full v h one at wp wf =
    let k' = drained n s ptr part full k in
    let ch : Changes k k' s = drained-Changes k n s ptr part full v at wp wf in
    let none_left : (x : ℕ) → page_of x ≡ s → in_use_at k' x ≡ false = λ x e.
      ap
        (λ z.
          in_list k' (k'.cache z) z
          && member x (objects_of z (slab_size (k'.cache z)))
          && not (member x (k'.free_list z)))
        e
      ∙ ground (arith, wp.gone (k'.cache s), wf.gone (k'.cache s)) in
    (
      after-IsValid k k' s v ch,
      λ x. elim (Bool-cases (page_of x == s)) [
        | inl e ↦
            let here : page_of x ≡ s = ground (arith, e) in
            elim (Bool-cases (x == ptr)) [
              | inl q ↦ none_left x here ∙ sym (rw q refl)
              | inr q ↦
                  let ne : x ≢ ptr = λ r. ground (arith, q, r) in
                  none_left x here ∙ sym (only_one k c s ptr x v h one ne here) ∙ sym (rw q refl)
            ]
        | inr e ↦
            let away : page_of x ≢ s = λ q. ground (arith, e, q) in
            let ne : (x == ptr) ≡ false = ground (arith, e, h.at) in
            elsewhere_same k k' s x ch away ∙ rw ne refl
      ],
      none_left,
    )
