-- ===== src/Heap/Realloc/Grow.antt =====
-- krealloc of an object of a slab, to at most 2048 bytes.
use valerioedx.Base.{
  ℕ, ◌+◌, ◌-◌, ◌≤◌, ◌<◌, ◌≡◌, refl, ◌≢◌, ◌⊎◌, inl, inr, true, false, ltb, leb, ◌==◌, if◌then◌else◌,
  arith, ap, sym, ◌∙◌, Bool-cases, subst,
}
use valerioedx.Strings.{Memory, memcpy}
use valerioedx.Strings.Moves.{moved, Upwards, memcpy-eq, memmove_lem}
use valerioedx.Heap.{Heap, slab_page}
use valerioedx.Heap.Slabs.{Slabs, slab_size, page_of, kmalloc, kfree}
use valerioedx.Heap.Slabs.Valid.{IsValid, in_use_at, slab_aligned}
use valerioedx.Heap.Slabs.Apart.{obj_size}
use valerioedx.Heap.Pages.{InReach}
use valerioedx.Heap.Slabs.Last.{page_index}
use valerioedx.Heap.Slabs.Given.{Given}
use valerioedx.Heap.Slabs.Kmalloc.{kmalloc_small}
use valerioedx.Heap.Slabs.Kfree.{used-Held, kfree_lem}
use valerioedx.Heap.Realloc.{old_size, krealloc}

-- The bytes of `n` from `p` on in one memory, and from `q` on in another.
abbrev pub SameBytes : (n p : ℕ) → Memory → (q : ℕ) → Memory → Type 0
SameBytes n p m q m' = (i : ℕ) → i < n → m' (q + i) ≡ m (p + i)

-- The block has moved: the bytes with it, and nothing else of what is in use.
abbrev pub Relocated : (ptr new_size : ℕ) → Slabs → Memory → (q : ℕ) → Slabs → Memory → Type 0
Relocated ptr new_size k m q k' m' =
    IsValid k'
    × (q ≢ ptr)
    × (new_size ≤ obj_size k' q)
    × ((x : ℕ)
        → in_use_at k' x ≡ (if x == ptr then false else if x == q then true else in_use_at k x))
    × SameBytes (obj_size k ptr) ptr m q m'
    × ((x : ℕ) → in_use_at k x ≡ true → x ≢ ptr → SameBytes (obj_size k x) x m x m')

old_size-slab :
    (ptr : ℕ) (k : Slabs)
    → IsValid k
    → InReach k.heap
    → in_use_at k ptr ≡ true
    → (old_size ptr k ≡ obj_size k ptr) × ((ptr == 0) ≡ false)
unfolding old_size
old_size-slab ptr k v reach used =
    let s = page_of ptr in
    let h = used-Held k ptr v used in
    let (_, pos) = slab_aligned k (k.cache s) s v h.slab in
    let idx = page_index h.slab.number ptr k.heap h.slab.inside h.slab.at v.aligned reach in
    let kind : (k.heap.metadata h.slab.number).kind ≡ slab_page = ap (λ i. i.kind) h.slab.taken in
    (rw (old_size, idx, kind) refl, ground (arith, pos))

copied : (d s n : ℕ) (m : Memory) → Upwards d s n → memcpy d s n m ≡ moved d s n m
copied d s n m u = (memcpy-eq d s n m u).1 ∙ memmove_lem d s n m

moved_bytes : (d s n : ℕ) (m : Memory) → SameBytes n s m d (moved d s n m)
moved_bytes d s n m i l =
    let e : d + i - d ≡ i = omega arith in
    let lo : leb d (d + i) ≡ true = ground arith in
    let hi : ltb (d + i) (d + n) ≡ true = ground (arith, l) in rw (lo, hi, e) refl

apart_bytes :
    (d s n x w : ℕ) (m : Memory) → (x + w ≤ d) ⊎ (d + n ≤ x) → SameBytes w x m x (moved d s n m)
apart_bytes d s n x w m (inl h) i l = ground (arith, h, l)
apart_bytes d s n x w m (inr h) i l = ground (arith, h, l)

enough_equation :
    (ptr new_size old : ℕ) (k : Slabs) (m : Memory)
    → (ptr == 0) ≡ false
    → (new_size == 0) ≡ false
    → old_size ptr k ≡ old
    → leb new_size old ≡ true
    → krealloc ptr new_size (k, m) ≡ (ptr, k, m)
unfolding krealloc
enough_equation ptr new_size old k m p z o l = rw (krealloc, p, z, o, l) refl

short_equation :
    (ptr new_size old : ℕ) (k : Slabs) (m : Memory)
    → (ptr == 0) ≡ false
    → (new_size == 0) ≡ false
    → old_size ptr k ≡ old
    → leb new_size old ≡ false
    → let (q, k') = kmalloc new_size k in
      krealloc ptr new_size (k, m)
      ≡ (if q == 0 then (q, k', m) else (q, kfree ptr k', memcpy q ptr old m))
unfolding krealloc
short_equation ptr new_size old k m p z o l = rw (krealloc, p, z, o, l) refl

same-InReach :
    (h h' : Heap)
    → h'.start_addr ≡ h.start_addr
    → h'.total_pages ≡ h.total_pages
    → InReach h
    → InReach h'
same-InReach h h' start total (few, low) =
    (omega (arith, total, few), omega (arith, start, total, low))

-- The move from an object to the one that kmalloc gave.
moved_object :
    (ptr new_size c q : ℕ) (k k1 : Slabs) (m : Memory)
    → InReach k.heap
    → in_use_at k ptr ≡ true
    → obj_size k ptr < new_size
    → new_size ≤ slab_size c
    → Given (slab_size c) k q k1
    → Relocated ptr new_size k m q (kfree ptr k1) (memcpy q ptr (obj_size k ptr) m)
moved_object ptr new_size c q k k1 m reach used more fits
      (valid, out, pos, size, sizes, apart, pages) =
    let old = obj_size k ptr in
    let ne : ptr ≢ q = λ e. cc (sym (ap (in_use_at k) e) ∙ used, out.0) in
    let other : (ptr == q) ≡ false = ground (arith, ne) in
    let still : in_use_at k1 ptr ≡ true = out.1 ptr ∙ rw other used in
    let (valid', back, page_back, caches) =
      kfree_lem ptr k1 valid (same-InReach k.heap k1.heap pages.0 pages.1 reach) still in
    let clear : (ptr + obj_size k1 ptr ≤ q) ⊎ (q + slab_size c ≤ ptr) = apart ptr used in
    let up : Upwards q ptr old = elim clear [
      | inl l ↦ inr (omega (arith, l, sizes ptr used))
      | inr l ↦ inl (omega (arith, l))
    ] in
    let copy = copied q ptr old m up in
    (
      valid',
      λ e. ne (sym e),
      omega (arith, ap (λ f. slab_size (f (page_of q))) caches, size, fits),
      λ x. back x ∙ ap (λ b. if x == ptr then false else b) (out.1 x),
      subst (SameBytes old ptr m q) (sym copy) (moved_bytes q ptr old m),
      λ x h nx. subst (SameBytes (obj_size k x) x m x) (sym copy) (
          apart_bytes q ptr old x (obj_size k x) m (elim (apart x h) [
            | inl l ↦ inl (omega (arith, l, sizes x h))
            | inr l ↦ inr (omega (arith, l, more, fits))
          ])),
    )

-- The outcomes of krealloc: the block is large enough, there is no memory, or it moves.
abbrev pub Resized : (ptr new_size : ℕ) → Slabs → Memory → (q : ℕ) → Slabs → Memory → Type 0
Resized ptr new_size k m q k' m' =
    ((new_size ≤ obj_size k ptr) × (q ≡ ptr) × (k' ≡ k) × (m' ≡ m))
    ⊎ (obj_size k ptr < new_size)
      × (((q ≡ 0) × (k' ≡ k) × (m' ≡ m)) ⊎ Relocated ptr new_size k m q k' m')

-- In a valid state of a heap of less than 4 GiB that ends below 2^64, krealloc of an object in use
-- to 1 to 2048 bytes returns it unchanged where its class is large enough. Else it returns NULL and
-- changes nothing, or returns another object that is large enough: it has all the bytes of the
-- first, which is out of use; all others stay in use with their bytes, nothing else comes into use,
-- and the state is valid again.
pub krealloc-Resized :
    (ptr new_size : ℕ) (k : Slabs) (m : Memory)
    → IsValid k
    → InReach k.heap
    → in_use_at k ptr ≡ true
    → 0 < new_size
    → new_size ≤ 2048
    → let (q, k', m') = krealloc ptr new_size (k, m) in Resized ptr new_size k m q k' m'
krealloc-Resized ptr new_size k m v reach used pos small =
    let old = obj_size k ptr in
    let (size, not_null) = old_size-slab ptr k v reach used in
    let z : (new_size == 0) ≡ false = ground (arith, pos) in
    let r = kmalloc new_size k in
    elim (Bool-cases (leb new_size old)) [
      | inl e ↦
          let eq = enough_equation ptr new_size old k m not_null z size e in
          subst (λ t. Resized ptr new_size k m t.0 t.1 t.2) (sym eq)
            (inl (ground (arith, e), refl, refl, refl))
      | inr e ↦
          let more : old < new_size = ground (arith, e) in
          let eq = short_equation ptr new_size old k m not_null z size e in
          let (c, _, fits, _, result) = kmalloc_small new_size k v pos small in
          subst (λ t. Resized ptr new_size k m t.0 t.1 t.2) (sym eq)
            (elim result [
              | inl (null, same, _, _) ↦
                  let yes_null : (r.0 == 0) ≡ true = ground (arith, null) in
                  rw yes_null (inr (more, inl (null, same, refl)))
              | inr given ↦
                  let some_q : (r.0 == 0) ≡ false = ground (arith, given.2) in
                  rw some_q (
                    inr (
                      more,
                      inr (moved_object ptr new_size c r.0 k r.1 m reach used more fits given),
                    ))
            ])
    ]
