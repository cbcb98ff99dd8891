-- ===== src/Heap/Realloc/Zeroed.antt =====
-- kcalloc of kernel/mm/heap.c, where the product fits in a word.
use valerioedx.Base.{
  ℕ, ◌+◌, ◌*◌, ◌%◌, ◌^◌, ◌≤◌, ◌<◌, ◌≡◌, refl, ◌⊎◌, inl, inr, true, false, ◌==◌, if◌then◌else◌,
  arith, ap, sym, ◌∙◌, subst,
}
use valerioedx.Strings.{Memory, memset}
use valerioedx.Strings.Fills.{filled, memset_lem}
use valerioedx.Heap.Slabs.{Slabs, slab_size, kmalloc}
use valerioedx.Heap.Slabs.Valid.{IsValid, in_use_at}
use valerioedx.Heap.Slabs.Apart.{obj_size}
use valerioedx.Heap.Slabs.Given.{Given}
use valerioedx.Heap.Slabs.Kmalloc.{kmalloc_small}
use valerioedx.Heap.Realloc.{kcalloc}
use valerioedx.Heap.Realloc.Grow.{SameBytes}

-- No memory, or an object with zeros.
abbrev pub Zeroed : (total : ℕ) → Slabs → Memory → (q : ℕ) → Slabs → Memory → Type 0
Zeroed total k m q k' m' =
    ((q ≡ 0) × (k' ≡ k) × (m' ≡ m))
    ⊎ ((c : ℕ) × (total ≤ slab_size c)
        × Given (slab_size c) k q k'
        × ((i : ℕ) → i < total → m' (q + i) ≡ 0)
        × ((x : ℕ) → in_use_at k x ≡ true → SameBytes (obj_size k x) x m x m'))

kcalloc_equation :
    (num size total : ℕ) (k : Slabs) (m : Memory)
    → num * size % 2 ^ 64 ≡ total
    → let (q, k') = kmalloc total k in
      kcalloc num size (k, m) ≡ (if q == 0 then (q, k', m) else (q, k', memset q 0 total m))
unfolding kcalloc
kcalloc_equation num size total k m e = rw (kcalloc, e) refl

set_bytes : (d n i : ℕ) (m : Memory) → i < n → filled d 0 n m (d + i) ≡ 0
set_bytes d n i m h = ground (arith, h)

kept_bytes :
    (d n x w : ℕ) (m : Memory) → (x + w ≤ d) ⊎ (d + n ≤ x) → SameBytes w x m x (filled d 0 n m)
kept_bytes d n x w m (inl h) i l = ground (arith, h, l)
kept_bytes d n x w m (inr h) i l = ground (arith, h, l)

-- In a valid state kcalloc of 1 to 2048 bytes in all returns NULL and changes nothing, or an object
-- of a class that is large enough, as kmalloc does, whose first num * size bytes are 0; the bytes of
-- the objects that were in use stay.
pub kcalloc-Zeroed :
    (num size total : ℕ) (k : Slabs) (m : Memory)
    → IsValid k
    → num * size ≡ total
    → 0 < total
    → total ≤ 2048
    → let (q, k', m') = kcalloc num size (k, m) in Zeroed total k m q k' m'
kcalloc-Zeroed num size total k m v product pos small =
    let r = kmalloc total k in
    let word : num * size % 2 ^ 64 ≡ total = ap (λ n. n % 2 ^ 64) product ∙ omega (arith, small) in
    let eq = kcalloc_equation num size total k m word in
    let (c, _, fits, _, result) = kmalloc_small total k v pos small in
    subst (λ t. Zeroed total k m t.0 t.1 t.2) (sym eq)
      (elim result [
        | inl (null, same, _, _) ↦
            let yes_null : (r.0 == 0) ≡ true = ground (arith, null) in
            rw yes_null (inl (null, same, refl))
        | inr given ↦
            let some_q : (r.0 == 0) ≡ false = ground (arith, given.2) in
            let zeros : memset r.0 0 total m ≡ filled r.0 0 total m =
              (memset_lem r.0 0 total m).0 in
            rw some_q (
              inr (
                c,
                fits,
                given,
                λ i l. ap (λ f. f (r.0 + i)) zeros ∙ set_bytes r.0 total i m l,
                λ x h. subst (SameBytes (obj_size k x) x m x) (sym zeros) (
                    kept_bytes r.0 total x (obj_size k x) m (elim (given.5 x h) [
                      | inl l ↦ inl (omega (arith, l, given.4 x h))
                      | inr l ↦ inr (omega (arith, l, fits))
                    ])),
              ))
      ])
