-- ===== src/Heap/Slabs/Apart.antt =====
-- The objects in use do not overlap.
use valerioedx.Base.{
  ℕ, ◌+◌, ◌≤◌, ◌<◌, ◌≡◌, ◌≢◌, ◌⊎◌, inl, inr, true, ltb, ◌==◌, member, arith, ap, ◌∙◌, Bool-cases,
}
use valerioedx.Heap.Slabs.{Slabs, slab_size, objects_of, page_of}
use valerioedx.Heap.Slabs.Objects.{object_inside, slab_apart}
use valerioedx.Heap.Slabs.Valid.{IsSlab, IsValid, in_use_at, listed-IsSlab, slab_aligned}

-- The size of the object at an address, by the cache of its slab.
abbrev pub obj_size : Slabs → ℕ → ℕ
obj_size k x = slab_size (k.cache (page_of x))

abbrev pub InSlab : (k : Slabs) (x : ℕ) → Type 0
InSlab k x =
    IsSlab k (k.cache (page_of x)) (page_of x)
    × (member x (objects_of (page_of x) (obj_size k x)) ≡ true)

pub used-InSlab : (k : Slabs) (x : ℕ) → IsValid k → in_use_at k x ≡ true → InSlab k x
unfolding in_use_at
used-InSlab k x v h =
    (listed-IsSlab k (k.cache (page_of x)) (page_of x) v (ground (arith, h)), ground (arith, h))

-- Two objects of one slab.
one_slab :
    (k : Slabs) (x y : ℕ)
    → IsValid k
    → InSlab k x
    → InSlab k y
    → page_of x ≡ page_of y
    → x ≢ y
    → (x + obj_size k x ≤ y) ⊎ (y + obj_size k y ≤ x)
one_slab k x y v qx qy e ne =
    let s = page_of x in
    let size : slab_size (k.cache s) ≡ obj_size k y = ap (λ z. slab_size (k.cache z)) e in
    let there : member y (objects_of s (obj_size k x)) ≡ true =
      ap (λ z. member y (objects_of z (slab_size (k.cache z)))) e ∙ qy.1 in
    elim (slab_apart s (obj_size k x) x y (slab_aligned k (k.cache s) s v qx.0).0 qx.1 there ne) [
      | inl h ↦ inl h
      | inr h ↦ inr (omega (arith, h, size))
    ]

-- In every valid state two objects in use do not overlap.
pub used_apart :
    (k : Slabs) (x y : ℕ)
    → IsValid k
    → in_use_at k x ≡ true
    → in_use_at k y ≡ true
    → x ≢ y
    → (x + obj_size k x ≤ y) ⊎ (y + obj_size k y ≤ x)
used_apart k x y v hx hy ne =
    let qx = used-InSlab k x v hx in
    let qy = used-InSlab k y v hy in
    let s = page_of x in
    let t = page_of y in
    let (al, _) = slab_aligned k (k.cache s) s v qx.0 in
    let (al', _) = slab_aligned k (k.cache t) t v qy.0 in
    let (lo, hi) = object_inside s (obj_size k x) x al qx.1 in
    let (lo', hi') = object_inside t (obj_size k y) y al' qy.1 in
    elim (Bool-cases (s == t)) [
      | inl e ↦ one_slab k x y v qx qy (ground (arith, e)) ne
      | inr e ↦ elim (Bool-cases (ltb s t)) [
        | inl l ↦
            let l' : s < t = ground (arith, l) in inl (omega (lo, hi, lo', hi', al, al', l', arith))
        | inr g ↦
            let g' : t < s = ground (arith, g, e) in
            inr (omega (lo, hi, lo', hi', al, al', g', arith))
      ]
    ]
