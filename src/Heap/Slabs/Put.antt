-- ===== src/Heap/Slabs/Put.antt =====
-- heap.c's cache_free of an object in use, where others of its slab stay in use.
use valerioedx.Base.{
  ℕ, ◌+◌, ◌-◌, ◌%◌, ◌^◌, ◌≤◌, ◌<◌, ◌≡◌, ◌≢◌, inl, inr, true, false, List, ◌∷◌, length, ◌==◌, member,
  Distinct, length-Distinct, member-cons, arith, ap, sym, ◌∙◌, Bool-cases,
}
use valerioedx.Heap.Slabs.{Slabs, slab_size, objects_of, page_of, put_object}
use valerioedx.Heap.Slabs.Objects.{num_objects, length-objects_of, some_objects}
use valerioedx.Heap.Slabs.Valid.{IsSlab, IsValid, in_list, in_use_at, slab_aligned}
use valerioedx.Heap.Slabs.Alloc.{in_use_on}

-- An object of the slab `s` of the cache `c` that is in use.
pub record Held (k : Slabs) (c s ptr : ℕ) : Type 0 where
  pub slab : IsSlab k c s
  pub listed : in_list k c s ≡ true
  pub at : page_of ptr ≡ s
  pub inside : member ptr (objects_of s (slab_size c)) ≡ true
  pub not_free : member ptr (k.free_list s) ≡ false

-- As many objects as are in use, with `extra` others that are not free.
room_for :
    (k : Slabs) (c s : ℕ) (xs : List ℕ)
    → IsValid k
    → IsSlab k c s
    → Distinct xs
    → ((x : ℕ) → member x xs ≡ true → member x (objects_of s (slab_size c)) ≡ true)
    → length xs ≤ num_objects (slab_size c)
room_for k c s xs v q d sub = omega (
  arith,
  length-Distinct xs (objects_of s (slab_size c)) d sub,
  length-objects_of s (slab_size c) (slab_aligned k c s v q).0,
)

pub put-Distinct : (k : Slabs) (c s ptr : ℕ) → Held k c s ptr → Distinct (ptr ∷ k.free_list s)
put-Distinct k c s ptr h = (h.not_free, h.slab.distinct)

pub put_inside :
    (k : Slabs) (c s ptr x : ℕ)
    → Held k c s ptr
    → member x (ptr ∷ k.free_list s) ≡ true
    → member x (objects_of s (slab_size c)) ≡ true
put_inside k c s ptr x h m = elim (Bool-cases (ptr == x)) [
  | inl e ↦
      let px : ptr ≡ x = ground (arith, e) in
      ap (λ z. member z (objects_of s (slab_size c))) (sym px) ∙ h.inside
  | inr e ↦ h.slab.free_objects x (ground (arith, e, sym (member-cons x ptr (k.free_list s)) ∙ m))
]

-- The count of the slab is not 0, and is far from the end of its 32 bits.
pub used_bounds :
    (k : Slabs) (c s ptr : ℕ) → IsValid k → Held k c s ptr → (0 < k.in_use s) × (k.in_use s ≤ 4056)
used_bounds k c s ptr v h =
    let room =
      room_for k c s (ptr ∷ k.free_list s) v h.slab (put-Distinct k c s ptr h)
        (λ x m. put_inside k c s ptr x h m) in
    (
      omega (arith, room, h.slab.counted),
      omega (arith, h.slab.counted, (some_objects c h.slab.index).1),
    )

-- Where one object of a slab is in use, no other is.
pub only_one :
    (k : Slabs) (c s ptr x : ℕ)
    → IsValid k
    → Held k c s ptr
    → k.in_use s ≡ 1
    → x ≢ ptr
    → page_of x ≡ s
    → in_use_at k x ≡ false
unfolding member
only_one k c s ptr x v h one ne at =
    in_use_on k c s x h.slab.owner h.listed at
    ∙ elim (Bool-cases (member x (objects_of s (slab_size c)))) [
      | inr out ↦ ground (arith, out)
      | inl ins ↦ elim (Bool-cases (member x (k.free_list s))) [
        | inl free ↦ ground (arith, free)
        | inr used ↦
            let px : (ptr == x) ≡ false = ground (arith, ne) in
            let d : member x (ptr ∷ k.free_list s) ≡ false = ground (arith, px, used) in
            let room =
              room_for k c s (x ∷ ptr ∷ k.free_list s) v h.slab (d, put-Distinct k c s ptr h)
                (λ z m. elim (Bool-cases (x == z)) [
                  | inl e ↦
                      let xz : x ≡ z = ground (arith, e) in
                      ap (λ w. member w (objects_of s (slab_size c))) (sym xz) ∙ ins
                  | inr e ↦
                      put_inside k c s ptr z h
                        (ground (arith, e, sym (member-cons z x (ptr ∷ k.free_list s)) ∙ m))
                ]) in
            absurd (omega (arith, room, h.slab.counted, one))
      ]
    ]

less_one : (u : ℕ) → 0 < u → u ≤ 4056 → (u + (2 ^ 32 - 1)) % 2 ^ 32 + 1 ≡ u
less_one u lo hi = omega (arith, lo, hi)

pub put_count :
    (k : Slabs) (c s ptr : ℕ)
    → IsValid k
    → Held k c s ptr
    → (put_object s ptr k).in_use s + 1 ≡ k.in_use s
unfolding put_object
put_count k c s ptr v h =
    let (lo, hi) = used_bounds k c s ptr v h in
    let here : (put_object s ptr k).in_use s ≡ (k.in_use s + (2 ^ 32 - 1)) % 2 ^ 32 =
      ground arith in
    omega (arith, here, less_one (k.in_use s) lo hi)
