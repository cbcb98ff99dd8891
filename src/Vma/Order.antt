-- ===== src/Vma/Order.antt =====
-- The order of the areas of an address space, and `vma_insert` of kernel/mm/vma.c.
use valerioedx.Base.{
  ℕ, ◌≤◌, ◌<◌, ◌≡◌, refl, ◌⊎◌, inl, inr, true, false, some, List, [], ◌∷◌, ltb, leb, if◌then◌else◌,
  pos, negsuc, arith, Bool-cases,
}
use valerioedx.Vma.{
  Vma, user_space_end, disjoint, overlaps, insert_behind, insert_ordered, vma_insert, holds,
  vma_find,
}

-- The areas stand in the order of their addresses, from `lo` on, none is empty, no two share an
-- address, and all end inside the user space.
abbrev pub Ordered : ℕ → List Vma → Type 0
Ordered lo [] = lo ≤ user_space_end
Ordered lo (v ∷ vs) = (lo ≤ v.vm_start) × (v.vm_start < v.vm_end) × Ordered v.vm_end vs

pub Ordered-le : {lo hi : ℕ} (vs : List Vma) → Ordered hi vs → lo ≤ hi → Ordered lo vs
Ordered-le [] o h = omega arith
Ordered-le (v ∷ vs) o h = (omega arith, o.1, o.2)

module _ (new : Vma) (full : new.vm_start < new.vm_end) (inside : new.vm_end ≤ user_space_end) where
  insert_behind-Ordered :
      (vs : List Vma) (lo : ℕ)
      → lo ≤ new.vm_start
      → overlaps new vs ≡ false
      → Ordered lo vs
      → Ordered lo (insert_behind new vs)
  unfolding insert_behind overlaps
  insert_behind-Ordered [] lo h free o = (h, full, inside)
  insert_behind-Ordered (v ∷ vs) lo h free o = elim (Bool-cases (ltb v.vm_start new.vm_start)) [
    | inl e ↦ rw e (o.0, o.1, insert_behind-Ordered vs v.vm_end (ground arith) (ground arith) o.2)
    | inr e ↦ rw e (h, full, (ground arith, o.1, o.2))
  ]

  pub insert_ordered-Ordered :
      (vs : List Vma) (lo : ℕ)
      → lo ≤ new.vm_start
      → overlaps new vs ≡ false
      → Ordered lo vs
      → Ordered lo (insert_ordered new vs)
  unfolding insert_ordered overlaps
  insert_ordered-Ordered [] lo h free o = (h, full, inside)
  insert_ordered-Ordered (v ∷ vs) lo h free o = elim (Bool-cases (ltb new.vm_start v.vm_start)) [
    | inl e ↦ rw e (h, full, (ground arith, o.1, o.2))
    | inr e ↦ rw e (o.0, o.1, insert_behind-Ordered vs v.vm_end (ground arith) (ground arith) o.2)
  ]

  find-insert_behind :
      (addr : ℕ) (vs : List Vma)
      → overlaps new vs ≡ false
      → vma_find addr (insert_behind new vs)
        ≡ (if holds addr new then some new else vma_find addr vs)
  unfolding insert_behind overlaps vma_find
  find-insert_behind addr [] free = refl
  find-insert_behind addr (v ∷ vs) free = ground (arith, find-insert_behind addr vs)

  pub find-insert_ordered :
      (addr : ℕ) (vs : List Vma)
      → overlaps new vs ≡ false
      → vma_find addr (insert_ordered new vs)
        ≡ (if holds addr new then some new else vma_find addr vs)
  unfolding insert_ordered overlaps vma_find
  find-insert_ordered addr [] free = refl
  find-insert_ordered addr (v ∷ vs) free = ground (arith, find-insert_behind addr vs)

  -- An address that the new area and an old one share.
  shared_address :
      (lo : ℕ) (vs : List Vma)
      → overlaps new vs ≡ true
      → Ordered lo vs
      → (addr : ℕ) × (holds addr new ≡ true) × (w : Vma) × (vma_find addr vs ≡ some w)
  unfolding overlaps vma_find
  shared_address lo [] e o = cc
  shared_address lo (v ∷ vs) e o = elim (Bool-cases (disjoint new v)) [
    | inl apart ↦
        let (addr, h, w, f) = shared_address v.vm_end vs (rw apart at e) o.2 in
        elim (Bool-cases (holds addr v)) [
          | inl here ↦ (addr, h, v, rw here)
          | inr elsewhere ↦ (addr, h, w, rw elsewhere f)
        ]
    | inr meet ↦ elim (Bool-cases (leb new.vm_start v.vm_start)) [
      | inl below ↦ (v.vm_start, ground arith, v, ground arith)
      | inr above ↦ (new.vm_start, ground arith, v, ground arith)
    ]
  ]

pub insert_free :
    (new : Vma) (vs : List Vma)
    → overlaps new vs ≡ false
    → vma_insert new vs ≡ (pos 0, insert_ordered new vs)
unfolding vma_insert
insert_free new vs e = rw e

-- For a non-empty area inside the user space and an ordered address space, vma_insert either
-- returns 0, keeps the order, and a search finds the new area at its addresses and what it found
-- before elsewhere; or it returns -1, changes nothing, and the area shares an address with an
-- old one.
pub insert_lem :
    (new : Vma) (vs : List Vma)
    → new.vm_start < new.vm_end
    → new.vm_end ≤ user_space_end
    → Ordered 0 vs
    → let (code, vs') = vma_insert new vs in
      ((code ≡ pos 0)
        × Ordered 0 vs'
        × ((addr : ℕ)
            → vma_find addr vs' ≡ (if holds addr new then some new else vma_find addr vs)))
      ⊎ ((code ≡ negsuc 0)
          × (vs' ≡ vs)
          × (addr : ℕ) × (holds addr new ≡ true)
          × (w : Vma) × (vma_find addr vs ≡ some w))
unfolding vma_insert
insert_lem new vs full inside o = elim (Bool-cases (overlaps new vs)) [
  | inl e ↦ rw e (
      let (addr, h, w, f) = shared_address new full inside 0 vs e o in
      inr (refl, refl, addr, h, w, f))
  | inr e ↦ rw e (
      inl (
        refl,
        insert_ordered-Ordered new full inside vs 0 (omega arith) e o,
        λ addr. find-insert_ordered new full inside addr vs e,
      ))
]
