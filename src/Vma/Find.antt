-- ===== src/Vma/Find.antt =====
-- `vma_find` of kernel/mm/vma.c.
use valerioedx.Base.{
  ℕ, ◌≤◌, ◌<◌, ◌≡◌, ◌⊎◌, inl, inr, ◌↔◌, true, some, List, [], ◌∷◌, arith, Bool-cases,
}
use valerioedx.Vma.{Vma, holds, vma_find}
use valerioedx.Vma.Order.{Ordered}

-- `v` is one of the areas.
abbrev pub In : Vma → List Vma → Type 0
In v [] = ⊥
In v (w ∷ ws) = (v ≡ w) ⊎ In v ws

In-bounds :
    {lo : ℕ} (v : Vma) (vs : List Vma)
    → Ordered lo vs
    → In v vs
    → (lo ≤ v.vm_start) × (v.vm_start < v.vm_end)
In-bounds v [] o m = absurd m
In-bounds v (w ∷ ws) o (inl e) = ground arith
In-bounds v (w ∷ ws) o (inr m) = omega (arith, In-bounds v ws o.2 m)

find_sound :
    (addr : ℕ) (vs : List Vma) {v : Vma}
    → vma_find addr vs ≡ some v
    → In v vs × (holds addr v ≡ true)
unfolding vma_find
find_sound addr [] e = cc
find_sound addr (w ∷ ws) {v} e = elim (Bool-cases (holds addr w)) [
  | inl here ↦ (inl (ground arith), ground arith)
  | inr elsewhere ↦ let (m, h) = find_sound addr ws {v = v} (rw elsewhere at e) in (inr m, h)
]

find_complete :
    (lo addr : ℕ) (vs : List Vma) (v : Vma)
    → Ordered lo vs
    → In v vs
    → holds addr v ≡ true
    → vma_find addr vs ≡ some v
unfolding vma_find
find_complete lo addr [] v o m h = absurd m
find_complete lo addr (w ∷ ws) v o (inl e) h = rw (← e, h)
find_complete lo addr (w ∷ ws) v o (inr m) h =
    ground (arith, find_complete w.vm_end addr ws v o.2 m h, In-bounds v ws o.2 m)

-- In an ordered address space a search returns an area exactly when the area is in the list and
-- holds the address.
pub find-eq-some_iff :
    (addr : ℕ) (vs : List Vma) (v : Vma)
    → Ordered 0 vs
    → (vma_find addr vs ≡ some v) ↔ (In v vs × (holds addr v ≡ true))
find-eq-some_iff addr vs v o = (λ e. find_sound addr vs e, λ m. find_complete 0 addr vs v o m.0 m.1)
