-- ===== src/Vma/Unmap.antt =====
-- `vma_unmap` of kernel/mm/vma.c against what it should do to each address.
use valerioedx.Base.{
  ℕ, ◌≤◌, ◌<◌, ◌≡◌, refl, inl, inr, Bool, true, false, ◌&&◌, Option, none, some, List, [], ◌∷◌,
  ◌++◌, ltb, leb, if◌then◌else◌, pos, arith, Bool-cases, Option-cases,
}
use valerioedx.Vma.{
  Vma, Pages, user_space_end, vma_create, vma_find, unmap_vma, unmap_list, vma_unmap,
}
use valerioedx.Vma.Order.{Ordered, Ordered-le}

-- Protection and kind of the area at an address.
abbrev pub kind_at : ℕ → List Vma → Option (ℕ × ℕ)
kind_at addr vs = elim (vma_find addr vs) [ none ↦ none | some v ↦ some (v.vm_flags, v.vm_type) ]

abbrev pub in_range : ℕ → ℕ → ℕ → Bool
in_range start end addr = leb start addr && ltb addr end

-- What one area is replaced by, in front of any list.
module _ (room : Vma → Bool) (start end : ℕ) where
  unmap_vma-kind :
      (v : Vma) (g : Pages) (addr : ℕ) (ps vs ws : List Vma)
      → start < end
      → (unmap_vma room start end v g).0 ≡ some ps
      → kind_at addr ws ≡ (if in_range start end addr then none else kind_at addr vs)
      → kind_at addr (ps ++ ws) ≡ (if in_range start end addr then none else kind_at addr (v ∷ vs))
  unfolding unmap_vma vma_create vma_find
  unmap_vma-kind v g addr ps vs ws h e ih = ground arith

  unmap_list-kind :
      (vs : List Vma) (g : Pages) (addr : ℕ)
      → start < end
      → (unmap_list room start end vs g).0 ≡ pos 0
      → kind_at addr (unmap_list room start end vs g).1
        ≡ (if in_range start end addr then none else kind_at addr vs)
  unfolding unmap_list vma_find
  unmap_list-kind [] g addr h e = ground arith
  unmap_list-kind (v ∷ vs) g addr h e = elim (Option-cases (unmap_vma room start end v g).0) [
    | inl fails ↦ cc (rw (fails, unmap_list) at e)
    | inr (ps, done) ↦
        rw (done, unmap_list)
          (unmap_vma-kind v g addr ps vs _ h done
            (unmap_list-kind vs _ addr h (rw (done, unmap_list) at e)))
  ]

  -- The pieces stay ordered between the bounds of the area that they replace.
  unmap_vma-Ordered :
      (v : Vma) (g : Pages) (ps vs : List Vma) (lo : ℕ)
      → start < end
      → (unmap_vma room start end v g).0 ≡ some ps
      → lo ≤ v.vm_start
      → v.vm_start < v.vm_end
      → Ordered v.vm_end vs
      → Ordered lo (ps ++ vs)
  unfolding unmap_vma vma_create
  unmap_vma-Ordered v g ps vs lo h e below full o =
      ground (arith, Ordered-le {lo = lo} vs o, Ordered-le {lo = start} vs o)

  unmap_list-Ordered :
      (vs : List Vma) (g : Pages) (lo : ℕ)
      → start < end
      → Ordered lo vs
      → Ordered lo (unmap_list room start end vs g).1
  unfolding unmap_list
  unmap_list-Ordered [] g lo h o = o
  unmap_list-Ordered (v ∷ vs) g lo h o = elim (Option-cases (unmap_vma room start end v g).0) [
    | inl fails ↦ rw (fails, unmap_list) o
    | inr (ps, done) ↦
        rw (done, unmap_list)
          (unmap_vma-Ordered v g ps _ lo h done o.0 o.1 (unmap_list-Ordered vs _ v.vm_end h o.2))
  ]

-- vma_unmap keeps the areas ordered, disjoint, non-empty and inside the user space, whether it
-- succeeds or runs out of memory at a split.
pub unmap-Ordered :
    (room : Vma → Bool) (start end : ℕ) (vs : List Vma) (g : Pages)
    → Ordered 0 vs
    → Ordered 0 (vma_unmap room start end vs g).1
unfolding vma_unmap
unmap-Ordered room start end vs g o = elim (Bool-cases (leb end start)) [
  | inl empty ↦ rw empty o
  | inr full ↦ rw full (unmap_list-Ordered room start end vs g 0 (ground arith) o)
]

-- Where vma_unmap returns 0, no area holds an address of the range any more, and every other
-- address has the protection and the kind of area that it had, if any.
pub kind_at-unmap :
    (room : Vma → Bool) (start end : ℕ) (vs : List Vma) (g : Pages) (addr : ℕ)
    → (vma_unmap room start end vs g).0 ≡ pos 0
    → kind_at addr (vma_unmap room start end vs g).1
      ≡ (if in_range start end addr then none else kind_at addr vs)
unfolding vma_unmap
kind_at-unmap room start end vs g addr e = elim (Bool-cases (leb end start)) [
  | inl empty ↦ cc (rw empty at e)
  | inr full ↦ rw full (unmap_list-kind room start end vs g addr (ground arith) (rw full at e))
]

unmap_vma-some :
    (start end : ℕ) (v : Vma) (g : Pages)
    → start < end
    → v.vm_end ≤ user_space_end
    → (ps : List Vma) × ((unmap_vma (λ w. true) start end v g).0 ≡ some ps)
unfolding unmap_vma vma_create
unmap_vma-some start end v g h inside =
    elim (Option-cases (unmap_vma (λ w. true) start end v g).0) [
      | inl fails ↦ absurd (ground arith)
      | inr done ↦ done
    ]

pub end-le : (lo : ℕ) (vs : List Vma) → Ordered lo vs → lo ≤ user_space_end
end-le lo [] o = o
end-le lo (v ∷ vs) o = omega (arith, end-le v.vm_end vs o.2)

unmap_list_succeeds :
    (start end : ℕ) (vs : List Vma) (g : Pages) (lo : ℕ)
    → start < end
    → Ordered lo vs
    → (unmap_list (λ w. true) start end vs g).0 ≡ pos 0
unfolding unmap_list
unmap_list_succeeds start end [] g lo h o = refl
unmap_list_succeeds start end (v ∷ vs) g lo h o =
    let (ps, done) = unmap_vma-some start end v g h (end-le v.vm_end vs o.2) in
    rw (done, unmap_list) (unmap_list_succeeds start end vs _ v.vm_end h o.2)

-- With memory for every split, vma_unmap of a range that is not empty from an ordered address
-- space returns 0.
pub unmap_succeeds :
    (start end : ℕ) (vs : List Vma) (g : Pages)
    → start < end
    → Ordered 0 vs
    → (vma_unmap (λ w. true) start end vs g).0 ≡ pos 0
unfolding vma_unmap
unmap_succeeds start end vs g h o =
    let full : leb end start ≡ false = ground arith in
    rw full (unmap_list_succeeds start end vs g 0 h o)
