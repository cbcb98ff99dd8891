-- ===== src/Heap/Slabs/Moves.antt =====
-- A slab moves from one list to another.
use valerioedx.Base.{
  ℕ, ◌≡◌, refl, ◌≢◌, ◌⊎◌, inl, inr, Bool, true, false, List, ◌∷◌, ◌==◌, update, member, remove,
  Distinct, arith, ap, sym, ◌∙◌, Bool-cases, member-remove_other, member-remove_same,
}

pub update_same : (f : ℕ → List ℕ) (s : ℕ) (v : List ℕ) → update f s v s ≡ v
update_same f s v = ground arith

pub not_both : {b : Bool} → b ≡ true → b ≡ false → ⊥
not_both h h' = cc (h, h')

pub update-Distinct :
    (f : ℕ → List ℕ) (c i : ℕ) (xs : List ℕ)
    → ((j : ℕ) → Distinct (f j))
    → Distinct xs
    → Distinct (update f c xs i)
update-Distinct f c i xs d dx = elim (Bool-cases (i == c)) [ inl e ↦ rw e dx | inr e ↦ rw e (d i) ]

pub member-added :
    (f : ℕ → List ℕ) (c i s t : ℕ) → t ≢ s → member t (update f c (s ∷ f c) i) ≡ member t (f i)
unfolding member
member-added f c i s t ne = elim (Bool-cases (i == c)) [
  | inl e ↦
      let q : i ≡ c = ground (arith, e) in
      rw e (ground (arith, ne) ∙ sym (ap (λ j. member t (f j)) q))
  | inr e ↦ rw e refl
]

pub member-removed :
    (f : ℕ → List ℕ) (c i s t : ℕ)
    → t ≢ s
    → member t (update f c (remove s (f c)) i) ≡ member t (f i)
member-removed f c i s t ne = elim (Bool-cases (i == c)) [
  | inl e ↦
      let q : i ≡ c = ground (arith, e) in
      rw e (member-remove_other t s (f c) ne ∙ sym (ap (λ j. member t (f j)) q))
  | inr e ↦ rw e refl
]

-- In which lists the moved slab is.
pub where_added :
    (f : ℕ → List ℕ) (c i s : ℕ)
    → member s (update f c (s ∷ f c) i) ≡ true
    → (i ≡ c) ⊎ (member s (f i) ≡ true)
where_added f c i s h = elim (Bool-cases (i == c)) [
  | inl e ↦ inl (ground (arith, e))
  | inr e ↦ inr (ground (arith, h, e))
]

pub where_removed :
    (f : ℕ → List ℕ) (c i s : ℕ)
    → Distinct (f c)
    → member s (update f c (remove s (f c)) i) ≡ true
    → (i ≢ c) × (member s (f i) ≡ true)
where_removed f c i s d h = elim (Bool-cases (i == c)) [
  | inl e ↦ absurd (ground (arith, h, e, member-remove_same s (f c) d))
  | inr e ↦ (λ q. ground (arith, e, q), ground (arith, h, e))
]

pub remove_first : (s : ℕ) (xs ys : List ℕ) → ys ≡ s ∷ xs → remove s ys ≡ xs
unfolding remove
remove_first s xs ys e = ap (remove s) e ∙ ground arith
