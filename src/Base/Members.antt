-- ===== src/Base/Members.antt =====
-- Members of lists of numbers.
use Prim.Native.Nat.{ℕ, ◌+◌, ◌≤◌}
use mathlib.Core.Path.{◌≡◌, refl, sym, ap, ◌∙◌}
use mathlib.Core.Logic.{◌≢◌, inl, inr}
use mathlib.Core.Bool.{Bool, true, false}
use mathlib.Core.List.{List, [], ◌∷◌}
use native.Mathlib.Omega.{arith}
use valerioedx.Base.Tests.{◌==◌, if◌then◌else◌, Bool-cases}
use valerioedx.Base.Lists.{length}

unfoldable pub member : ℕ → List ℕ → Bool
member x [] = false
member x (y ∷ ys) = if y == x then true else member x ys

-- The first occurrence is taken out.
unfoldable pub remove : ℕ → List ℕ → List ℕ
remove x [] = []
remove x (y ∷ ys) = if y == x then ys else y ∷ remove x ys

-- No number stands in the list twice.
abbrev pub Distinct : List ℕ → Type 0
Distinct [] = Unit {0}
Distinct (x ∷ xs) = (member x xs ≡ false) × Distinct xs

pub member-cons :
    (x y : ℕ) (ys : List ℕ) → member x (y ∷ ys) ≡ (if y == x then true else member x ys)
unfolding member
member-cons x y ys = refl

pub member-remove_sub : (x y : ℕ) (ys : List ℕ) → member x (remove y ys) ≡ true → member x ys ≡ true
unfolding member remove
member-remove_sub x y [] h = h
member-remove_sub x y (z ∷ ys) h = elim (Bool-cases (z == y)) [
  | inl here ↦ ground (arith, h, here)
  | inr other ↦
      let ih = member-remove_sub x y ys in
      elim (Bool-cases (z == x)) [
        | inl e ↦ ground (arith, e)
        | inr ne ↦ ground (arith, ne, ih (ground (arith, h, other, ne)))
      ]
]

pub member-remove_other : (x y : ℕ) (ys : List ℕ) → x ≢ y → member x (remove y ys) ≡ member x ys
unfolding member remove
member-remove_other x y [] ne = refl
member-remove_other x y (z ∷ ys) ne = ground (arith, ne, member-remove_other x y ys ne)

pub member-remove_same : (x : ℕ) (ys : List ℕ) → Distinct ys → member x (remove x ys) ≡ false
unfolding member remove
member-remove_same x [] d = refl
member-remove_same x (y ∷ ys) d = elim (Bool-cases (y == x)) [
  | inl e ↦ let s : y ≡ x = ground (arith, e) in rw e (sym (ap (λ z. member z ys) s) ∙ d.0)
  | inr ne ↦ ground (arith, ne, member-remove_same x ys d.1)
]

pub remove-Distinct : (x : ℕ) (ys : List ℕ) → Distinct ys → Distinct (remove x ys)
unfolding remove
remove-Distinct x [] d = d
remove-Distinct x (y ∷ ys) d = elim (Bool-cases (y == x)) [
  | inl e ↦ rw e d.1
  | inr ne ↦
      let kept : member y (remove x ys) ≡ false =
        member-remove_other y x ys (λ q. ground (arith, ne, q)) ∙ d.0 in
      rw ne (kept, remove-Distinct x ys d.1)
]

length-remove : (x : ℕ) (ys : List ℕ) → member x ys ≡ true → length (remove x ys) + 1 ≡ length ys
unfolding member remove
length-remove x [] h = cc h
length-remove x (y ∷ ys) h = ground (arith, length-remove x ys)

-- Distinct members of a list are no more than it has.
pub length-Distinct :
    (xs ys : List ℕ)
    → Distinct xs
    → ((x : ℕ) → member x xs ≡ true → member x ys ≡ true)
    → length xs ≤ length ys
unfolding member
length-Distinct [] ys d sub = omega arith
length-Distinct (x ∷ xs) ys d sub =
    let here = sub x (ground arith) in
    omega (
      arith,
      length-remove x ys here,
      length-Distinct xs (remove x ys) d.1 (λ z h.
          let other : z ≢ x = λ e. ground (arith, ap (λ w. member w xs) e, d.0, h) in
          member-remove_other z x ys other ∙ sub z (ground (arith, h))),
    )
