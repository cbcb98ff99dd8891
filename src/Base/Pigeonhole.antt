-- ===== src/Base/Pigeonhole.antt =====
-- An injective map between initial segments of the numbers.
use Prim.Native.Nat.{ℕ, zero, suc, ◌≤◌, ◌<◌}
use mathlib.Core.Path.{◌≡◌}
use mathlib.Core.Logic.{◌≢◌, ◌⊎◌, inl, inr}
use native.Mathlib.Omega.{arith}
use native.Mathlib.Decide.{ℕ_discrete}
use valerioedx.Base.Tests.{update}

-- Whether one of the first `n` values is `m`.
find_value : (n m : ℕ) (f : ℕ → ℕ) → ((k : ℕ) × (k < n) × (f k ≡ m)) ⊎ ((k : ℕ) → k < n → f k ≢ m)
find_value zero m f = inr (λ k h. elim h [ ])
find_value (suc n) m f = elim (ℕ_discrete (f n) m) [
  | yes e ↦ inl (n, omega arith, e)
  | no ne ↦ elim (find_value n m f) [
    | inl (k, h, e) ↦ inl (k, omega arith, e)
    | inr none_below ↦
        inr (λ k h. elim (ℕ_discrete k n) [ yes e ↦ rw e ne | no d ↦ none_below k (omega arith) ])
  ]
]

-- `n` distinct numbers below `m` are at most `m`.
pub pigeonhole :
    (n m : ℕ) (f : ℕ → ℕ)
    → ((i : ℕ) → i < n → f i < m)
    → ((i j : ℕ) → i < n → j < n → f i ≡ f j → i ≡ j)
    → n ≤ m
pigeonhole zero m f bound inj = omega arith
pigeonhole (suc n) zero f bound inj = absurd (omega (arith, bound 0 (omega arith)))
pigeonhole (suc n) (suc m) f bound inj = elim (find_value (suc n) m f) [
  | inl (k, h, e) ↦ omega (
    arith,
    pigeonhole n m (update f k (f n))
        (λ i hi. ground (
          arith,
          bound i (omega arith),
          bound n (omega arith),
          inj i k (omega arith) h,
          inj n k (omega arith) h,
        ))
        (λ i j hi hj eq. ground (
          arith,
          inj i j (omega arith) (omega arith),
          inj i n (omega arith) (omega arith),
          inj j n (omega arith) (omega arith),
        )),
  )
  | inr avoids ↦ omega (
    arith,
    pigeonhole n m f (λ i hi. omega (arith, bound i (omega arith), avoids i (omega arith)))
        (λ i j hi hj. inj i j (omega arith) (omega arith)),
  )
]
