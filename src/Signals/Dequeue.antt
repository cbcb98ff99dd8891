-- ===== src/Signals/Dequeue.antt =====
-- Which signal `signal_dequeue` takes.
use valerioedx.Base.{
  ℕ, zero, suc, ◌+◌, ◌≤◌, ◌<◌, ◌≡◌, refl, ◌≢◌, ◌⊎◌, inl, inr, Bool, true, false, ◌==◌, update,
  arith, Bool-cases, fun_ext, ◌&&◌, ◌||◌, not,
}
use valerioedx.Signals.{Signals, nsig, deliverable, first_of, signal_dequeue}

-- What a search finds in `rounds` places from `i` on.
pub record Found (set : ℕ → Bool) (i rounds n : ℕ) : Type 0 where
  pub from_first : i ≤ n
  pub to_last : n < i + rounds
  pub there : set n ≡ true
  pub lowest : (k : ℕ) → i ≤ k → k < n → set k ≡ false

from_next :
    (set : ℕ → Bool) (i k : ℕ) → set i ≡ false → i ≤ k → (i + 1 ≤ k → set k ≡ false) → set k ≡ false
from_next set i k h l above = elim (Bool-cases (i == k)) [
  | inl e ↦ let same : i ≡ k = ground (arith, e) in rw (← same) h
  | inr ne ↦ above (ground (arith, ne))
]

first_of_lem :
    (set : ℕ → Bool) (rounds i : ℕ)
    → i ≢ 0
    → ((first_of set rounds i ≡ 0) × ((k : ℕ) → i ≤ k → k < i + rounds → set k ≡ false))
      ⊎ Found set i rounds (first_of set rounds i)
unfolding first_of
first_of_lem set zero i ne = inl (refl, λ k h l. absurd (omega arith))
first_of_lem set (suc rounds) i ne = elim (Bool-cases (set i)) [
  | inl here ↦ rw here (
      inr (record {
        from_first = omega arith;
        to_last = omega arith;
        there = here;
        lowest = λ k h l. absurd (omega arith);
      }))
  | inr other ↦ rw other (elim (first_of_lem set rounds (i + 1) (omega arith)) [
    | inl (e, none_there) ↦
        inl (e, λ k h l. from_next set i k other h (λ m. none_there k m (omega arith)))
    | inr f ↦ inr (record {
      from_first = omega (arith, f.from_first);
      to_last = omega (arith, f.to_last);
      there = f.there;
      lowest = λ k h l. from_next set i k other h (λ m. f.lowest k m l);
    })
  ])
]

-- What a process must get: a pending signal that is not blocked, or is SIGKILL or SIGSTOP.
abbrev pub may_arrive : Signals → ℕ → Bool
may_arrive g i = g.pending i && (not (g.blocked i) || (i == 9) || (i == 19))

deliverable_lem : (g : Signals) → deliverable g ≡ may_arrive g
unfolding deliverable
deliverable_lem g = fun_ext (λ i. ground arith)

-- `signal_dequeue` returns 0 and changes nothing, and no signal from 1 to 32 is pending and either
-- not blocked or one of SIGKILL and SIGSTOP; or it returns the lowest that is, and takes just that one
-- out of the pending ones.
pub signal_dequeue_lem :
    (g : Signals)
    → let (n, g') = signal_dequeue g in
      ((n ≡ 0) × (g' ≡ g) × ((k : ℕ) → 1 ≤ k → k ≤ nsig → may_arrive g k ≡ false))
      ⊎ (Found (may_arrive g) 1 nsig n × (g' ≡ record g { pending = update g.pending n false }))
unfolding signal_dequeue
signal_dequeue_lem g =
    rw (deliverable_lem g) (elim (first_of_lem (may_arrive g) nsig 1 (omega arith)) [
      | inl (e, none_there) ↦ rw e (inl (refl, refl, λ k h l. none_there k h (omega arith)))
      | inr f ↦
          let taken : (first_of (may_arrive g) nsig 1 == 0) ≡ false =
            ground (arith, f.from_first) in
          rw taken (inr (f, refl))
    ])
