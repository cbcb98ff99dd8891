-- ===== src/Heap/Runs.antt =====
-- The first run of free pages is found, or there is none.
use valerioedx.Base.{
  ℕ, zero, suc, ◌+◌, ◌≤◌, ◌<◌, ◌≡◌, refl, ◌≢◌, subst, inl, inr, true, false, Option, none, some,
  ltb, ◌==◌, if◌then◌else◌, arith, ap, ◌∙◌, Bool-cases,
}
use valerioedx.Heap.{PageInfo, is_free, find_run}

-- The pages from `k` on, `num` of them, are free.
abbrev pub AllFree : (ℕ → PageInfo) → (k num : ℕ) → Type 0
AllFree md k num = (a : ℕ) → k ≤ a → a < k + num → is_free (md a) ≡ true

abbrev pub NoneBelow : (ℕ → PageInfo) → (b num : ℕ) → Type 0
NoneBelow md b num = (k : ℕ) → k < b → AllFree md k num → ⊥

-- What a search finds.
abbrev pub FirstRun : (ℕ → PageInfo) → (total num : ℕ) → Option ℕ → Type 0
FirstRun md total num none = (k : ℕ) → k + num ≤ total → AllFree md k num → ⊥
FirstRun md total num (some k) = (k + num ≤ total) × AllFree md k num × NoneBelow md k num

no_run_through :
    (md : ℕ → PageInfo) (i r b num : ℕ)
    → b + r ≡ i
    → r < num
    → is_free (md i) ≡ false
    → NoneBelow md b num
    → NoneBelow md (i + 1) num
no_run_through md i r b num hb hr taken below k h all = elim (Bool-cases (ltb k b)) [
  | inl early ↦ below k (ground (arith, early)) all
  | inr late ↦ cc (taken, all i (omega arith) (ground (arith, late)))
]

one_more :
    (md : ℕ → PageInfo) (i r b : ℕ)
    → b + r ≡ i
    → is_free (md i) ≡ true
    → AllFree md b r
    → AllFree md b (r + 1)
one_more md i r b hb here free a h k = elim (Bool-cases (a == i)) [
  | inl same ↦ ap (λ x. is_free (md x)) (ground (arith, same)) ∙ here
  | inr other ↦ free a h (ground (arith, other))
]

pub find_run-FirstRun :
    (rounds i r start b total num : ℕ) (md : ℕ → PageInfo)
    → i + rounds ≡ total
    → b + r ≡ i
    → r < num
    → (r ≢ 0 → start ≡ b)
    → AllFree md b r
    → NoneBelow md b num
    → FirstRun md total num (find_run rounds i r start num md)
unfolding find_run
find_run-FirstRun zero i r start b total num md hi hb hr hs free below =
    λ k h all. below k (omega arith) all
find_run-FirstRun (suc rounds) i r start b total num md hi hb hr hs free below =
    elim (Bool-cases (is_free (md i))) [
      | inl here ↦
          let free' = one_more md i r b hb here free in
          let first : (if r == 0 then i else start) ≡ b = ground (arith, hs) in
          elim (Bool-cases (r + 1 == num)) [
            | inl full ↦
                let n : r + 1 ≡ num = ground (arith, full) in
                rw (here, full, first) (omega (arith, n), subst (AllFree md b) n free', below)
            | inr short ↦
                rw (here, short, first)
                  (find_run-FirstRun rounds (i + 1) (r + 1) b b total num md (omega arith)
                    (omega arith) (ground (arith, short)) (λ ne. refl) free' below)
          ]
      | inr taken ↦ rw taken (
          find_run-FirstRun rounds (i + 1) 0 start (i + 1) total num md (omega arith) (omega arith)
            (omega arith) (λ ne. absurd (ne refl)) (λ a h k. absurd (omega arith))
            (no_run_through md i r b num hb hr taken below))
    ]
