-- ===== src/Signals/Delivery.antt =====
-- The loop of `signal_check_pending`.
use valerioedx.Base.{
  ℕ, zero, suc, ◌+◌, ◌≤◌, ◌<◌, ◌≡◌, ◌≢◌, inl, inr, Bool, false, ◌&&◌, ◌||◌, not, ◌==◌, update, ltb,
  arith, Bool-cases,
}
use valerioedx.Signals.{
  Signals, nsig, signal_dequeue, signal_get_default_action, Verdict, quiet, exits, stops, handles,
  out_of_rounds, Fate, go_on, ends, settled, dispose, check_rounds, signal_check_pending,
}
use valerioedx.Signals.Dequeue.{Found, may_arrive, signal_dequeue_lem}
use valerioedx.Signals.Safe.{IsSafe, enter-IsSafe}

-- What a verdict says of the signals behind it: nothing is left to deliver, the process ends with
-- 128 and the signal's number, the signal stops a process, or it is neither SIGKILL nor SIGSTOP.
abbrev pub Explained : Verdict → Signals → Type 0
Explained quiet g = (k : ℕ) → 1 ≤ k → k ≤ nsig → may_arrive g k ≡ false
Explained (exits code) g = (129 ≤ code) × (code ≤ 128 + nsig)
Explained (stops sig) g = signal_get_default_action sig ≡ 3
Explained (handles sig) g = (sig ≢ 9) × (sig ≢ 19)
Explained out_of_rounds g = ⊥

abbrev FateExplained : Fate → Type 0
FateExplained go_on = Unit {0}
FateExplained (ends v g) = Explained v g × IsSafe g

dispose-FateExplained :
    (fits : Bool) (sig : ℕ) (g : Signals)
    → IsSafe g
    → 1 ≤ sig
    → sig ≤ nsig
    → FateExplained (dispose fits sig g)
unfolding dispose
dispose-FateExplained fits sig g h l u =
    elim (Bool-cases ((g.handler sig == 1) && not (sig == 9) && not (sig == 19))) [
      | inl ignored ↦ rw ignored tt
      | inr kept ↦ rw kept (elim (Bool-cases (g.handler sig == 0)) [
        | inl by_default ↦
            rw by_default
              (elim (Bool-cases
                ((signal_get_default_action sig == 0) || (signal_get_default_action sig == 2))) [
                  | inl dies ↦ rw dies ((omega arith, omega arith), h)
                  | inr lives ↦ rw lives (elim (Bool-cases (signal_get_default_action sig == 3)) [
                    | inl stopped ↦ rw stopped (ground (arith, stopped), h)
                    | inr other ↦ rw other tt
                  ])
                ])
        | inr caught ↦
            let ne : g.handler sig ≢ 0 = ground (arith, caught) in
            rw caught (elim (Bool-cases fits) [
              | inl fit ↦ rw fit (
                (λ e. ne (rw e h.default_kill), λ e. ne (rw e h.default_stop)),
                enter-IsSafe sig g ne h,
              )
              | inr unfit ↦ rw unfit ((omega arith, omega arith), h)
            ])
      ])
    ]

-- The signals up to `l` cannot be delivered.
abbrev Nothing : Signals → ℕ → Type 0
Nothing g l = (k : ℕ) → 1 ≤ k → k ≤ l → may_arrive g k ≡ false

taken-Nothing :
    (g : Signals) (n : ℕ)
    → Found (may_arrive g) 1 nsig n
    → Nothing (record g { pending = update g.pending n false }) n
taken-Nothing g n f k h l = elim (Bool-cases (k == n)) [
  | inl e ↦ ground (arith, e)
  | inr ne ↦ ground (arith, ne, f.lowest k h (ground (arith, ne)))
]

taken-IsSafe :
    (g : Signals) (n : ℕ) → IsSafe g → IsSafe (record g { pending = update g.pending n false })
taken-IsSafe g n h = record {
  default_kill = h.default_kill;
  default_stop = h.default_stop;
  kill_open = h.kill_open;
  stop_open = h.stop_open;
  masks_kill = h.masks_kill;
  masks_stop = h.masks_stop;
}

above : (g : Signals) (l n : ℕ) → Nothing g l → Found (may_arrive g) 1 nsig n → l < n
above g l n none_up f = elim (Bool-cases (ltb l n)) [
  | inl less ↦ ground (arith, less)
  | inr up ↦
      let closed : may_arrive g n ≡ false = none_up n f.from_first (ground (arith, up)) in
      cc (closed, f.there)
]

settle :
    (fate : Fate) (rest : Verdict × Signals)
    → FateExplained fate
    → Explained rest.0 rest.1
    → IsSafe rest.1
    → let out = settled fate rest in Explained out.0 out.1 × IsSafe out.1
settle go_on rest h e s = (e, s)
settle (ends v g) rest h e s = h

-- The next signal taken lies above those before, so 33 rounds from the first on are enough.
rounds-Explained :
    (rounds l : ℕ) (fits : Bool) (g : Signals)
    → IsSafe g
    → Nothing g l
    → l ≤ nsig
    → 33 ≤ l + rounds
    → let (v, g') = check_rounds rounds fits g in Explained v g' × IsSafe g'
unfolding check_rounds
rounds-Explained zero l fits g h n u e = absurd (omega arith)
rounds-Explained (suc rounds) l fits g h n u e = elim (signal_dequeue_lem g) [
  | inl (z, same, none_there) ↦ rw z (none_there, h)
  | inr (f, taken) ↦
      let i = (signal_dequeue g).0 in
      let g' = (signal_dequeue g).1 in
      let safe : IsSafe g' = rw taken (taken-IsSafe g i h) in
      let none_up : Nothing g' i = rw taken (taken-Nothing g i f) in
      let less : l < i = above g l i n f in
      let found : (i == 0) ≡ false = ground (arith, f.from_first) in
      let (later, safe') =
        rounds-Explained rounds i fits g' safe none_up (omega (arith, f.to_last))
          (omega (arith, less, e)) in
      rw found (
        settle (dispose fits i g') (check_rounds rounds fits g')
          (dispose-FateExplained fits i g' safe f.from_first (omega (arith, f.to_last))) later
          safe')
]

-- `signal_check_pending` comes to an end within 33 rounds. Where SIGKILL and SIGSTOP have their
-- default action and are in no mask, it returns with no signal left to deliver, or ends the process
-- with 128 and a number from 1 to 32, or stops it for a signal whose default action is that, or
-- enters a handler for a signal other than SIGKILL and SIGSTOP; and they keep their default action
-- and stay out of every mask.
pub check_pending-Explained :
    (fits : Bool) (g : Signals)
    → IsSafe g
    → let (v, g') = signal_check_pending fits g in Explained v g' × IsSafe g'
unfolding signal_check_pending
check_pending-Explained fits g h =
    rounds-Explained 33 0 fits g h (λ k l u. absurd (omega arith)) (omega arith) (omega arith)
