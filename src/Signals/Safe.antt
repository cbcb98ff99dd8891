-- ===== src/Signals/Safe.antt =====
-- What keeps SIGKILL and SIGSTOP from being blocked, caught or ignored, call by call.
use valerioedx.Base.{
  ℕ, ◌≡◌, refl, ◌≢◌, inl, inr, Bool, true, false, ◌||◌, ◌==◌, ◌/◌, ◌%◌, ◌^◌, ltb, arith, Bool-cases,
}
use valerioedx.Signals.{
  Signals, Action, UserCopy, absent, unreadable, given, Receiver, nsig, signal_create, signal_send,
  sys_sigaction, change_mask, sys_sigprocmask, restore_mask, enter_handler,
}

-- SIGKILL and SIGSTOP have their default action, and no mask holds them.
pub record IsSafe (g : Signals) : Type 0 where
  pub default_kill : g.handler 9 ≡ 0
  pub default_stop : g.handler 19 ≡ 0
  pub kill_open : g.blocked 9 ≡ false
  pub stop_open : g.blocked 19 ≡ false
  pub masks_kill : (i : ℕ) → g.mask i 9 ≡ false
  pub masks_stop : (i : ℕ) → g.mask i 19 ≡ false

pub create-IsSafe : IsSafe signal_create
unfolding signal_create
create-IsSafe = record {
  default_kill = refl;
  default_stop = refl;
  kill_open = refl;
  stop_open = refl;
  masks_kill = λ i. refl;
  masks_stop = λ i. refl;
}

pub send-IsSafe :
    (sig : ℕ) (r : Receiver) → IsSafe r.signals → IsSafe ((signal_send sig r).1.signals)
unfolding signal_send
send-IsSafe sig r h = elim (Bool-cases ((sig == 0) || ltb nsig sig)) [
  | inl bad ↦ rw bad h
  | inr good ↦ rw good (record {
    default_kill = h.default_kill;
    default_stop = h.default_stop;
    kill_open = h.kill_open;
    stop_open = h.stop_open;
    masks_kill = h.masks_kill;
    masks_stop = h.masks_stop;
  })
]

mask-IsSafe : (how : ℕ) (set : ℕ → Bool) (g : Signals) → IsSafe g → IsSafe (change_mask how set g).1
unfolding change_mask
mask-IsSafe how set g h = record {
  default_kill = ground (arith, h.default_kill);
  default_stop = ground (arith, h.default_stop);
  kill_open = ground (arith, h.kill_open);
  stop_open = ground (arith, h.stop_open);
  masks_kill = λ i. ground (arith, h.masks_kill i);
  masks_stop = λ i. ground (arith, h.masks_stop i);
}

pub sigprocmask-IsSafe :
    (old_fails : Bool) (how : ℕ) (set : UserCopy (ℕ → Bool)) (g : Signals)
    → IsSafe g
    → IsSafe (sys_sigprocmask old_fails how set g).1
unfolding sys_sigprocmask
sigprocmask-IsSafe true how set g h = h
sigprocmask-IsSafe false how absent g h = h
sigprocmask-IsSafe false how unreadable g h = h
sigprocmask-IsSafe false how (given s) g h = mask-IsSafe how s g h

pub sigaction-IsSafe :
    (old_fails : Bool) (sig : ℕ) (act : UserCopy Action) (g : Signals)
    → IsSafe g
    → IsSafe (sys_sigaction old_fails sig act g).1
unfolding sys_sigaction
sigaction-IsSafe old_fails sig absent g h =
    elim (Bool-cases ((sig == 0) || ltb nsig sig || (sig == 9) || (sig == 19) || old_fails)) [
      | inl bad ↦ rw bad h
      | inr good ↦ rw good h
    ]
sigaction-IsSafe old_fails sig unreadable g h =
    elim (Bool-cases ((sig == 0) || ltb nsig sig || (sig == 9) || (sig == 19) || old_fails)) [
      | inl bad ↦ rw bad h
      | inr good ↦ rw good h
    ]
sigaction-IsSafe old_fails sig (given a) g h =
    elim (Bool-cases ((sig == 0) || ltb nsig sig || (sig == 9) || (sig == 19) || old_fails)) [
      | inl bad ↦ rw bad h
      | inr good ↦ rw good (record {
        default_kill = ground (arith, h.default_kill, good);
        default_stop = ground (arith, h.default_stop, good);
        kill_open = h.kill_open;
        stop_open = h.stop_open;
        masks_kill = λ i. ground (arith, h.masks_kill i);
        masks_stop = λ i. ground (arith, h.masks_stop i);
      })
    ]

pub restore-IsSafe : (old : ℕ → Bool) (g : Signals) → IsSafe g → IsSafe (restore_mask old g)
unfolding restore_mask
restore-IsSafe old g h = record {
  default_kill = h.default_kill;
  default_stop = h.default_stop;
  kill_open = ground arith;
  stop_open = ground arith;
  masks_kill = h.masks_kill;
  masks_stop = h.masks_stop;
}

-- A handler is entered only for a signal that has one.
pub enter-IsSafe :
    (sig : ℕ) (g : Signals) → g.handler sig ≢ 0 → IsSafe g → IsSafe (enter_handler sig g)
unfolding enter_handler
enter-IsSafe sig g ne h =
    let no_kill : sig ≢ 9 = λ e. ne (rw e h.default_kill) in
    let no_stop : sig ≢ 19 = λ e. ne (rw e h.default_stop) in
    elim (Bool-cases ((g.flags sig / 2 ^ 30) % 2 == 0)) [
      | inl defers ↦ rw defers (record {
        default_kill = ground (arith, h.default_kill);
        default_stop = ground (arith, h.default_stop);
        kill_open = ground (arith, no_kill, h.kill_open, h.masks_kill sig);
        stop_open = ground (arith, no_stop, h.stop_open, h.masks_stop sig);
        masks_kill = h.masks_kill;
        masks_stop = h.masks_stop;
      })
      | inr plain ↦ rw plain (record {
        default_kill = ground (arith, h.default_kill);
        default_stop = ground (arith, h.default_stop);
        kill_open = ground (arith, h.kill_open, h.masks_kill sig);
        stop_open = ground (arith, h.stop_open, h.masks_stop sig);
        masks_kill = h.masks_kill;
        masks_stop = h.masks_stop;
      })
    ]
