-- ===== src/Sync/Semaphores.antt =====
-- Tasks that wait on and signal one semaphore, in any order.
use valerioedx.Base.{
  member, remove, ℕ, ◌+◌, ◌≤◌, ◌≡◌, refl, ◌⊎◌, inl, inr, true, List, [], ◌∷◌, if◌then◌else◌, arith,
  ap, ◌∙◌,
}
use valerioedx.Sync.{
  Semaphore, sem_init, sem_wait, wake_one, sem_signal, size, with_woken, size-remove,
}

-- `trying` are the tasks about to pass; how many waits have returned, and how many signals were given.
pub record Waiters : Type 0 where
  pub sem : Semaphore
  pub trying : List ℕ
  pub returned : ℕ
  pub signals : ℕ

unfoldable pub waiters : (permits : ℕ) → Waiters
waiters permits = record { sem = sem_init permits; trying = []; returned = 0; signals = 0 }

unfoldable pub call : (task : ℕ) → Waiters → Waiters
call task w = record w { trying = task ∷ w.trying }

unfoldable pub pass : (task : ℕ) → Waiters → Waiters
pass task w =
    let (done, sem) = sem_wait task w.sem in
    record w {
      sem = sem;
      trying = remove task w.trying;
      returned = w.returned + (if done then 1 else 0);
    }

pub signal : Waiters → Waiters
signal w =
    let (woken, sem) = sem_signal w.sem in
    record w { sem = sem; trying = with_woken woken w.trying; signals = w.signals + 1 }

-- What may come of a semaphore with `permits`.
pub data Reached (permits : ℕ) : Waiters → Type 0 where
  start : Reached permits (waiters permits)
  called : {w : Waiters} (task : ℕ) → Reached permits w → Reached permits (call task w)
  passed :
      {w : Waiters} (task : ℕ)
      → member task w.trying ≡ true
      → Reached permits w
      → Reached permits (pass task w)
  signalled : {w : Waiters} → Reached permits w → Reached permits (signal w)

-- Permits are neither made nor lost, and where tasks sleep, each permit left has a task about to take it.
abbrev IsServed : (permits : ℕ) → Waiters → Type 0
IsServed permits w =
    (w.sem.count + w.returned ≡ permits + w.signals)
    × ((w.sem.wait_list ≡ []) ⊎ (w.sem.count ≤ size w.trying))

pass-IsServed :
    (permits task : ℕ) (w : Waiters)
    → member task w.trying ≡ true
    → IsServed permits w
    → IsServed permits (pass task w)
unfolding pass sem_wait
pass-IsServed permits task w here s =
    let left = size-remove task w.trying here in ground (arith, left)

woken_served :
    (count : ℕ) (sleepers trying : List ℕ)
    → (sleepers ≡ []) ⊎ (count ≤ size trying)
    → ((wake_one sleepers).1 ≡ []) ⊎ (count + 1 ≤ size (with_woken (wake_one sleepers).0 trying))
unfolding wake_one size
woken_served count [] trying s = inl refl
woken_served count (t ∷ ts) trying (inl none_asleep) = cc none_asleep
woken_served count (t ∷ ts) trying (inr enough) = inr (omega (arith, enough))

signal-IsServed : (permits : ℕ) (w : Waiters) → IsServed permits w → IsServed permits (signal w)
unfolding signal sem_signal
signal-IsServed permits w s =
    (omega (arith, s.0), woken_served w.sem.count w.sem.wait_list w.trying s.1)

Reached-IsServed : {permits : ℕ} {w : Waiters} → Reached permits w → IsServed permits w
unfolding waiters sem_init call size
Reached-IsServed start = (omega arith, inl refl)
Reached-IsServed (called task r) = ground (arith, Reached-IsServed r)
Reached-IsServed (passed task here r) = pass-IsServed _ task _ here (Reached-IsServed r)
Reached-IsServed (signalled r) = signal-IsServed _ _ (Reached-IsServed r)

-- However tasks wait on and signal a semaphore that began with some permits: the waits that returned and
-- the count are together the permits and the signals, so that no more waits return than there are
-- permits and signals.
pub returns_balanced :
    (permits : ℕ) (w : Waiters)
    → Reached permits w
    → (w.sem.count + w.returned ≡ permits + w.signals) × (w.returned ≤ permits + w.signals)
returns_balanced permits w r = let s = Reached-IsServed r in (s.0, omega (arith, s.0))

-- Each of the tasks makes its pass.
pub settle : List ℕ → Waiters → Waiters
settle [] w = w
settle (task ∷ tasks) w = settle tasks (pass task w)

member_first : (task : ℕ) (tasks : List ℕ) → member task (task ∷ tasks) ≡ true
unfolding member
member_first task tasks = ground arith

pass_first :
    (task : ℕ) (tasks : List ℕ) (w : Waiters)
    → w.trying ≡ task ∷ tasks
    → (pass task w).trying ≡ tasks
unfolding pass remove
pass_first task tasks w e = ap (remove task) e ∙ ground arith

settle-Reached :
    (permits : ℕ) (tasks : List ℕ) (w : Waiters)
    → w.trying ≡ tasks
    → Reached permits w
    → Reached permits (settle tasks w) × ((settle tasks w).trying ≡ [])
unfolding settle
settle-Reached permits [] w e r = (r, e)
settle-Reached permits (task ∷ tasks) w e r =
    settle-Reached permits tasks (pass task w) (pass_first task tasks w e)
      (passed task (ap (member task) e ∙ member_first task tasks) r)

-- No waking is lost: when, however tasks have waited on and signalled a semaphore, each task that is
-- about to pass makes its pass, no task is about to pass any more, and tasks sleep only if no permit is
-- left.
pub settle_lem :
    (permits : ℕ) (w : Waiters)
    → Reached permits w
    → let w' = settle w.trying w in
      (w'.trying ≡ []) × ((w'.sem.wait_list ≡ []) ⊎ (w'.sem.count ≡ 0))
unfolding size
settle_lem permits w r =
    let (r', quiet) = settle-Reached permits w.trying w refl r in
    let s = Reached-IsServed r' in
    (
      quiet,
      elim s.1 [
        | inl none_asleep ↦ inl none_asleep
        | inr few ↦ inr (omega (arith, few, ap size quiet))
      ],
    )
