-- ===== src/Signals.antt =====
-- Signals: kernel/syscalls/kill.c. A set of signals is a function of the signal's number, 1 to 32,
-- and so are the fields of `actions`, which the source indexes by the number less 1. Addresses of
-- handlers are numbers, 0 is SIG_DFL and 1 SIG_IGN. What the copies from and to user memory answer,
-- and whether the signal frame could be set up, are arguments. The caller, and the receiver of a
-- signal, are processes that have their `signals`.
pub mod Dequeue
mod Delivery
mod Safe
mod Events
mod Tests
use valerioedx.Base.{
  ℕ, zero, suc, ◌+◌, ◌-◌, ◌/◌, ◌%◌, ◌^◌, Bool, true, false, ◌&&◌, ◌||◌, not, List, [], ◌∷◌, map,
  ltb, leb, ◌==◌, if◌then◌else◌, update, ℤ, pos, negsuc,
}

abbrev pub nsig : ℕ
nsig = 32

-- SIG_KERNEL_ONLY_MASK and SIG_STOP_MASK
abbrev pub kernel_only : ℕ → Bool
kernel_only i = (i == 9) || (i == 19)

abbrev pub stop_mask : ℕ → Bool
stop_mask i = (i == 19) || (i == 20) || (i == 21) || (i == 22)

-- `signal_struct_t`
pub record Signals : Type 0 where
  pub pending : ℕ → Bool
  pub blocked : ℕ → Bool
  pub handler : ℕ → ℕ
  pub mask : ℕ → ℕ → Bool
  pub flags : ℕ → ℕ

-- `signal_create`, where there is memory.
pub signal_create : Signals
signal_create = record {
  pending = λ i. false;
  blocked = λ i. false;
  handler = λ i. 0;
  mask = λ i j. false;
  flags = λ i. 0;
}

pub signal_copy : Signals → Signals
signal_copy old = record old { pending = λ i. false }

-- A process as `signal_send` sees it: its state (0 is PROCESS_ACTIVE) and those of its threads.
pub record Receiver : Type 0 where
  pub signals : Signals
  pub state : ℕ
  pub threads : List ℕ

-- `task_wake_up_process`: TASK_STOPPED (4) becomes TASK_READY (1).
pub task_wake_up_process : List ℕ → List ℕ
task_wake_up_process ts = map (λ t. if t == 4 then 1 else t) ts

abbrev pub add_signal : (ℕ → Bool) → ℕ → ℕ → Bool
add_signal set sig = update set sig true

abbrev pub del_signal : (ℕ → Bool) → ℕ → ℕ → Bool
del_signal set sig = update set sig false

-- `signal_send` to a process that has its signals.
pub signal_send : ℕ → Receiver → ℤ × Receiver
signal_send sig r =
    let g = r.signals in
    let continued = if sig == 18 then (λ i. g.pending i && not (stop_mask i)) else g.pending in
    let cleared = if stop_mask sig then del_signal continued 18 else continued in
    if (sig == 0) || ltb nsig sig then (negsuc 0, r) else (
      pos 0,
      record r {
        signals = record g { pending = add_signal cleared sig };
        state = if sig == 18 then 0 else r.state;
        threads = if sig == 18 then task_wake_up_process r.threads else r.threads;
      },
    )

-- What may be delivered: SIGKILL and SIGSTOP also where they are blocked.
pub deliverable : Signals → ℕ → Bool
deliverable g i = (g.pending i && not (g.blocked i)) || (g.pending i && kernel_only i)

-- The loop of `signal_dequeue` from signal `i` on, with the rounds left.
pub first_of : (ℕ → Bool) → (rounds i : ℕ) → ℕ
first_of set zero i = 0
first_of set (suc rounds) i = if set i then i else first_of set rounds (i + 1)

pub signal_dequeue : Signals → ℕ × Signals
signal_dequeue g =
    let i = first_of (deliverable g) nsig 1 in
    if i == 0 then (0, g) else (i, record g { pending = del_signal g.pending i })

-- `signal_get_default_action`: 0 ends the process, 1 ignores, 3 stops, 4 continues. 2 is an end with a
-- core dump.
pub signal_get_default_action : ℕ → ℕ
signal_get_default_action sig =
    if (sig == 0) || ltb nsig sig || (sig == 17) || (sig == 23) || (sig == 28)
    then 1
    else if (sig == 18)
    then 4
    else if stop_mask sig
    then 3
    else if ((leb 3 sig) && (leb sig 8)) || (sig == 11) || (sig == 24) || (sig == 25) || (sig == 31)
    then 2
    else 0

-- The last part of `setup_signal_frame`, which changes the masks.
pub enter_handler : ℕ → Signals → Signals
enter_handler sig g =
    let flags = g.flags sig in
    let masked = λ (i : ℕ). g.blocked i || g.mask sig i in
    record g {
      blocked = if (flags / 2 ^ 30) % 2 == 0 then add_signal masked sig else masked;
      handler = if (flags / 2 ^ 31) % 2 == 1 then update g.handler sig 0 else g.handler;
    }

-- How `signal_check_pending` ends, or where it sleeps: after a stop the loop starts anew when the task
-- runs again.
pub data Verdict : Type 0 where
  quiet : Verdict
  exits : ℕ → Verdict
  stops : ℕ → Verdict
  handles : ℕ → Verdict
  out_of_rounds : Verdict

-- What becomes of a signal that was taken: a verdict, or the loop goes on.
pub data Fate : Type 0 where
  go_on : Fate
  ends : Verdict → Signals → Fate

pub dispose : (frame_fits : Bool) → ℕ → Signals → Fate
dispose frame_fits sig g =
    let h = g.handler sig in
    let action = signal_get_default_action sig in
    if (h == 1) && not (sig == 9) && not (sig == 19)
    then go_on
    else if h == 0
    then (if (action == 0) || (action == 2)
        then ends (exits (128 + sig)) g
        else if action == 3
        then ends (stops sig) g
        else go_on)
    else if frame_fits
    then ends (handles sig) (enter_handler sig g)
    else ends (exits (128 + sig)) g

abbrev pub settled : Fate → Verdict × Signals → Verdict × Signals
settled go_on rest = rest
settled (ends v g) rest = (v, g)

-- The loop, with the rounds left.
pub check_rounds : (rounds : ℕ) → (frame_fits : Bool) → Signals → Verdict × Signals
check_rounds zero fits g = (out_of_rounds, g)
check_rounds (suc rounds) fits g =
    let taken = signal_dequeue g in
    let rest = check_rounds rounds fits taken.1 in
    if taken.0 == 0 then (quiet, g) else settled (dispose fits taken.0 taken.1) rest

pub signal_check_pending : (frame_fits : Bool) → Signals → Verdict × Signals
signal_check_pending fits g = check_rounds 33 fits g

-- A pointer to a structure of the caller: NULL, not to be read, or what was read.
pub data UserCopy {ℓ} (A : Type ℓ) : Type ℓ where
  absent unreadable : UserCopy A
  given : A → UserCopy A

pub record Action : Type 0 where
  pub sa_handler : ℕ
  pub sa_mask : ℕ → Bool
  pub sa_flags : ℕ

-- `old_fails` says that the old action is asked for and cannot be written.
pub sys_sigaction : (old_fails : Bool) → ℕ → UserCopy Action → Signals → ℤ × Signals
sys_sigaction old_fails sig act g =
    if (sig == 0) || ltb nsig sig || (sig == 9) || (sig == 19) || old_fails
    then (negsuc 0, g)
    else elim act [
      | absent ↦ (pos 0, g)
      | unreadable ↦ (negsuc 0, g)
      | given a ↦ (
        pos 0,
        record g {
          handler = update g.handler sig a.sa_handler;
          mask = update g.mask sig (λ i. a.sa_mask i && not (kernel_only i));
          flags = update g.flags sig a.sa_flags;
        },
      )
    ]

-- `how`: SIG_BLOCK, SIG_UNBLOCK, SIG_SETMASK.
pub change_mask : ℕ → (ℕ → Bool) → Signals → ℤ × Signals
change_mask how set g =
    let kset = λ (i : ℕ). set i && not (kernel_only i) in
    if how == 0
    then (pos 0, record g { blocked = λ i. g.blocked i || kset i })
    else if how == 1
    then (pos 0, record g { blocked = λ i. g.blocked i && not (kset i) })
    else if how == 2
    then (pos 0, record g { blocked = kset })
    else (negsuc 0, g)

pub sys_sigprocmask : (old_fails : Bool) → ℕ → UserCopy (ℕ → Bool) → Signals → ℤ × Signals
sys_sigprocmask old_fails how set g = if old_fails then (negsuc 0, g) else elim set [
  | absent ↦ (pos 0, g)
  | unreadable ↦ (negsuc 0, g)
  | given s ↦ change_mask how s g
]

-- The last part of `sys_sigreturn`: the mask of the frame on the user's stack.
pub restore_mask : (ℕ → Bool) → Signals → Signals
restore_mask old_mask g = record g { blocked = λ i. old_mask i && not (kernel_only i) }
