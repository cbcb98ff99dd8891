-- ===== src/Signals/Events.antt =====
-- SIGKILL and SIGSTOP under any sequence of the calls of kernel/syscalls/kill.c.
use valerioedx.Base.{ℕ, Bool, List, [], ◌∷◌}
use valerioedx.Signals.{
  Action, UserCopy, Receiver, signal_send, sys_sigaction, sys_sigprocmask, restore_mask,
  signal_check_pending, signal_copy,
}
use valerioedx.Signals.Safe.{
  IsSafe, send-IsSafe, sigprocmask-IsSafe, sigaction-IsSafe, restore-IsSafe,
}
use valerioedx.Signals.Delivery.{check_pending-Explained}

-- What happens to a process: a signal is sent, it makes a call with any arguments, it returns from a
-- handler with any frame on its stack, its signals are delivered, it forks.
pub data Event : Type 0 where
  sent : ℕ → Event
  acts : Bool → ℕ → UserCopy Action → Event
  masks : Bool → ℕ → UserCopy (ℕ → Bool) → Event
  returned : (ℕ → Bool) → Event
  delivered : Bool → Event
  forked : Event

pub happen : Event → Receiver → Receiver
happen (sent sig) r = (signal_send sig r).1
happen (acts old_fails sig act) r = record r {
  signals = (sys_sigaction old_fails sig act r.signals).1;
}
happen (masks old_fails how set) r = record r {
  signals = (sys_sigprocmask old_fails how set r.signals).1;
}
happen (returned old) r = record r { signals = restore_mask old r.signals }
happen (delivered fits) r = record r { signals = (signal_check_pending fits r.signals).1 }
happen forked r = record r { signals = signal_copy r.signals }

pub events : List Event → Receiver → Receiver
events [] r = r
events (e ∷ es) r = events es (happen e r)

happen-IsSafe : (e : Event) (r : Receiver) → IsSafe r.signals → IsSafe (happen e r).signals
unfolding happen signal_copy
happen-IsSafe (sent sig) r h = send-IsSafe sig r h
happen-IsSafe (acts old_fails sig act) r h = sigaction-IsSafe old_fails sig act r.signals h
happen-IsSafe (masks old_fails how set) r h = sigprocmask-IsSafe old_fails how set r.signals h
happen-IsSafe (returned old) r h = restore-IsSafe old r.signals h
happen-IsSafe (delivered fits) r h = (check_pending-Explained fits r.signals h).1
happen-IsSafe forked r h = record {
  default_kill = h.default_kill;
  default_stop = h.default_stop;
  kill_open = h.kill_open;
  stop_open = h.stop_open;
  masks_kill = h.masks_kill;
  masks_stop = h.masks_stop;
}

-- Where SIGKILL and SIGSTOP have their default action and are in no mask, as for a new process, that
-- holds after any sequence of signals sent, calls of sigaction and sigprocmask, returns from handlers
-- with any frame, deliveries and forks: no process can block, catch or ignore them.
pub events-IsSafe :
    (es : List Event) (r : Receiver) → IsSafe r.signals → IsSafe (events es r).signals
unfolding events
events-IsSafe [] r h = h
events-IsSafe (e ∷ es) r h = events-IsSafe es (happen e r) (happen-IsSafe e r h)
