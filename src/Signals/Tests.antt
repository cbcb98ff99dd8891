-- ===== src/Signals/Tests.antt =====
-- The theorems on signals at a process that tries to block SIGKILL.
use valerioedx.Base.{◌≡◌, refl, true, false, List, [], ◌∷◌, update}
use valerioedx.Signals.{
  Signals, given, Receiver, deliverable, signal_create, signal_dequeue, signal_check_pending,
  first_of, check_rounds, dispose, signal_get_default_action, exits,
}
use valerioedx.Signals.Safe.{IsSafe, create-IsSafe}
use valerioedx.Signals.Delivery.{Explained, check_pending-Explained}
use valerioedx.Signals.Events.{Event, sent, acts, masks, returned, events, events-IsSafe}

-- SIGTERM and SIGKILL are pending, and SIGTERM is blocked.
abbrev asked_to_end : Signals
asked_to_end = record signal_create {
  pending = update (update (λ i. false) 15 true) 9 true;
  blocked = update (λ i. false) 15 true;
}

to_end-IsSafe : IsSafe asked_to_end
unfolding signal_create
to_end-IsSafe = record {
  default_kill = refl;
  default_stop = refl;
  kill_open = refl;
  stop_open = refl;
  masks_kill = λ i. refl;
  masks_stop = λ i. refl;
}

check_example : let (v, g') = signal_check_pending true asked_to_end in Explained v g' × IsSafe g'
check_example = check_pending-Explained true asked_to_end to_end-IsSafe

killed : (signal_check_pending true asked_to_end).0 ≡ exits 137
unfolding signal_check_pending check_rounds signal_dequeue first_of deliverable dispose
    signal_get_default_action signal_create
killed = refl

abbrev new_process : Receiver
new_process = record { signals = signal_create; state = 0; threads = 1 ∷ [] }

abbrev attempts : List Event
attempts =
    acts false 9 (given (record { sa_handler = 1; sa_mask = λ i. true; sa_flags = 0 }))
    ∷ masks false 2 (given (λ i. true))
    ∷ sent 9
    ∷ returned (λ i. true)
    ∷ []

events_example : IsSafe (events attempts new_process).signals
events_example = events-IsSafe attempts new_process create-IsSafe
