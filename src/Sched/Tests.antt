-- ===== src/Sched/Tests.antt =====
-- The theorems on the scheduler at two tasks of one priority.
use valerioedx.Base.{◌≡◌, refl, List, [], ◌∷◌, ◌++◌, ◌==◌, if◌then◌else◌, arith}
use valerioedx.Sched.{Sched, running, ready, has_task, schedule}
use valerioedx.Sched.Active.{IsValid}
use valerioedx.Sched.Events.{
  Event, starts, preempts, waits, wakes, naps, ticks, events, events-IsValid,
}
use valerioedx.Sched.Choice.{round_robin}

-- Task 7 runs at priority 2, and task 8 waits behind it.
abbrev two_tasks : Sched
two_tasks = record {
  tasks = λ t. record { priority = 2; state = if t == 7 then running else ready; wake_tick = 0 };
  runqueues = λ p. if p == 2 then 7 ∷ 8 ∷ [] else [];
  active = λ p. p == 2;
  waits = λ q. [];
  sleep_queue = [];
  current = 7;
}

two_tasks-IsValid : IsValid two_tasks
unfolding has_task
two_tasks-IsValid = record {
  small = λ t. omega arith;
  agrees = λ p. ground arith;
  bounded = λ p h. ground arith;
}

abbrev a_while : List Event
a_while = preempts ∷ waits 40 ∷ starts 9 ∷ wakes 40 ∷ naps 100 5 ∷ ticks 105 ∷ []

sched_events_example : IsValid (events a_while two_tasks)
sched_events_example = events-IsValid a_while two_tasks two_tasks-IsValid

round_robin_example :
    let t = schedule two_tasks in
    (t.current ≡ 8)
    × (t.runqueues (two_tasks.tasks two_tasks.current).priority ≡ 8 ∷ [] ++ (7 ∷ []))
round_robin_example =
    round_robin two_tasks 8 [] two_tasks-IsValid (omega arith) (omega arith) (omega arith) refl refl
      (λ q h. ground arith)
