-- ===== src/Sched/Events.antt =====
-- The scheduler under any sequence of its calls.
use valerioedx.Base.{ℕ, List, [], ◌∷◌}
use valerioedx.Sched.{
  Sched, sched_enqueue_task, schedule, sleep_on, wake_up, task_exit, task_sleep_ticks,
  sched_check_sleeping_tasks,
}
use valerioedx.Sched.Active.{
  IsValid, enqueue-IsValid, schedule-IsValid, sleep_on-IsValid, wake_first-IsValid,
  task_exit-IsValid, sleep_ticks-IsValid, check_list-IsValid,
}

-- What happens to the scheduler: a task that is no longer in a queue becomes ready, the current task
-- is preempted, sleeps on a queue, exits, or sleeps for a time; a queue is woken, and a tick comes.
pub data Event : Type 0 where
  starts : ℕ → Event
  preempts : Event
  waits : ℕ → Event
  wakes : ℕ → Event
  leaves : Event
  naps : ℕ → ℕ → Event
  ticks : ℕ → Event

pub happen : Event → Sched → Sched
happen (starts t) s = sched_enqueue_task t s
happen preempts s = schedule s
happen (waits queue) s = sleep_on queue s
happen (wakes queue) s = wake_up queue s
happen leaves s = task_exit s
happen (naps jiffies wait) s = task_sleep_ticks jiffies wait s
happen (ticks now) s = sched_check_sleeping_tasks now s

pub events : List Event → Sched → Sched
events [] s = s
events (e ∷ es) s = events es (happen e s)

happen-IsValid : (e : Event) (s : Sched) → IsValid s → IsValid (happen e s)
unfolding happen wake_up sched_check_sleeping_tasks
happen-IsValid (starts t) s v = enqueue-IsValid t s v
happen-IsValid preempts s v = schedule-IsValid s v
happen-IsValid (waits queue) s v = sleep_on-IsValid queue s v
happen-IsValid (wakes queue) s v = wake_first-IsValid queue (s.waits queue) s v
happen-IsValid leaves s v = task_exit-IsValid s v
happen-IsValid (naps jiffies wait) s v = sleep_ticks-IsValid jiffies wait s v
happen-IsValid (ticks now) s v =
    let w = check_list-IsValid now s.sleep_queue s v in
    record { small = w.small; agrees = w.agrees; bounded = w.bounded }

-- Where priorities are below COUNT, the bits of active_priorities are set exactly for the run queues
-- that have a task, after any sequence of tasks made ready, preemptions, sleeps on queues, wakings,
-- exits, sleeps for a time and ticks, where they were so at first.
pub events-IsValid : (es : List Event) (s : Sched) → IsValid s → IsValid (events es s)
unfolding events
events-IsValid [] s v = v
events-IsValid (e ∷ es) s v = events-IsValid es (happen e s) (happen-IsValid e s v)
