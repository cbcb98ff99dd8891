-- ===== src/Sched/Active.antt =====
-- The bits of `active_priorities` against the run queues.
use valerioedx.Base.{
  ℕ, ◌+◌, ◌≤◌, ◌<◌, ◌≡◌, refl, inl, inr, true, false, List, [], ◌∷◌, ◌++◌, ltb, ◌==◌, if◌then◌else◌,
  update, arith, Bool-cases,
}
use valerioedx.Sched.{
  Sched, priorities, running, ready, exited, blocked, sleeping, has_task, remove_task,
  sched_enqueue_task, sched_dequeue_task, set_state, rotate_list, rotate_queue, next_task,
  switch_to, rotated, schedule, sleep_on, wake_first, task_exit, task_sleep_ticks, check_list,
}

-- Priorities are below COUNT, a bit is set exactly where its queue has a task, and no bit is set
-- from COUNT on.
pub record IsValid (s : Sched) : Type 0 where
  pub small : (t : ℕ) → (s.tasks t).priority < priorities
  pub agrees : (p : ℕ) → s.active p ≡ has_task (s.runqueues p)
  pub bounded : (p : ℕ) → priorities ≤ p → s.active p ≡ false

has_task-append : (q : List ℕ) (t : ℕ) → has_task (q ++ (t ∷ [])) ≡ true
unfolding has_task
has_task-append [] t = refl
has_task-append (u ∷ q) t = refl

pub enqueue-IsValid : (t : ℕ) (s : Sched) → IsValid s → IsValid (sched_enqueue_task t s)
unfolding sched_enqueue_task
enqueue-IsValid t s v =
    let prio = (s.tasks t).priority in
    record {
      small = v.small;
      agrees = λ p. ground (arith, v.agrees p, has_task-append (s.runqueues prio) t);
      bounded = λ p h. ground (arith, v.bounded p h, v.small t);
    }

has_task-remove :
    (q : List ℕ) (t : ℕ)
    → (if has_task (remove_task t q) then has_task q else false) ≡ has_task (remove_task t q)
unfolding has_task remove_task
has_task-remove [] t = refl
has_task-remove (u ∷ us) t = ground arith

pub dequeue-IsValid : (t : ℕ) (s : Sched) → IsValid s → IsValid (sched_dequeue_task t s)
unfolding sched_dequeue_task
dequeue-IsValid t s v =
    let prio = (s.tasks t).priority in
    record {
      small = v.small;
      agrees = λ p. ground (arith, v.agrees p, v.agrees prio, has_task-remove (s.runqueues prio) t);
      bounded = λ p h. ground (arith, v.bounded p h, v.small t);
    }

state-IsValid : (t state : ℕ) (s : Sched) → IsValid s → IsValid (set_state t state s)
unfolding set_state
state-IsValid t state s v = record {
  small = λ u. ground (arith, v.small u, v.small t);
  agrees = v.agrees;
  bounded = v.bounded;
}

rotate-IsValid : (q : List ℕ) (s : Sched) → IsValid s → IsValid (rotate_list q s)
unfolding rotate_list
rotate-IsValid [] s v = v
rotate-IsValid (t ∷ []) s v = v
rotate-IsValid (t ∷ u ∷ us) s v = enqueue-IsValid t (sched_dequeue_task t s) (dequeue-IsValid t s v)

pub rotated-IsValid : (s : Sched) → IsValid s → IsValid (rotated s)
unfolding rotated rotate_queue
rotated-IsValid s v = elim (Bool-cases (s.current == 0)) [
  | inl idle ↦ rw idle v
  | inr busy ↦ rw busy (elim (Bool-cases ((s.tasks s.current).state == running)) [
    | inl runs ↦ rw runs (rotate-IsValid (s.runqueues (s.tasks s.current).priority) s v)
    | inr other ↦ rw other v
  ])
]

switch-IsValid : (next : ℕ) (s : Sched) → IsValid s → IsValid (switch_to next s)
unfolding switch_to
switch-IsValid next s v = elim (Bool-cases (next == s.current)) [
  | inl same ↦ rw same v
  | inr other ↦
      let moved : IsValid (record s { current = next }) = record {
        small = v.small;
        agrees = v.agrees;
        bounded = v.bounded;
      } in
      rw other (elim (Bool-cases ((s.tasks next).state == ready)) [
        | inl rested ↦ rw rested (state-IsValid next running (record s { current = next }) moved)
        | inr goes ↦ rw goes moved
      ])
]

pub schedule-IsValid : (s : Sched) → IsValid s → IsValid (schedule s)
unfolding schedule
schedule-IsValid s v = switch-IsValid (next_task (rotated s)) (rotated s) (rotated-IsValid s v)

pub sleep_on-IsValid : (queue : ℕ) (s : Sched) → IsValid s → IsValid (sleep_on queue s)
unfolding sleep_on
sleep_on-IsValid queue s v =
    let still = state-IsValid s.current blocked s v in
    schedule-IsValid _ (
      dequeue-IsValid s.current _
        (record { small = still.small; agrees = still.agrees; bounded = still.bounded }))

pub wake_first-IsValid :
    (queue : ℕ) (q : List ℕ) (s : Sched) → IsValid s → IsValid (wake_first queue q s)
unfolding wake_first
wake_first-IsValid queue [] s v = v
wake_first-IsValid queue (t ∷ ts) s v =
    enqueue-IsValid t _
      (state-IsValid t ready _ (record { small = v.small; agrees = v.agrees; bounded = v.bounded }))

pub task_exit-IsValid : (s : Sched) → IsValid s → IsValid (task_exit s)
unfolding task_exit
task_exit-IsValid s v =
    schedule-IsValid _ (dequeue-IsValid s.current _ (state-IsValid s.current exited s v))

pub sleep_ticks-IsValid :
    (jiffies ticks : ℕ) (s : Sched) → IsValid s → IsValid (task_sleep_ticks jiffies ticks s)
unfolding task_sleep_ticks
sleep_ticks-IsValid jiffies ticks s v =
    let t = record (s.tasks s.current) { wake_tick = jiffies + ticks; state = sleeping } in
    let timed : IsValid (record s { tasks = update s.tasks s.current t }) = record {
      small = λ u. ground (arith, v.small u, v.small s.current);
      agrees = v.agrees;
      bounded = v.bounded;
    } in
    let gone = dequeue-IsValid s.current _ timed in
    schedule-IsValid _ (record { small = gone.small; agrees = gone.agrees; bounded = gone.bounded })

pub check_list-IsValid :
    (now : ℕ) (ts : List ℕ) (s : Sched) → IsValid s → IsValid (check_list now ts s).1
unfolding check_list
check_list-IsValid now [] s v = v
check_list-IsValid now (t ∷ ts) s v = elim (Bool-cases (ltb now (s.tasks t).wake_tick)) [
  | inl late ↦ rw late (check_list-IsValid now ts s v)
  | inr due ↦ rw due (
      check_list-IsValid now ts (sched_enqueue_task t (set_state t ready s))
        (enqueue-IsValid t _ (state-IsValid t ready s v)))
]
