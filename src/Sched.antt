-- ===== src/Sched.antt =====
-- The scheduler: kernel/threading/sched.c. Tasks lie at addresses, 0 is NULL. A run queue, linked
-- through `next` and `prev` with its tail at hand, is the list of its tasks, the head first, and so
-- are the wait queues, which lie at addresses, and the sleep queue. `active_priorities` is a function
-- of the bit's number. The lock, the switch of contexts and the page tables are left out.
pub mod Active
mod Choice
mod Events
mod Tests
use valerioedx.Base.{
  ℕ, zero, suc, ◌+◌, Bool, true, false, List, [], ◌∷◌, ◌++◌, Option, none, some, ltb, leb, ◌==◌,
  if◌then◌else◌, update,
}

-- COUNT
abbrev pub priorities : ℕ
priorities = 5

-- The fields of `task_t` that scheduling uses. A state is its number in `task_state`.
pub record Task : Type 0 where
  pub priority : ℕ
  pub state : ℕ
  pub wake_tick : ℕ

abbrev pub running : ℕ
running = 0

abbrev pub ready : ℕ
ready = 1

abbrev pub exited : ℕ
exited = 2

abbrev pub blocked : ℕ
blocked = 3

abbrev pub sleeping : ℕ
sleeping = 5

pub record Sched : Type 0 where
  pub tasks : ℕ → Task
  pub runqueues : ℕ → List ℕ
  pub active : ℕ → Bool
  pub waits : ℕ → List ℕ
  pub sleep_queue : List ℕ
  pub current : ℕ

pub has_task : List ℕ → Bool
has_task [] = false
has_task (t ∷ ts) = true

-- The unlinking of a task, wherever it stands.
pub remove_task : ℕ → List ℕ → List ℕ
remove_task t [] = []
remove_task t (u ∷ us) = if u == t then us else u ∷ remove_task t us

pub sched_enqueue_task : ℕ → Sched → Sched
sched_enqueue_task t s =
    let prio = (s.tasks t).priority in
    record s {
      runqueues = update s.runqueues prio (s.runqueues prio ++ (t ∷ []));
      active = update s.active prio true;
    }

pub sched_dequeue_task : ℕ → Sched → Sched
sched_dequeue_task t s =
    let prio = (s.tasks t).priority in
    let left = remove_task t (s.runqueues prio) in
    record s {
      runqueues = update s.runqueues prio left;
      active = update s.active prio (if has_task left then s.active prio else false);
    }

pub set_state : ℕ → ℕ → Sched → Sched
set_state t state s = record s { tasks = update s.tasks t (record (s.tasks t) { state = state }) }

-- The head goes to the end, where another task follows it.
pub rotate_list : List ℕ → Sched → Sched
rotate_list [] s = s
rotate_list (t ∷ []) s = s
rotate_list (t ∷ u ∷ us) s = sched_enqueue_task t (sched_dequeue_task t s)

pub rotate_queue : ℕ → Sched → Sched
rotate_queue priority s = rotate_list (s.runqueues priority) s

-- `31 - __builtin_clz(active_priorities)`, with the bits left. Nothing where all bits are 0.
pub highest_bit : ℕ → (ℕ → Bool) → Option ℕ
highest_bit zero bits = none
highest_bit (suc n) bits = if bits n then some n else highest_bit n bits

-- The head of a queue, NULL for an empty one.
pub head_of : List ℕ → ℕ
head_of [] = 0
head_of (t ∷ ts) = t

pub candidate : Option ℕ → (ℕ → List ℕ) → ℕ
candidate none queues = head_of (queues 0)
candidate (some p) queues = head_of (queues (if leb priorities p then 4 else p))

pub next_task : Sched → ℕ
next_task s =
    let next = candidate (highest_bit 32 s.active) s.runqueues in
    if next == 0 then head_of (s.runqueues 0) else next

-- The state after the choice of the next task, at the switch.
pub switch_to : ℕ → Sched → Sched
switch_to next s =
    if next == s.current
    then s
    else (let s' = record s { current = next } in
        if (s.tasks next).state == ready then set_state next running s' else s')

pub rotated : Sched → Sched
rotated s =
    if s.current == 0
    then s
    else if (s.tasks s.current).state == running
    then rotate_queue (s.tasks s.current).priority s
    else s

pub schedule : Sched → Sched
schedule s = switch_to (next_task (rotated s)) (rotated s)

pub sleep_on : ℕ → Sched → Sched
sleep_on queue s =
    let blocked_now = set_state s.current blocked s in
    schedule (
      sched_dequeue_task s.current
        (record blocked_now { waits = update s.waits queue (s.current ∷ s.waits queue) }))

pub wake_first : ℕ → List ℕ → Sched → Sched
wake_first queue [] s = s
wake_first queue (t ∷ ts) s =
    sched_enqueue_task t (set_state t ready (record s { waits = update s.waits queue ts }))

pub wake_up : ℕ → Sched → Sched
wake_up queue s = wake_first queue (s.waits queue) s

pub task_exit : Sched → Sched
task_exit s = schedule (sched_dequeue_task s.current (set_state s.current exited s))

-- `jiffies` is the time.
pub task_sleep_ticks : (jiffies ticks : ℕ) → Sched → Sched
task_sleep_ticks jiffies ticks s =
    let t = record (s.tasks s.current) { wake_tick = jiffies + ticks; state = sleeping } in
    let gone = sched_dequeue_task s.current (record s { tasks = update s.tasks s.current t }) in
    schedule (record gone { sleep_queue = s.current ∷ s.sleep_queue })

-- The walk along the sleep queue: those whose time has come go to the run queues, the others are
-- what is left of the queue.
pub check_list : (now : ℕ) → List ℕ → Sched → List ℕ × Sched
check_list now [] s = ([], s)
check_list now (t ∷ ts) s =
    let late = ltb now (s.tasks t).wake_tick in
    let s' = if late then s else sched_enqueue_task t (set_state t ready s) in
    let walked = check_list now ts s' in (if late then t ∷ walked.0 else walked.0, walked.1)

pub sched_check_sleeping_tasks : (now : ℕ) → Sched → Sched
sched_check_sleeping_tasks now s =
    let walked = check_list now s.sleep_queue s in record walked.1 { sleep_queue = walked.0 }
