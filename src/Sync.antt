-- ===== src/Sync.antt =====
-- Semaphores and mutexes: kernel/threading/sync.c, with tasks that call them in any order. A task is a
-- number. Each pass through a loop holds the spin lock from its start to its return or to its sleep, and
-- so is one step. `sleep_on` puts the task in front of the wait queue, `wake_up` takes the first, which
-- then passes again. `int count` is a number that stays below 2^31.
mod Semaphores
mod Mutexes
mod Tests
use valerioedx.Base.{
  member, remove, ℕ, ◌+◌, ◌-◌, ◌≡◌, Bool, true, false, List, [], ◌∷◌, Option, none, some, ltb, ◌==◌,
  if◌then◌else◌, arith,
}

pub record Semaphore : Type 0 where
  pub count : ℕ
  pub wait_list : List ℕ

pub sem_init : ℕ → Semaphore
sem_init count = record { count = count; wait_list = [] }

-- One pass of a task: whether sem_wait returns; else it sleeps.
pub sem_wait : (task : ℕ) → Semaphore → Bool × Semaphore
sem_wait task sem =
    if ltb 0 sem.count
    then (true, record sem { count = sem.count - 1 })
    else (false, record sem { wait_list = task ∷ sem.wait_list })

-- `wake_up`: the task woken, and the tasks that sleep on.
pub wake_one : List ℕ → Option ℕ × List ℕ
wake_one [] = (none, [])
wake_one (task ∷ tasks) = (some task, tasks)

pub sem_signal : Semaphore → Option ℕ × Semaphore
sem_signal sem =
    let (woken, left) = wake_one sem.wait_list in
    (woken, record { count = sem.count + 1; wait_list = left })

pub record Mutex : Type 0 where
  pub locked : Bool
  pub wait_list : List ℕ

pub mutex_init : Mutex
mutex_init = record { locked = false; wait_list = [] }

-- One pass of a task: whether mutex_acquire returns; else it sleeps.
pub mutex_acquire : (task : ℕ) → Mutex → Bool × Mutex
mutex_acquire task mutex =
    if mutex.locked
    then (false, record mutex { wait_list = task ∷ mutex.wait_list })
    else (true, record mutex { locked = true })

pub mutex_release : Mutex → Option ℕ × Mutex
mutex_release mutex =
    let (woken, left) = wake_one mutex.wait_list in
    (woken, record { locked = false; wait_list = left })

-- Tasks in a list, once for each time.
pub size : List ℕ → ℕ
size [] = 0
size (t ∷ ts) = size ts + 1

-- A task that was woken is about to pass again.
abbrev pub with_woken : Option ℕ → List ℕ → List ℕ
with_woken none ts = ts
with_woken (some task) ts = task ∷ ts

pub size-remove :
    (task : ℕ) (ts : List ℕ) → member task ts ≡ true → size (remove task ts) + 1 ≡ size ts
unfolding member remove size
size-remove task [] h = cc h
size-remove task (t ∷ ts) h = ground (arith, size-remove task ts)
