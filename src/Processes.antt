-- ===== src/Processes.antt =====
-- Processes and the table that finds them by number: `process_t` of kernel/lib/sched.h, `pid_hash`
-- of kernel/threading/sched.c. Processes lie at addresses, 0 is NULL. A bucket's chain through
-- `hash_next` is the list of its processes' addresses.
mod Find
pub mod Ids
use valerioedx.Base.{ℕ, ◌+◌, ◌%◌, Bool, List, [], ◌∷◌, ◌==◌, if◌then◌else◌, update}

pub record Process : Type 0 where
  pub pid : ℕ
  pub sid : ℕ
  pub pgid : ℕ
  pub session_leader : Bool
  pub groups : ℕ → ℕ
  pub ngroups : ℕ
  pub uid : ℕ
  pub gid : ℕ
  pub euid : ℕ
  pub egid : ℕ
  pub parent : ℕ
  pub controlling_tty : ℕ

-- `current` is `current_task->proc`, 0 for a kernel thread.
pub record System : Type 0 where
  pub procs : ℕ → Process
  pub pid_hash : ℕ → List ℕ
  pub current : ℕ

abbrev pub pid_hash_size : ℕ
pid_hash_size = 1024

pub pid_hash_insert : ℕ → System → System
pid_hash_insert proc s =
    let idx = (s.procs proc).pid % pid_hash_size in
    record s { pid_hash = update s.pid_hash idx (proc ∷ s.pid_hash idx) }

-- The walk along a chain: the first link to `proc` is taken out.
pub unlink : ℕ → List ℕ → List ℕ
unlink proc [] = []
unlink proc (p ∷ ps) = if p == proc then ps else p ∷ unlink proc ps

pub pid_hash_remove : ℕ → System → System
pid_hash_remove proc s =
    let idx = (s.procs proc).pid % pid_hash_size in
    record s { pid_hash = update s.pid_hash idx (unlink proc (s.pid_hash idx)) }

pub find_in : ℕ → (ℕ → Process) → List ℕ → ℕ
find_in pid procs [] = 0
find_in pid procs (p ∷ ps) = if (procs p).pid == pid then p else find_in pid procs ps

pub find_process_by_pid : ℕ → System → ℕ
find_process_by_pid pid s = find_in pid s.procs (s.pid_hash (pid % pid_hash_size))
