-- ===== src/Processes/Ids/Sessions.antt =====
-- Sessions and process groups under `sys_setsid` and `sys_setpgid` of kernel/syscalls/getuid.c.
use valerioedx.Base.{ℕ, ◌≡◌, ◌⊎◌, false, arith}
use valerioedx.Processes.{Process, System, find_process_by_pid}
use valerioedx.Processes.Ids.{sys_setsid, move_to_group, sys_setpgid}

-- A session leader leads its own session and its own process group.
abbrev pub IsLeading : Process → Type 0
IsLeading p = (p.session_leader ≡ false) ⊎ ((p.sid ≡ p.pid) × (p.pgid ≡ p.pid))

-- After sys_setsid, every process that was no session leader, or led its own session and group,
-- is such a process still.
pub setsid-IsLeading :
    (s : System) (p : ℕ) → IsLeading (s.procs p) → IsLeading ((sys_setsid s).1.procs p)
unfolding sys_setsid
setsid-IsLeading s p h = ground arith

move-IsLeading :
    (target pgid : ℕ) (s : System) (p : ℕ)
    → IsLeading (s.procs p)
    → IsLeading ((move_to_group target pgid s).1.procs p)
unfolding move_to_group
move-IsLeading target pgid s p h = ground arith

-- Where every session leader leads its own session and process group, that holds after
-- sys_setpgid, whatever the numbers given to it.
pub setpgid-IsLeading :
    (pid pgid : ℕ) (s : System) (p : ℕ)
    → IsLeading (s.procs p)
    → IsLeading ((sys_setpgid pid pgid s).1.procs p)
unfolding sys_setpgid
setpgid-IsLeading pid pgid s p h = ground (
  arith,
  move-IsLeading s.current pgid s p h,
  move-IsLeading (find_process_by_pid pid s) pgid s p h,
)
