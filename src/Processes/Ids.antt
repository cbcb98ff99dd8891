-- ===== src/Processes/Ids.antt =====
-- User, group, session and process group numbers: the calls of kernel/syscalls/getuid.c that do
-- not touch files. -1 is `negsuc 0`. What `copy_to_user` and `copy_from_user` answer is an argument.
mod Privilege
mod Sessions
mod Tests
use valerioedx.Base.{
  ℕ, ◌%◌, Bool, true, false, ◌&&◌, ◌||◌, not, List, [], ◌∷◌, ltb, ◌==◌, if◌then◌else◌, update, ℤ,
  pos, negsuc, leb_ℤ, ltb_ℤ,
}
use valerioedx.Processes.{Process, System, find_process_by_pid}

abbrev pub fail : ℤ
fail = negsuc 0

abbrev pub ngroups_max : ℕ
ngroups_max = 32

-- `!current_task || !current_task->proc`
abbrev pub no_process : System → Bool
no_process s = s.current == 0

abbrev pub me : System → Process
me s = s.procs s.current

abbrev pub store : ℕ → Process → System → System
store at p s = record s { procs = update s.procs at p }

pub sys_getuid : System → ℤ
sys_getuid s = if no_process s then fail else pos (me s).uid

pub sys_setuid : ℕ → System → ℤ × System
sys_setuid uid s =
    if no_process s
    then (fail, s)
    else if not ((me s).euid == 0)
    then (fail, s)
    else (pos 0, store s.current (record (me s) { uid = uid; euid = uid }) s)

pub sys_seteuid : ℕ → System → ℤ × System
sys_seteuid euid s =
    if no_process s
    then (fail, s)
    else if not ((me s).euid == 0) && not (euid == (me s).uid)
    then (fail, s)
    else (pos 0, store s.current (record (me s) { euid = euid }) s)

pub sys_getgid : System → ℤ
sys_getgid s = if no_process s then fail else pos (me s).gid

pub sys_setgid : ℕ → System → ℤ × System
sys_setgid gid s =
    if no_process s
    then (fail, s)
    else if not ((me s).euid == 0)
    then (fail, s)
    else (pos 0, store s.current (record (me s) { gid = gid; egid = gid }) s)

pub sys_setegid : ℕ → System → ℤ × System
sys_setegid egid s =
    if no_process s
    then (fail, s)
    else if not ((me s).euid == 0) && not (egid == (me s).gid)
    then (fail, s)
    else (pos 0, store s.current (record (me s) { egid = egid }) s)

pub sys_geteuid : System → ℤ
sys_geteuid s = if not (no_process s) then pos (me s).euid else fail

pub sys_getegid : System → ℤ
sys_getegid s = if not (no_process s) then pos (me s).egid else fail

pub sys_setsid : System → ℤ × System
sys_setsid s =
    if no_process s
    then (fail, s)
    else if (me s).session_leader
    then (fail, s)
    else if (me s).pgid == (me s).pid
    then (fail, s)
    else (
      pos (me s).pid,
      store s.current
          (record (me s) {
            sid = (me s).pid;
            pgid = (me s).pid;
            session_leader = true;
            controlling_tty = 0;
          })
          s,
    )

pub sys_getsid : ℕ → System → ℤ
sys_getsid pid s =
    if pid == 0
    then (if no_process s then fail else pos (me s).sid)
    else (let target = find_process_by_pid pid s in
        if target == 0 then fail else pos (s.procs target).sid)

pub sys_getpgid : ℕ → System → ℤ
sys_getpgid pid s =
    if pid == 0
    then (if no_process s then fail else pos (me s).pgid)
    else (let target = find_process_by_pid pid s in
        if target == 0 then fail else pos (s.procs target).pgid)

-- The last part of `sys_setpgid`, with the target at hand.
pub move_to_group : ℕ → ℕ → System → ℤ × System
move_to_group target pgid s =
    let t = s.procs target in
    if t.session_leader
    then (fail, s)
    else if not (t.sid == (me s).sid)
    then (fail, s)
    else (pos 0, store target (record t { pgid = if pgid == 0 then t.pid else pgid }) s)

pub sys_setpgid : ℕ → ℕ → System → ℤ × System
sys_setpgid pid pgid s =
    if no_process s
    then (fail, s)
    else if (pid == 0) || (pid == (me s).pid)
    then move_to_group s.current pgid s
    else (let target = find_process_by_pid pid s in
        if (target == 0) || not ((s.procs target).parent == s.current)
        then (fail, s)
        else move_to_group target pgid s)

pub sys_getpgrp : System → ℤ
sys_getpgrp s = if no_process s then fail else pos (me s).pgid

pub sys_getgroups : (copied : Bool) → ℤ → System → ℤ
sys_getgroups copied size s =
    if no_process s
    then fail
    else if leb_ℤ size (pos 0) && leb_ℤ (pos 0) size
    then pos (me s).ngroups
    else if ltb_ℤ size (pos (me s).ngroups) || not copied
    then fail
    else pos (me s).ngroups

-- `list` is what `copy_from_user` puts into the buffer. The first `size` entries are stored.
pub sys_setgroups : (copied : Bool) → ℤ → (ℕ → ℕ) → System → ℤ × System
sys_setgroups copied (negsuc n) list s = (fail, s)
sys_setgroups copied (pos size) list s =
    if no_process s
    then (fail, s)
    else if not ((me s).euid == 0) || ltb ngroups_max size || not copied
    then (fail, s)
    else (
      pos 0,
      store s.current
          (record (me s) {
            groups = λ i. if ltb i size then list i else (me s).groups i;
            ngroups = size;
          })
          s,
    )

-- The calls that change the identity of the caller.
pub data Call : Type 0 where
  setuid seteuid setgid setegid : ℕ → Call
  setgroups : Bool → ℤ → (ℕ → ℕ) → Call

pub call : Call → System → System
call (setuid n) s = (sys_setuid n s).1
call (seteuid n) s = (sys_seteuid n s).1
call (setgid n) s = (sys_setgid n s).1
call (setegid n) s = (sys_setegid n s).1
call (setgroups copied size list) s = (sys_setgroups copied size list s).1

pub calls : List Call → System → System
calls [] s = s
calls (c ∷ cs) s = calls cs (call c s)
