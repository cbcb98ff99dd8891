-- ===== src/Processes/Ids/Tests.antt =====
-- The theorems on identities and on the table of processes at two processes.
use valerioedx.Base.{ℕ, ◌≡◌, ◌≢◌, refl, true, false, List, [], ◌∷◌, ◌==◌, if◌then◌else◌, pos, arith}
use valerioedx.Processes.{Process, System, find_in, find_process_by_pid, pid_hash_remove, unlink}
use valerioedx.Processes.Ids.{me, Call, setuid, seteuid, setgroups, setgid, calls}
use valerioedx.Processes.Ids.Privilege.{calls_unprivileged}

-- A process of user 7 in the session and the group of process 1.
abbrev user_process : ℕ → Process
user_process pid = record {
  pid = pid;
  sid = 1;
  pgid = 1;
  session_leader = false;
  groups = λ i. 0;
  ngroups = 0;
  uid = 7;
  gid = 7;
  euid = 7;
  egid = 7;
  parent = 100;
  controlling_tty = 3;
}

-- Process n lies at address 100 * n. Numbers 2 and 1026 share a bucket.
abbrev two : System
two = record {
  procs = λ at. user_process (if at == 200 then 2 else 1026);
  pid_hash = λ i. if i == 2 then 200 ∷ 102600 ∷ [] else [];
  current = 200;
}

abbrev attempts : List Call
attempts = setuid 0 ∷ seteuid 0 ∷ setgroups true (pos 1) (λ i. 0) ∷ setgid 0 ∷ []

calls_example :
    let q = me (calls attempts two) in
    (q.euid ≢ 0)
    × (q.uid ≡ (me two).uid)
    × (q.gid ≡ (me two).gid)
    × (q.ngroups ≡ (me two).ngroups)
    × (q.groups ≡ (me two).groups)
calls_example = calls_unprivileged attempts two (omega arith) (omega arith)

chain_after : find_process_by_pid 1026 (pid_hash_remove 200 two) ≡ 102600
unfolding find_process_by_pid pid_hash_remove find_in unlink
chain_after = refl
