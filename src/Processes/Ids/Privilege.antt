-- ===== src/Processes/Ids/Privilege.antt =====
-- What a process without privilege can reach by the calls of kernel/syscalls/getuid.c.
use valerioedx.Base.{◌≡◌, refl, ◌≢◌, List, [], ◌∷◌, pos, negsuc, arith}
use valerioedx.Processes.{Process, System}
use valerioedx.Processes.Ids.{
  me, sys_setuid, sys_seteuid, sys_setgid, sys_setegid, sys_setgroups, Call, setuid, seteuid,
  setgid, setegid, setgroups, call, calls,
}

-- Neither the real nor the effective user is root, and the identity is that of `p`, but for the
-- effective numbers.
record Same (p q : Process) : Type 0 where
  uid : q.uid ≡ p.uid
  not_root : q.uid ≢ 0
  not_privileged : q.euid ≢ 0
  gid : q.gid ≡ p.gid
  ngroups : q.ngroups ≡ p.ngroups
  groups : q.groups ≡ p.groups

call-Same : (c : Call) (s : System) (p : Process) → Same p (me s) → Same p (me (call c s))
unfolding call sys_setuid sys_seteuid sys_setgid sys_setegid sys_setgroups
call-Same (setuid n) s p h = ground arith
call-Same (seteuid n) s p h = ground arith
call-Same (setgid n) s p h = ground arith
call-Same (setegid n) s p h = ground arith
call-Same (setgroups copied (pos n) list) s p h = ground arith
call-Same (setgroups copied (negsuc n) list) s p h = h

calls-Same : (cs : List Call) (s : System) (p : Process) → Same p (me s) → Same p (me (calls cs s))
unfolding calls
calls-Same [] s p h = h
calls-Same (c ∷ cs) s p h = calls-Same cs (call c s) p (call-Same c s p h)

-- A process whose real and effective users are not root never becomes root by these calls, in
-- whatever order and with whatever arguments: its real user and group and its list of groups stay
-- what they were, and its effective user is never 0.
pub calls_unprivileged :
    (cs : List Call) (s : System)
    → (me s).uid ≢ 0
    → (me s).euid ≢ 0
    → let q = me (calls cs s) in
      (q.euid ≢ 0)
      × (q.uid ≡ (me s).uid)
      × (q.gid ≡ (me s).gid)
      × (q.ngroups ≡ (me s).ngroups)
      × (q.groups ≡ (me s).groups)
calls_unprivileged cs s real effective =
    let h = calls-Same cs s (me s) (record {
      uid = refl;
      not_root = real;
      not_privileged = effective;
      gid = refl;
      ngroups = refl;
      groups = refl;
    }) in
    (h.not_privileged, h.uid, h.gid, h.ngroups, h.groups)
