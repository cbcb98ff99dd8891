-- ===== src/Files/Attributes/Guard.antt =====
-- Who may change the attributes of an inode with the calls of Files/Attributes.antt.
use valerioedx.Base.{ℕ, ◌≡◌, ◌≢◌, Bool, ℤ, arith, ◌∙◌}
use valerioedx.Files.{Inode, Files, vfs_close}
use valerioedx.Files.Attributes.{
  named, set_inode, chown_at, sys_chown, sys_fchown, chmod_at, sys_chmod, sys_fchmod, chflags_at,
  sys_chflags, sys_fchflags,
}

-- Owner, group, mode and flags are the same.
pub record SameAttributes (m n : Inode) : Type 0 where
  pub uid : n.uid ≡ m.uid
  pub gid : n.gid ≡ m.gid
  pub mode : n.mode ≡ m.mode
  pub flags : n.flags ≡ m.flags

-- A call of one of the six, with its arguments.
pub data Request : Type 0 where
  chown : Bool → Bool → ℕ → ℕ → Request
  fchown : ℤ → ℕ → ℕ → Request
  chmod : Bool → Bool → ℕ → Request
  fchmod : ℤ → ℕ → Request
  chflags : Bool → Bool → ℕ → Request
  fchflags : ℤ → ℕ → Request

pub request : Request → (Files → ℕ × Files) → (euid : ℕ) → Files → ℤ × Files
request (chown a c o g) namei euid s = sys_chown a c namei euid o g s
request (fchown fd o g) namei euid s = sys_fchown euid fd o g s
request (chmod a c m) namei euid s = sys_chmod a c namei euid m s
request (fchmod fd m) namei euid s = sys_fchmod euid fd m s
request (chflags a c f) namei euid s = sys_chflags a c namei euid f s
request (fchflags fd f) namei euid s = sys_fchflags euid fd f s

vfs_close-SameAttributes :
    (node i : ℕ) (s : Files) → SameAttributes (s.inodes i) ((vfs_close node s).inodes i)
unfolding vfs_close
vfs_close-SameAttributes node i s = ground arith

chown_at-SameAttributes :
    (euid o g node i : ℕ) (s : Files)
    → euid ≢ 0
    → SameAttributes (s.inodes i) ((chown_at euid o g node s).1.inodes i)
unfolding chown_at
chown_at-SameAttributes euid o g node i s e = ground (arith, vfs_close-SameAttributes node i s)

chmod_at-SameAttributes :
    (euid m node i : ℕ) (s : Files)
    → euid ≢ 0
    → (s.inodes i).uid ≢ euid
    → SameAttributes (s.inodes i) ((chmod_at euid m node s).1.inodes i)
unfolding chmod_at vfs_close set_inode
chmod_at-SameAttributes euid m node i s e h = ground arith

chflags_at-SameAttributes :
    (euid f node i : ℕ) (s : Files)
    → euid ≢ 0
    → (s.inodes i).uid ≢ euid
    → SameAttributes (s.inodes i) ((chflags_at euid f node s).1.inodes i)
unfolding chflags_at vfs_close set_inode
chflags_at-SameAttributes euid f node i s e h = ground arith

SameAttributes-trans :
    {a b c : Inode} → SameAttributes a b → SameAttributes b c → SameAttributes a c
SameAttributes-trans h k = record {
  uid = k.uid ∙ h.uid;
  gid = k.gid ∙ h.gid;
  mode = k.mode ∙ h.mode;
  flags = k.flags ∙ h.flags;
}

named-SameAttributes :
    (a c : Bool) (namei : Files → ℕ × Files) (i : ℕ) (s : Files)
    → ((t : Files) → SameAttributes (t.inodes i) ((namei t).1.inodes i))
    → SameAttributes (s.inodes i) ((named a c namei s).1.inodes i)
unfolding named
named-SameAttributes a c namei i s h = ground (arith, h s)

-- Where the search for a path changes no attribute, no call of chown, fchown, chmod, fchmod, chflags
-- and fchflags by a user who is neither root nor the owner of an inode changes that inode's owner,
-- group, mode or flags, whatever file the call names.
pub request-SameAttributes :
    (r : Request) (namei : Files → ℕ × Files) (euid : ℕ) (s : Files) (i : ℕ)
    → ((t : Files) → SameAttributes (t.inodes i) ((namei t).1.inodes i))
    → euid ≢ 0
    → (s.inodes i).uid ≢ euid
    → SameAttributes (s.inodes i) ((request r namei euid s).1.inodes i)
unfolding request sys_chown sys_chmod sys_chflags sys_fchown sys_fchmod sys_fchflags set_inode
request-SameAttributes (chown a c o g) namei euid s i h e o' =
    let found = named a c namei s in
    SameAttributes-trans (named-SameAttributes a c namei i s h)
      (chown_at-SameAttributes euid o g found.0 i found.1 e)
request-SameAttributes (chmod a c m) namei euid s i h e o =
    let found = named a c namei s in
    let kept = named-SameAttributes a c namei i s h in
    SameAttributes-trans kept (chmod_at-SameAttributes euid m found.0 i found.1 e (rw (kept.uid) o))
request-SameAttributes (chflags a c f) namei euid s i h e o =
    let found = named a c namei s in
    let kept = named-SameAttributes a c namei i s h in
    SameAttributes-trans kept
      (chflags_at-SameAttributes euid f found.0 i found.1 e (rw (kept.uid) o))
request-SameAttributes (fchown fd o g) namei euid s i h e o' = ground arith
request-SameAttributes (fchmod fd m) namei euid s i h e o = ground arith
request-SameAttributes (fchflags fd f) namei euid s i h e o = ground arith
