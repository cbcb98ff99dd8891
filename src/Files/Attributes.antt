-- ===== src/Files/Attributes.antt =====
-- Owner, mode and flags of inodes: the calls of kernel/syscalls/getuid.c from `sys_chown` on. What
-- `kmalloc` and `copy_from_user` answer and what `namei` finds and does are arguments. `euid` is the
-- caller's effective user.
pub mod Guard
use valerioedx.Base.{
  ℕ, ◌+◌, ◌-◌, ◌*◌, ◌/◌, ◌%◌, ◌^◌, Bool, true, false, ◌&&◌, ◌||◌, not, ltb, leb, ◌==◌,
  if◌then◌else◌, update, ℤ, pos, negsuc,
}
use valerioedx.Files.{Inode, File, Files, vfs_close, fd_get}

abbrev pub no_id : ℕ
no_id = 2 ^ 64 - 1

-- The start of a call with a path: the address of the inode, 0 for a failure, and the state.
pub named : (allocated copied : Bool) → (Files → ℕ × Files) → Files → ℕ × Files
named allocated copied namei s =
    if not s.process then (0, s) else if allocated && copied then namei s else (0, s)

pub set_inode : ℕ → Inode → Files → Files
set_inode node n s = record s { inodes = update s.inodes node n }

-- `uid` and `gid` have 32 bits.
pub owned : ℕ → ℕ → Inode → Inode
owned owner group n = record n {
  uid = if owner == no_id then n.uid else owner % 2 ^ 32;
  gid = if group == no_id then n.gid else group % 2 ^ 32;
}

-- `(mode & ~07777) | (mode & 07777)`
pub with_mode : ℕ → Inode → Inode
with_mode mode n = record n { mode = n.mode / 4096 * 4096 + mode % 4096 }

pub chown_at : (euid owner group node : ℕ) → Files → ℤ × Files
chown_at euid owner group node s =
    if node == 0
    then (negsuc 0, s)
    else if not (euid == 0)
    then (negsuc 0, vfs_close node s)
    else (pos 0, vfs_close node (set_inode node (owned owner group (s.inodes node)) s))

pub sys_chown :
    (allocated copied : Bool) → (Files → ℕ × Files) → (euid owner group : ℕ) → Files → ℤ × Files
sys_chown allocated copied namei euid owner group s =
    let found = named allocated copied namei s in chown_at euid owner group found.0 found.1

pub sys_fchown : (euid : ℕ) → ℤ → (owner group : ℕ) → Files → ℤ × Files
sys_fchown euid fildes owner group s =
    let file = fd_get fildes s in
    let node = (s.files file).inode in
    if not s.process || (file == 0)
    then (negsuc 0, s)
    else if not (euid == 0)
    then (negsuc 0, s)
    else (pos 0, set_inode node (owned owner group (s.inodes node)) s)

pub chmod_at : (euid mode node : ℕ) → Files → ℤ × Files
chmod_at euid mode node s =
    if node == 0
    then (negsuc 0, s)
    else if not (euid == 0) && not ((s.inodes node).uid == euid)
    then (negsuc 0, vfs_close node s)
    else (pos 0, vfs_close node (set_inode node (with_mode mode (s.inodes node)) s))

pub sys_chmod :
    (allocated copied : Bool) → (Files → ℕ × Files) → (euid mode : ℕ) → Files → ℤ × Files
sys_chmod allocated copied namei euid mode s =
    let found = named allocated copied namei s in chmod_at euid mode found.0 found.1

pub sys_fchmod : (euid : ℕ) → ℤ → (mode : ℕ) → Files → ℤ × Files
sys_fchmod euid fildes mode s =
    let file = fd_get fildes s in
    let node = (s.files file).inode in
    if not s.process || (file == 0)
    then (negsuc 0, s)
    else if not (euid == 0) && not ((s.inodes node).uid == euid)
    then (negsuc 0, s)
    else (pos 0, set_inode node (with_mode mode (s.inodes node)) s)

-- What a call without privilege stores, `(flags & ~0xFFFF) | (flags & 0xFFFF)`, and with it.
pub low_flags : ℕ → Inode → Inode
low_flags flags n = record n { flags = n.flags / 2 ^ 16 * 2 ^ 16 + flags % 2 ^ 16 }

pub all_flags : ℕ → Inode → Inode
all_flags flags n = record n { flags = flags % 2 ^ 32 }

pub chflags_at : (euid flags node : ℕ) → Files → ℤ × Files
chflags_at euid flags node s =
    if node == 0
    then (negsuc 0, s)
    else if not (euid == 0)
    then (if not ((s.inodes node).uid == euid)
        then (negsuc 0, vfs_close node s)
        else if leb (2 ^ 16) flags
        then (negsuc 0, vfs_close node s)
        else (pos 0, vfs_close node (set_inode node (low_flags flags (s.inodes node)) s)))
    else (pos 0, vfs_close node (set_inode node (all_flags flags (s.inodes node)) s))

pub sys_chflags :
    (allocated copied : Bool) → (Files → ℕ × Files) → (euid flags : ℕ) → Files → ℤ × Files
sys_chflags allocated copied namei euid flags s =
    let found = named allocated copied namei s in chflags_at euid flags found.0 found.1

pub sys_fchflags : (euid : ℕ) → ℤ → (flags : ℕ) → Files → ℤ × Files
sys_fchflags euid fd flags s =
    let file = fd_get fd s in
    let node = (s.files file).inode in
    if not s.process || (file == 0)
    then (negsuc 0, s)
    else if not (euid == 0)
    then (if not ((s.inodes node).uid == euid) || leb (2 ^ 16) flags
        then (negsuc 0, s)
        else (pos 0, set_inode node (low_flags flags (s.inodes node)) s))
    else (pos 0, set_inode node (all_flags flags (s.inodes node)) s)
