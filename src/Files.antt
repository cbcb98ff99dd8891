-- ===== src/Files.antt =====
-- Open files of one process: the descriptor table of kernel/fs/file.c, the calls of
-- kernel/syscalls/dup.c, `sys_close` of kernel/syscalls/open.c, and the reference counts of inodes
-- in kernel/fs/vfs.c. Files and inodes lie at addresses, 0 is NULL. What the hooks of a file system
-- and the page cache are asked to do is recorded as a list of events, the latest first.
mod Counts
mod Dup
mod Seek
mod Close
pub mod Attributes
mod Tests
use valerioedx.Base.{
  ℕ, zero, suc, ◌+◌, ◌-◌, ◌*◌, ◌/◌, ◌%◌, ◌^◌, Bool, true, false, ◌&&◌, ◌||◌, not, List, [], ◌∷◌,
  ltb, leb, ◌==◌, if◌then◌else◌, update, ℤ, pos, negsuc, ◌+ℤ◌, ◌-ℤ◌, leb_ℤ, ltb_ℤ, pos_part,
}

abbrev pub max_fd : ℕ
max_fd = 1024

abbrev pub fs_temporary : ℕ
fs_temporary = 0x80

-- The fields of `inode_t` that these calls use, and which hooks its file system has.
pub record Inode : Type 0 where
  pub flags : ℕ
  pub uid : ℕ
  pub gid : ℕ
  pub mode : ℕ
  pub size : ℕ
  pub ref_count : ℤ
  pub has_open : Bool
  pub has_close : Bool

-- `file_t`
pub record File : Type 0 where
  pub inode : ℕ
  pub offset : ℕ
  pub flags : ℕ
  pub ref_count : ℤ

pub data Event : Type 0 where
  opened : ℕ → Event
  evicted : ℕ → Event
  closed : ℕ → Event
  freed_node : ℕ → Event
  freed_file : ℕ → Event

-- `process` says whether the caller is a process: `current_task && current_task->proc`.
pub record Files : Type 0 where
  pub process : Bool
  pub fd_table : ℕ → ℕ
  pub files : ℕ → File
  pub inodes : ℕ → Inode
  pub events : List Event

pub vfs_open : ℕ → Files → Files
vfs_open node s = if node == 0 then s else record s {
  inodes =
      update s.inodes node
        (record (s.inodes node) { ref_count = (s.inodes node).ref_count +ℤ pos 1 });
  events = if (s.inodes node).has_open then opened node ∷ s.events else s.events;
}

-- Bit 7 of the flags is FS_TEMPORARY.
abbrev pub is_temporary : Inode → Bool
is_temporary n = (n.flags / 128) % 2 == 1

pub vfs_close : ℕ → Files → Files
vfs_close node s =
    if node == 0
    then s
    else (let left = (s.inodes node).ref_count -ℤ pos 1 in
        let counted = update s.inodes node (record (s.inodes node) { ref_count = left }) in
        record s {
          inodes = counted;
          events =
              if leb_ℤ left (pos 0)
              then (if is_temporary (s.inodes node) && (s.inodes node).has_close
                  then freed_node node ∷ closed node ∷ evicted node ∷ s.events
                  else evicted node ∷ s.events)
              else s.events;
        })

-- The loop of `fd_alloc`, with the rounds left.
pub fd_search : ℕ → ℕ → (ℕ → ℕ) → ℤ
fd_search zero i table = negsuc 0
fd_search (suc rounds) i table = if table i == 0 then pos i else fd_search rounds (i + 1) table

pub fd_alloc : Files → ℤ
fd_alloc s = if s.process then fd_search max_fd 0 s.fd_table else negsuc 0

pub fd_free : ℤ → Files → Files
fd_free (negsuc n) s = s
fd_free (pos fd) s =
    if not s.process || leb max_fd fd then s else record s { fd_table = update s.fd_table fd 0 }

pub fd_get : ℤ → Files → ℕ
fd_get (negsuc n) s = 0
fd_get (pos fd) s = if not s.process || leb max_fd fd then 0 else s.fd_table fd

-- `fresh` is what `kmalloc` returns.
pub file_new : (fresh : ℕ) → ℕ → ℕ → Files → ℕ × Files
file_new fresh inode flags s = if fresh == 0 then (0, s) else (
  fresh,
  vfs_open inode (record s {
    files =
        update s.files fresh
          (record { inode = inode; offset = 0; flags = flags; ref_count = pos 1 });
  }),
)

pub file_close : ℕ → Files → Files
file_close file s =
    if file == 0
    then s
    else (let left = (s.files file).ref_count -ℤ pos 1 in
        let s' = record s {
          files = update s.files file (record (s.files file) { ref_count = left });
        } in
        let shut = vfs_close (s.files file).inode s' in
        if leb_ℤ left (pos 0) then record shut { events = freed_file file ∷ shut.events } else s')

pub sys_close : ℤ → Files → ℤ × Files
sys_close fd s =
    let file = fd_get fd s in
    if file == 0 then (negsuc 0, s) else (pos 0, file_close file (fd_free fd s))

-- `file->ref_count++`
pub retain : ℕ → Files → Files
retain file s = record s {
  files =
      update s.files file (record (s.files file) { ref_count = (s.files file).ref_count +ℤ pos 1 });
}

-- `fd_table[fd] = file`, with no test of the index.
pub install : ℕ → ℕ → Files → Files
install fd file s = record s { fd_table = update s.fd_table fd file }

pub sys_dup : ℤ → Files → ℤ × Files
sys_dup oldfd s =
    if not s.process
    then (negsuc 0, s)
    else (let file = fd_get oldfd s in
        if file == 0 then (negsuc 0, s) else elim (fd_alloc s) [
          | negsuc n ↦ (negsuc 0, s)
          | pos newfd ↦ (pos newfd, install newfd file (retain file s))
        ])

abbrev pub eq_ℤ : ℤ → ℕ → Bool
eq_ℤ (pos n) m = n == m
eq_ℤ (negsuc n) m = false

pub sys_dup2 : ℤ → ℤ → Files → ℤ × Files
sys_dup2 oldfd (negsuc n) s = (negsuc 0, s)
sys_dup2 oldfd (pos newfd) s =
    if not s.process || ltb max_fd newfd
    then (negsuc 0, s)
    else (let file = fd_get oldfd s in
        if file == 0
        then (negsuc 0, s)
        else if eq_ℤ oldfd newfd
        then (pos newfd, s)
        else (let existing = fd_get (pos newfd) s in
            let cleared = if existing == 0 then s else install newfd 0 (file_close existing s) in
            (pos newfd, install newfd file (retain file cleared))))

-- The integer that an `i64` cast gives, and the word that a cast to `u64` gives.
abbrev pub to_i64 : ℕ → ℤ
to_i64 w = if ltb w (2 ^ 63) then pos w else negsuc (2 ^ 64 - w - 1)

abbrev pub to_u64 : ℤ → ℕ
to_u64 (pos n) = n % 2 ^ 64
to_u64 (negsuc n) = 2 ^ 64 - 1 - n % 2 ^ 64

-- The new offset by `whence`: SEEK_SET, SEEK_CUR, SEEK_END, or nothing of these.
pub seek_target : ℕ → ℤ → File → Inode → Bool × ℤ
seek_target whence offset f n =
    if whence == 0
    then (true, offset)
    else if whence == 1
    then (true, to_i64 f.offset +ℤ offset)
    else if whence == 2
    then (true, to_i64 n.size +ℤ offset)
    else (false, pos 0)

-- `flags & FS_CHARDEVICE` is a test of the two lowest bits.
pub sys_lseek : ℤ → ℤ → ℕ → Files → ℤ × Files
sys_lseek fd offset whence s =
    if not s.process
    then (negsuc 0, s)
    else (let file = fd_get fd s in
        let f = s.files file in
        let n = s.inodes f.inode in
        if file == 0
        then (negsuc 0, s)
        else if not (n.flags % 4 == 0)
        then (negsuc 0, s)
        else (let (known, target) = seek_target whence offset f n in
            if not known || ltb_ℤ target (pos 1) then (negsuc 0, s) else (
              target,
              record s { files = update s.files file (record f { offset = to_u64 target }) },
            )))
