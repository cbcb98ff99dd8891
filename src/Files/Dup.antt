-- ===== src/Files/Dup.antt =====
-- `sys_dup`, `sys_dup2` and `sys_close` keep the reference counts of a process that shares no file
-- with another.
use valerioedx.Base.{
  ℕ, zero, suc, ◌+◌, ◌≤◌, ◌<◌, ◌≡◌, ◌≢◌, ◌⊎◌, inl, inr, true, not, ◌||◌, leb, ◌==◌, if◌then◌else◌,
  update, ℤ, pos, negsuc, ◌+ℤ◌, ◌-ℤ◌, arith, Bool-cases, ℤ-cases, ap,
}
use valerioedx.Files.{
  Files, File, max_fd, fd_search, fd_alloc, fd_free, fd_get, vfs_open, vfs_close, file_new,
  file_close, sys_close, retain, install, sys_dup, sys_dup2,
}
use valerioedx.Files.Counts.{IsCounted, refs-update, refs-pos}

-- The search returns a free descriptor of the range, and the lowest one.
fd_search_lem :
    (rounds i : ℕ) (table : ℕ → ℕ) (n : ℕ)
    → fd_search rounds i table ≡ pos n
    → (i ≤ n) × (n < i + rounds) × (table n ≡ 0) × ((k : ℕ) → i ≤ k → k < n → table k ≢ 0)
unfolding fd_search
fd_search_lem zero i table n e = cc
fd_search_lem (suc rounds) i table n e = elim (Bool-cases (table i == 0)) [
  | inl free ↦
      let at : pos i ≡ pos n = rw free at e in
      (ground arith, ground arith, ground arith, λ k l h. absurd (ground arith))
  | inr taken ↦
      let (l, h, z, below) = fd_search_lem rounds (i + 1) table n (rw taken at e) in
      (
        omega arith,
        omega arith,
        z,
        λ k l' h'. elim (Bool-cases (k == i)) [
          | inl same ↦ ground arith
          | inr other ↦ below k (ground arith) h'
        ],
      )
]

-- A descriptor that fd_alloc returns lies in the table, is free, and is the lowest that is free.
pub fd_alloc_lem :
    (s : Files) (n : ℕ)
    → fd_alloc s ≡ pos n
    → (n < max_fd) × (s.fd_table n ≡ 0) × ((k : ℕ) → k < n → s.fd_table k ≢ 0)
unfolding fd_alloc
fd_alloc_lem s n e = elim (Bool-cases s.process) [
  | inl proc ↦
      let (l, h, z, below) = fd_search_lem max_fd 0 s.fd_table n (rw proc at e) in
      (h, z, λ k hk. below k (omega arith) hk)
  | inr no_proc ↦ cc (rw no_proc at e)
]

retain-install :
    {s : Files} (file i : ℕ)
    → IsCounted s
    → i < max_fd
    → s.fd_table i ≡ 0
    → IsCounted (install i file (retain file s))
unfolding install retain ◌+ℤ◌
retain-install {s} file i c h free = record {
  agrees = λ g ne. ground (arith, c.agrees g ne, refs-update s.fd_table g i file max_fd);
}

files-vfs_close : (node : ℕ) (s : Files) → (vfs_close node s).files ≡ s.files
unfolding vfs_close
files-vfs_close node s = ground arith

table-vfs_close : (node : ℕ) (s : Files) → (vfs_close node s).fd_table ≡ s.fd_table
unfolding vfs_close
table-vfs_close node s = ground arith

process-vfs_close : (node : ℕ) (s : Files) → (vfs_close node s).process ≡ s.process
unfolding vfs_close
process-vfs_close node s = ground arith

-- A new file, with no reference before, and a free descriptor for it keep the counts.
pub new-IsCounted :
    {s : Files} (fresh inode flags i : ℕ)
    → IsCounted s
    → fresh ≢ 0
    → (s.files fresh).ref_count ≡ pos 0
    → i < max_fd
    → s.fd_table i ≡ 0
    → IsCounted (install i fresh (file_new fresh inode flags s).1)
unfolding install file_new vfs_open
new-IsCounted {s} fresh inode flags i c ne unused h free = record {
  agrees = λ g ng.
      ground (arith, c.agrees g ng, c.agrees fresh ne, refs-update s.fd_table g i fresh max_fd);
}

-- What closing a file does to the counts, whether it was the last reference or not.
released : ℕ → Files → ℕ → File
released file s =
    update s.files file (record (s.files file) { ref_count = (s.files file).ref_count -ℤ pos 1 })

files-file_close : (file : ℕ) (s : Files) → file ≢ 0 → (file_close file s).files ≡ released file s
unfolding file_close released
files-file_close file s ne =
    ground (arith, files-vfs_close (s.files file).inode (record s { files = released file s }))

table-file_close : (file : ℕ) (s : Files) → (file_close file s).fd_table ≡ s.fd_table
unfolding file_close released
table-file_close file s =
    ground (arith, table-vfs_close (s.files file).inode (record s { files = released file s }))

-- One descriptor of a file given up, and one reference with it.
drop_reference :
    {s : Files} (t : Files) (i : ℕ)
    → IsCounted s
    → i < max_fd
    → s.fd_table i ≢ 0
    → t.files ≡ released (s.fd_table i) s
    → t.fd_table ≡ update s.fd_table i 0
    → IsCounted t
unfolding released ◌-ℤ◌
drop_reference {s} t i c h used fs tb = record {
  agrees = λ g ne.
      rw (fs, tb)
        (ground (
          arith,
          c.agrees g ne,
          refs-update s.fd_table g i 0 max_fd,
          refs-pos s.fd_table i max_fd h,
        ));
}

-- Where the reference count of every file is the number of descriptors that refer to it, that
-- holds after sys_dup of any descriptor, whether it succeeds or fails.
pub dup-IsCounted : (s : Files) (oldfd : ℤ) → IsCounted s → IsCounted (sys_dup oldfd s).1
unfolding sys_dup
dup-IsCounted s oldfd c = elim (Bool-cases (not s.process)) [
  | inl none_there ↦ rw none_there c
  | inr there ↦ rw there (elim (Bool-cases (fd_get oldfd s == 0)) [
    | inl null ↦ rw null c
    | inr file ↦ rw file (elim (ℤ-cases (fd_alloc s)) [
      | inl (n, full) ↦ rw (full, sys_dup) c
      | inr (n, free) ↦
          rw (free, sys_dup)
            (retain-install (fd_get oldfd s) n c (fd_alloc_lem s n free).0
              (fd_alloc_lem s n free).1)
    ])
  ])
]

-- Where the reference count of every file is the number of descriptors that refer to it, that
-- holds after sys_close of any descriptor.
pub close-IsCounted : (s : Files) (fd : ℤ) → IsCounted s → IsCounted (sys_close fd s).1
unfolding sys_close fd_get fd_free released
close-IsCounted s (negsuc n) c = c
close-IsCounted s (pos fd) c = elim (Bool-cases (not s.process || leb max_fd fd)) [
  | inl out ↦ rw out c
  | inr inside ↦ rw inside (elim (Bool-cases (s.fd_table fd == 0)) [
    | inl null ↦ rw null c
    | inr file ↦
        let t = record s { fd_table = update s.fd_table fd 0 } in
        rw file (
          drop_reference (file_close (s.fd_table fd) t) fd c (ground arith) (ground arith)
            (files-file_close (s.fd_table fd) t (ground arith))
            (table-file_close (s.fd_table fd) t))
  ])
]

-- What `sys_dup2` leaves of the file that the new descriptor had.
cleared : ℕ → Files → Files
cleared newfd s =
    if s.fd_table newfd == 0 then s else install newfd 0 (file_close (s.fd_table newfd) s)

cleared-IsCounted :
    {s : Files} (newfd : ℕ)
    → newfd < max_fd
    → IsCounted s
    → IsCounted (cleared newfd s) × ((cleared newfd s).fd_table newfd ≡ 0)
unfolding cleared install
cleared-IsCounted {s} newfd h c = elim (Bool-cases (s.fd_table newfd == 0)) [
  | inl free ↦ rw free (c, ground arith)
  | inr taken ↦
      let f = s.fd_table newfd in
      rw taken (
        drop_reference (install newfd 0 (file_close f s)) newfd c h (ground arith)
            (files-file_close f s (ground arith))
            (ap (λ t. update t newfd 0) (table-file_close f s)),
        ground arith,
      )
]

dup2_lem :
    (s : Files) (oldfd : ℤ) (newfd : ℕ)
    → newfd < max_fd
    → ((sys_dup2 oldfd (pos newfd) s).1 ≡ s)
      ⊎ ((sys_dup2 oldfd (pos newfd) s).1
          ≡ install newfd (fd_get oldfd s) (retain (fd_get oldfd s) (cleared newfd s)))
unfolding sys_dup2 cleared fd_get
dup2_lem s oldfd newfd h = ground arith

-- Where the reference count of every file is the number of descriptors that refer to it, that
-- holds after sys_dup2 to any descriptor of the table, also one that is open.
dup2-IsCounted :
    (s : Files) (oldfd : ℤ) (newfd : ℕ)
    → newfd < max_fd
    → IsCounted s
    → IsCounted (sys_dup2 oldfd (pos newfd) s).1
dup2-IsCounted s oldfd newfd h c = elim (dup2_lem s oldfd newfd h) [
  | inl same ↦ rw same c
  | inr moved ↦
      let (c', free) = cleared-IsCounted newfd h c in
      rw moved (retain-install (fd_get oldfd s) newfd c' h free)
]

-- With the new descriptor equal to MAX_FD, one past the last index of the table, `sys_dup2` of an
-- open descriptor is not refused: it returns MAX_FD and stores the file behind the table.
pub dup2_past_end :
    (s : Files) (oldfd : ℕ)
    → s.process ≡ true
    → oldfd < max_fd
    → s.fd_table oldfd ≢ 0
    → let (code, t) = sys_dup2 (pos oldfd) (pos max_fd) s in
      (code ≡ pos max_fd) × (t.fd_table max_fd ≡ s.fd_table oldfd)
unfolding sys_dup2 fd_get install retain
dup2_past_end s oldfd proc h open_file = (ground arith, ground arith)
