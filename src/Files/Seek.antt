-- ===== src/Files/Seek.antt =====
-- `sys_lseek` of kernel/syscalls/dup.c.
use valerioedx.Base.{
  ℕ, ◌%◌, ◌^◌, ◌<◌, ◌≡◌, ◌≢◌, true, not, ◌||◌, ◌==◌, if◌then◌else◌, ℤ, pos, negsuc, arith,
}
use valerioedx.Files.{Files, fd_get, seek_target, sys_lseek}

-- With SEEK_SET and an offset below 2^63, `sys_lseek` on an open descriptor stores the offset and
-- returns it exactly when the offset is not 0 and the kind of the inode has none of the two lowest
-- bits. Otherwise, so for every regular file (1), directory (2) and character device (3), and for
-- the start of any file, it returns -1 and the offset stays.
pub lseek_set :
    (s : Files) (fd : ℤ) (n : ℕ)
    → s.process ≡ true
    → fd_get fd s ≢ 0
    → n < 2 ^ 63
    → let (code, t) = sys_lseek fd (pos n) 0 s in
      let refused = not ((s.inodes (s.files (fd_get fd s)).inode).flags % 4 == 0) || (n == 0) in
      (code ≡ (if refused then negsuc 0 else pos n))
      × ((t.files (fd_get fd s)).offset ≡ (if refused then (s.files (fd_get fd s)).offset else n))
unfolding sys_lseek seek_target
lseek_set s fd n proc open_file small = (ground arith, ground arith)
