-- ===== src/Files/Close.antt =====
-- Opening and closing a file against the reference count of its inode.
use valerioedx.Base.{ℕ, ◌+◌, ◌≡◌, ◌≢◌, false, ◌∷◌, pos, ◌+ℤ◌, ◌-ℤ◌, arith}
use valerioedx.Files.{Files, freed_file, vfs_open, vfs_close, file_new, file_close}

-- A file made for an inode that has a reference, and closed again, leaves that reference: the inode
-- is neither evicted from the page cache nor closed, and has the count that it had before.
pub close-new :
    (fresh node flags n : ℕ) (s : Files)
    → fresh ≢ 0
    → node ≢ 0
    → (s.inodes node).ref_count ≡ pos (n + 1)
    → (s.inodes node).has_open ≡ false
    → let (file, t) = file_new fresh node flags s in
      let u = file_close file t in
      (file ≡ fresh)
      × ((u.inodes node).ref_count ≡ pos (n + 1))
      × (u.events ≡ freed_file fresh ∷ s.events)
unfolding file_new file_close vfs_open vfs_close ◌+ℤ◌ ◌-ℤ◌
close-new fresh node flags n s ne ne' count quiet = (ground arith, ground arith, ground arith)
