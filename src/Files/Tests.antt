-- ===== src/Files/Tests.antt =====
-- The theorems on open files at a process with one open file.
use valerioedx.Base.{ℕ, ◌≡◌, ◌≢◌, refl, true, false, [], pos, arith, ap, sym}
use valerioedx.Files.{
  Files, Inode, max_fd, sys_close, fd_alloc, fd_search, fd_get, file_new, install, vfs_open,
}
use valerioedx.Files.Counts.{IsCounted, refs-zero}
use valerioedx.Files.Dup.{close-IsCounted, new-IsCounted}
use valerioedx.Files.Attributes.Guard.{SameAttributes, fchmod, request, request-SameAttributes}

-- The inode of a regular file, and that of a block device.
abbrev node : ℕ → Inode
node kind = record {
  flags = kind;
  uid = 5;
  gid = 5;
  mode = 420;
  size = 100;
  ref_count = pos 1;
  has_open = false;
  has_close = true;
}

-- A process with no open file, whose inodes are of one kind.
abbrev fresh : ℕ → Files
fresh kind = record {
  process = true;
  fd_table = λ fd. 0;
  files = λ f. record { inode = 0; offset = 0; flags = 0; ref_count = pos 0 };
  inodes = λ i. node kind;
  events = [];
}

-- Descriptor 3 refers to the file at address 7, whose inode is at address 9.
abbrev state : ℕ → Files
state kind = install 3 7 (file_new 7 9 1 (fresh kind)).1

state-IsCounted : IsCounted (state 1)
state-IsCounted =
    new-IsCounted 7 9 1 3
      (record { agrees = λ f ne. ap pos (sym (refs-zero (λ fd. 0) f max_fd (λ i. refl) ne)) })
      (omega arith) refl (omega arith) refl

close_example : IsCounted (sys_close (pos 3) (state 1)).1
close_example = close-IsCounted (state 1) (pos 3) state-IsCounted

open_file : (state 1).fd_table 3 ≢ 0
unfolding install file_new
open_file = omega arith

proc : (state 1).process ≡ true
unfolding install file_new vfs_open
proc = refl

abbrev device : Files
device = state 4

device_proc : device.process ≡ true
unfolding install file_new vfs_open
device_proc = refl

device_open : fd_get (pos 3) device ≢ 0
unfolding install file_new vfs_open fd_get
device_open = omega arith

lowest_descriptor : fd_alloc (state 1) ≡ pos 0
unfolding fd_alloc fd_search install file_new vfs_open
lowest_descriptor = refl

request_example :
    SameAttributes
      ((state 1).inodes 9)
      ((request (fchmod (pos 3) 511) (λ t. (9, t)) 6 (state 1)).1.inodes 9)
unfolding install file_new vfs_open
request_example =
    request-SameAttributes (fchmod (pos 3) 511) (λ t. (9, t)) 6 (state 1) 9
      (λ t. record { uid = refl; gid = refl; mode = refl; flags = refl }) (omega arith)
      (omega arith)
