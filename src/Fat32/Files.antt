-- ===== src/Fat32/Files.antt =====
-- Reading of files: fat32_read_file of kernel/fs/fat32.c. `now` is the date
-- and time of `get_fat_now`, and `scratch` what a buffer of kmalloc holds. A loop has a round for each
-- byte that is asked for.
pub mod Writing
mod Stored
mod Skips
mod Reads
mod Read
mod Advance
mod Rounds
mod Steps
mod Loop
mod Extend
mod Entry
mod Placing
mod Outcomes
mod Write
mod Again
mod Tests
use valerioedx.Base.{
  ℕ, zero, suc, ◌+◌, ◌-◌, ◌*◌, ◌/◌, ◌%◌, ◌^◌, Bool, true, false, ◌&&◌, ◌||◌, not, Option, none,
  some, ltb, leb, ◌==◌, if◌then◌else◌, min,
}
use valerioedx.Fat32.{Disk, Fs, end_of_chain, read_cluster, write_cluster, get_next_cluster}
use valerioedx.Fat32.Dates.{fat_to_unix}

-- The fields of the inode and of its `fat32_file_t`.
pub record Fat32File : Type 0 where
  pub size : ℕ
  pub blocks : ℕ
  pub atime : ℕ
  pub mtime : ℕ
  pub first_cluster : ℕ
  pub dir_entry_cluster : ℕ
  pub dir_entry_offset : ℕ

-- `memcpy` into a buffer.
abbrev pub copy_over : (to n : ℕ) (source : ℕ → ℕ) (buffer : ℕ → ℕ) → ℕ → ℕ
copy_over to n source buffer i = if leb to i && ltb i (to + n) then source (i - to) else buffer i

-- A store of 16 bits, the low byte first.
abbrev pub put_half : (a w : ℕ) (buffer : ℕ → ℕ) → ℕ → ℕ
put_half a w buffer i = if i == a then w % 256 else if i == a + 1 then w / 256 % 256 else buffer i

-- The loop over `clusters_to_skip`; nothing at the end of the chain.
pub skip_clusters : Fs → (rounds cluster : ℕ) → Disk → Option ℕ
skip_clusters fs zero cluster d = some cluster
skip_clusters fs (suc rounds) cluster d =
    let next = get_next_cluster fs cluster d in
    let rest = skip_clusters fs rounds next d in if leb end_of_chain next then none else rest

-- The number of bytes read, and the buffer of the caller.
pub read_loop :
    Fs → (rounds cluster chunk_offset read size : ℕ) (cl_buf buffer : ℕ → ℕ) → Disk → ℕ × (ℕ → ℕ)
read_loop fs zero cluster chunk_offset read size cl_buf buffer d = (read, buffer)
read_loop fs (suc rounds) cluster chunk_offset read size cl_buf buffer d =
    let cl_buf' = read_cluster fs cluster cl_buf d in
    let to_copy = min (fs.bytes_per_cluster - chunk_offset) (size - read) in
    let buffer' = copy_over read to_copy (λ i. cl_buf' (chunk_offset + i)) buffer in
    let rest =
      read_loop fs rounds (get_next_cluster fs cluster d) 0 (read + to_copy) size cl_buf' buffer'
        d in
    if ltb read size && not (leb end_of_chain cluster) then rest else (read, buffer)

-- The fields of the directory entry that are written: the date of access; after a write also the size, the
-- first cluster, and the date and time of writing.
pub stamp_access : (date at : ℕ) (buffer : ℕ → ℕ) → ℕ → ℕ
stamp_access date at buffer = put_half (at + 18) date buffer

pub stamp_write : (date time at : ℕ) → Fat32File → (buffer : ℕ → ℕ) → ℕ → ℕ
stamp_write date time at node buffer =
    let sized = put_half (at + 30) (node.size / 2 ^ 16) (put_half (at + 28) node.size buffer) in
    let placed =
      put_half (at + 20) (node.first_cluster / 2 ^ 16)
        (put_half (at + 26) node.first_cluster sized) in
    put_half (at + 18) date (put_half (at + 22) time (put_half (at + 24) date placed))

-- The directory entry is read, changed and written, where there is one and kmalloc gives a buffer.
pub update_entry :
    Fs → (room : Bool) (change : (ℕ → ℕ) → ℕ → ℕ) → Fat32File → (scratch : ℕ → ℕ) → Disk → Disk
update_entry fs room change node scratch d =
    if leb 2 node.dir_entry_cluster && room
    then write_cluster fs node.dir_entry_cluster
        (change (read_cluster fs node.dir_entry_cluster scratch d)) d
    else d

-- What a call leaves: the number of bytes, the buffer, the inode and the device.
pub record Fat32Result : Type 0 where
  pub count : ℕ
  pub buffer : ℕ → ℕ
  pub node : Fat32File
  pub disk : Disk

-- `room` and `dir_room` are what kmalloc answers. The sum of the offset and the size has 64 bits.
pub fat32_read_file :
    Fs
    → (room dir_room : Bool) (date time : ℕ) (scratch : ℕ → ℕ) → Fat32File
    → (offset size : ℕ) (buffer : ℕ → ℕ) → Disk
    → Fat32Result
fat32_read_file fs room dir_room date time scratch node offset size buffer d =
    let unchanged : Fat32Result = record { count = 0; buffer = buffer; node = node; disk = d } in
    let asked = if ltb node.size ((offset + size) % 2 ^ 64) then node.size - offset else size in
    let skipped = skip_clusters fs (offset / fs.bytes_per_cluster % 2 ^ 32) node.first_cluster d in
    if leb node.size offset || (asked == 0) then unchanged else elim skipped [
      | none ↦ unchanged
      | some cluster ↦
          let (read, buffer') =
            read_loop fs asked cluster (offset % fs.bytes_per_cluster) 0 asked scratch buffer d in
          if not room then unchanged else record {
            count = read;
            buffer = buffer';
            node = record node { atime = fat_to_unix date time };
            disk =
                update_entry fs dir_room (stamp_access date node.dir_entry_offset) node scratch d;
          }
    ]
