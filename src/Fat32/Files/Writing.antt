-- ===== src/Fat32/Files/Writing.antt =====
-- Writing of files: fat32_write_file of kernel/fs/fat32.c.
use valerioedx.Base.{
  ℕ, zero, suc, ◌+◌, ◌-◌, ◌/◌, ◌%◌, ◌^◌, Bool, ◌&&◌, not, Option, none, some, ltb, leb, ◌==◌,
  if◌then◌else◌, min,
}
use valerioedx.Fat32.{
  Disk, Fs, end_of_chain, read_cluster, write_cluster, get_next_cluster, allocate_cluster,
}
use valerioedx.Fat32.Dates.{fat_to_unix}
use valerioedx.Fat32.Files.{Fat32File, Fat32Result, copy_over, stamp_write, update_entry}

-- A cluster that was allocated, or nothing for 0.
abbrev pub allocated : ℕ × Disk → Option ℕ × Disk
allocated (c, d) = if c == 0 then (none, d) else (some c, d)

-- The next cluster of a file, which is allocated where there is none.
unfoldable pub next_or_new : Fs → (room : Bool) (cluster : ℕ) → Disk → Option ℕ × Disk
next_or_new fs room cluster d =
    let next = get_next_cluster fs cluster d in
    if leb end_of_chain next then allocated (allocate_cluster fs room cluster d) else (some next, d)

-- Nothing where no cluster can be had.
unfoldable pub skip_or_extend : Fs → (room : Bool) (rounds cluster : ℕ) → Disk → Option ℕ × Disk
skip_or_extend fs room zero cluster d = (some cluster, d)
skip_or_extend fs room (suc rounds) cluster d =
    let (next, d') = next_or_new fs room cluster d in
    elim next [ none ↦ (none, d') | some c ↦ skip_or_extend fs room rounds c d' ]

unfoldable pub write_loop :
    Fs
    → (room : Bool) (rounds cluster chunk_offset written size : ℕ) (cl_buf buffer : ℕ → ℕ) → Disk
    → ℕ × Disk
write_loop fs room zero cluster chunk_offset written size cl_buf buffer d = (written, d)
write_loop fs room (suc rounds) cluster chunk_offset written size cl_buf buffer d =
    let to_write = min (fs.bytes_per_cluster - chunk_offset) (size - written) in
    let cl_buf' =
      copy_over chunk_offset to_write (λ i. buffer (written + i))
        (read_cluster fs cluster cl_buf d) in
    let d1 = write_cluster fs cluster cl_buf' d in
    let (next, d2) = next_or_new fs room cluster d1 in
    let rest : ℕ × Disk = elim next [
      | none ↦ (written + to_write, d2)
      | some c ↦ write_loop fs room rounds c 0 (written + to_write) size cl_buf' buffer d2
    ] in
    if ltb written size
    then (if ltb (written + to_write) size then rest else (written + to_write, d1))
    else (written, d)

-- The first cluster of a file, which is allocated where it has none.
unfoldable pub first_or_new : Fs → (room : Bool) → Fat32File → Disk → Option ℕ × Disk
first_or_new fs room node d =
    if ltb node.first_cluster 2
    then allocated (allocate_cluster fs room 0 d)
    else (some node.first_cluster, d)

-- The inode with the bytes up to `end`.
abbrev pub grown : (end : ℕ) → Fat32File → Fat32File
grown end node =
    if ltb node.size end then record node { size = end; blocks = (end + 511) / 512 } else node

-- `new_room` is what kmalloc answers to allocate_cluster, `room` to the buffer for a cluster, and
-- `dir_room` to that for the directory.
unfoldable pub fat32_write_file :
    Fs
    → (new_room room dir_room : Bool) (date time : ℕ) (scratch : ℕ → ℕ) → Fat32File
    → (offset size : ℕ) (buffer : ℕ → ℕ) → Disk
    → Fat32Result
fat32_write_file fs new_room room dir_room date time scratch node offset size buffer d =
    let failed : Fat32File → Disk → Fat32Result =
      λ n d'. record { count = 0; buffer = buffer; node = n; disk = d' } in
    let (first, d1) = first_or_new fs new_room node d in
    if size == 0 then failed node d else elim first [
      | none ↦ failed node d1
      | some cluster ↦
          let placed = record node { first_cluster = cluster } in
          let (found, d2) =
            skip_or_extend fs new_room (offset / fs.bytes_per_cluster % 2 ^ 32) cluster d1 in
          elim found [
            | none ↦ failed placed d2
            | some start ↦
                let (written, d3) =
                  write_loop fs new_room size start (offset % fs.bytes_per_cluster) 0 size scratch
                    buffer d2 in
                let sized = grown (offset + written) placed in
                let stamp = fat_to_unix date time in
                let stamped = leb 2 node.dir_entry_cluster && dir_room in
                if not room then failed placed d2 else record {
                  count = written;
                  buffer = buffer;
                  node = if stamped then record sized { mtime = stamp; atime = stamp } else sized;
                  disk =
                      update_entry fs dir_room (stamp_write date time node.dir_entry_offset sized)
                        sized scratch d3;
                }
          ]
    ]
