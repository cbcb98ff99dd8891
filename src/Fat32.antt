-- ===== src/Fat32.antt =====
-- The FAT32 file system: kernel/fs/fat32.c. The device is a function from offsets to bytes, whose reads and
-- writes succeed; a sector that is read, changed in one entry and written is that entry written. Offsets
-- are computed in 32 bits.
pub mod Dates
pub mod Files
pub mod Volume
pub mod Chain
pub mod Allocate
pub mod Leak
pub mod Release
pub mod Names
use valerioedx.Base.{
  ℕ, zero, suc, ◌+◌, ◌-◌, ◌*◌, ◌/◌, ◌%◌, ◌^◌, Bool, true, false, ◌&&◌, ltb, leb, ◌==◌,
  if◌then◌else◌,
}

abbrev pub Disk : Type 0
Disk = ℕ → ℕ

-- `fat32_fs_t`.
pub record Fs : Type 0 where
  pub sectors_per_cluster : ℕ
  pub bytes_per_cluster : ℕ
  pub fat_begin_lba : ℕ
  pub cluster_begin_lba : ℕ
  pub root_cluster : ℕ
  pub total_clusters : ℕ

-- FAT_EOC.
abbrev pub end_of_chain : ℕ
end_of_chain = 0x0FFFFFF8

-- `*(u32*)`, the low byte first.
pub word : Disk → ℕ → ℕ
word d a =
    d a % 256 + 2 ^ 8 * (d (a + 1) % 256) + 2 ^ 16 * (d (a + 2) % 256) + 2 ^ 24 * (d (a + 3) % 256)

pub put_word : (a w : ℕ) → Disk → Disk
put_word a w d x =
    if x == a
    then w % 256
    else if x == a + 1
    then w / 2 ^ 8 % 256
    else if x == a + 2
    then w / 2 ^ 16 % 256
    else if x == a + 3
    then w / 2 ^ 24 % 256
    else d x

-- Where the entry of a cluster lies: `fat_sector * 512`, and `ent_offset`.
pub fat_at : Fs → ℕ → ℕ
fat_at fs cluster =
    let fat_offset = cluster * 4 % 2 ^ 32 in
    (fs.fat_begin_lba + fat_offset / 512) * 512 % 2 ^ 32 + fat_offset % 512

-- `lba * 512`.
pub data_at : Fs → ℕ → ℕ
data_at fs cluster =
    (fs.cluster_begin_lba + (cluster - 2) * fs.sectors_per_cluster) % 2 ^ 32 * 512 % 2 ^ 32

-- The buffer behind the call; nothing is read into it for a cluster below 2.
pub read_cluster : Fs → (cluster : ℕ) (buffer : ℕ → ℕ) → Disk → ℕ → ℕ
read_cluster fs cluster buffer d i =
    if ltb cluster 2
    then buffer i
    else if ltb i fs.bytes_per_cluster
    then d (data_at fs cluster + i)
    else buffer i

pub write_cluster : Fs → (cluster : ℕ) (buffer : ℕ → ℕ) → Disk → Disk
write_cluster fs cluster buffer d x =
    let base = data_at fs cluster in
    if ltb cluster 2
    then d x
    else if leb base x && ltb x (base + fs.bytes_per_cluster)
    then buffer (x - base)
    else d x

pub get_next_cluster : Fs → (current_cluster : ℕ) → Disk → ℕ
get_next_cluster fs current_cluster d = word d (fat_at fs current_cluster) % 2 ^ 28

-- The top four bits stay.
pub set_cluster_value : Fs → (cluster value : ℕ) → Disk → Disk
set_cluster_value fs cluster value d =
    let entry = word d (fat_at fs cluster) in
    put_word (fat_at fs cluster) (entry / 2 ^ 28 * 2 ^ 28 + value % 2 ^ 28) d

-- The entries of a sector follow those of the sector before it, so that both loops are one, with `left`
-- entries to go; 0 where none is free.
pub find_free : Fs → (left cluster : ℕ) → Disk → ℕ
find_free fs zero cluster d = 0
find_free fs (suc left) cluster d =
    let later = find_free fs left (cluster + 1) d in
    if ltb cluster 2 then later else if get_next_cluster fs cluster d == 0 then cluster else later

abbrev pub fat_sectors : Fs → ℕ
fat_sectors fs = (fs.total_clusters * 4 + 511) % 2 ^ 32 / 512

pub find_free_cluster : Fs → Disk → ℕ
find_free_cluster fs d = find_free fs (fat_sectors fs * 128) 0 d

-- `room`: whether kmalloc gives the buffer of zeros.
pub allocate_cluster : Fs → (room : Bool) (prev_cluster : ℕ) → Disk → ℕ × Disk
allocate_cluster fs room prev_cluster d =
    let new_cluster = find_free_cluster fs d in
    let d1 = set_cluster_value fs new_cluster end_of_chain d in
    let d2 = if leb 2 prev_cluster then set_cluster_value fs prev_cluster new_cluster d1 else d1 in
    if new_cluster == 0
    then (0, d)
    else if room
    then (new_cluster, write_cluster fs new_cluster (λ i. 0) d2)
    else (0, set_cluster_value fs new_cluster 0 d2)

-- `while (cluster >= 2 && cluster < FAT_EOC)`, by the rounds left.
pub free_cluster_chain : Fs → (rounds cluster : ℕ) → Disk → Disk
free_cluster_chain fs zero cluster d = d
free_cluster_chain fs (suc rounds) cluster d =
    let rest =
      free_cluster_chain fs rounds (get_next_cluster fs cluster d)
        (set_cluster_value fs cluster 0 d) in
    if leb 2 cluster && ltb cluster end_of_chain then rest else d
