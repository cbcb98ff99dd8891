-- ===== src/Fat32/Files/Tests.antt =====
-- A volume with one sector of FAT, and a file of two clusters on it.
use valerioedx.Base.{
  member, ℕ, false, ◌+◌, ◌-◌, ◌*◌, ◌/◌, ◌%◌, ◌^◌, ◌<◌, ◌≡◌, refl, true, ◌||◌, [], ◌∷◌, ltb, ◌==◌,
  if◌then◌else◌, min, arith,
}
use valerioedx.Fat32.{
  Disk, Fs, end_of_chain, word, fat_at, data_at, get_next_cluster, free_cluster_chain,
  allocate_cluster,
}
use valerioedx.Fat32.Volume.{IsVolume, IsCluster}
use valerioedx.Fat32.Chain.{Linked, byte_at}
use valerioedx.Fat32.Leak.{allocate_cluster_leak}
use valerioedx.Fat32.Release.{free_cluster_chain_lem}
use valerioedx.Fat32.Files.{Fat32File, fat32_read_file}
use valerioedx.Fat32.Files.Writing.{fat32_write_file}
use valerioedx.Fat32.Files.Entry.{DirApart}
use valerioedx.Fat32.Files.Read.{fat32_read_file_lem}
use valerioedx.Fat32.Files.Again.{fat32_read_file-fat32_write_file}
use valerioedx.Fat32.Files.Write.{FileWritten, fat32_write_file_lem}

abbrev small_fs : Fs
small_fs = record {
  sectors_per_cluster = 1;
  bytes_per_cluster = 512;
  fat_begin_lba = 0;
  cluster_begin_lba = 1;
  root_cluster = 5;
  total_clusters = 128;
}

small_fs-IsVolume : IsVolume small_fs 128
small_fs-IsVolume = record {
  cluster_size = refl;
  not_empty = omega arith;
  fat_in_front = omega arith;
  data_inside = omega arith;
  reserved = omega arith;
  numbers = omega arith;
  searched = omega arith;
}

-- Cluster 2 leads to 3, which is the last, and 5 holds the directory.
abbrev fat_entries : ℕ → ℕ
fat_entries c = if c == 2 then 3 else if (c == 3) || (c == 5) then end_of_chain else 0

abbrev two_clusters : Disk
two_clusters i = if ltb i 512 then fat_entries (i / 4) / 256 ^ (i % 4) % 256 else i * 7 % 256

abbrev file : Fat32File
file = record {
  size = 700;
  blocks = 2;
  atime = 0;
  mtime = 0;
  first_cluster = 2;
  dir_entry_cluster = 5;
  dir_entry_offset = 64;
}

next_clusters :
    (get_next_cluster small_fs 2 two_clusters ≡ 3)
    × (get_next_cluster small_fs 3 two_clusters ≡ end_of_chain)
    × (get_next_cluster small_fs 5 two_clusters ≡ end_of_chain)
unfolding get_next_cluster word fat_at
next_clusters = (refl, refl, refl)

file-Linked : Linked small_fs 128 two_clusters (2 ∷ 3 ∷ [])
file-Linked = (
  (omega arith, omega arith),
  next_clusters.0,
  (omega arith, tt),
  ((omega arith, omega arith), omega (arith, next_clusters.1), tt, tt),
)

directory-DirApart : DirApart small_fs 128 5 two_clusters (2 ∷ 3 ∷ [])
directory-DirApart two =
    ((omega arith, omega arith), omega (arith, next_clusters.2), (omega arith, (omega arith, tt)))

fat32_read_file_example :
    let n = min 400 (700 - 500) in
    let o = fat32_read_file small_fs true true 0 0 (λ i. 9) file 500 400 (λ i. 1) two_clusters in
    (o.count ≡ n)
    × ((i : ℕ)
        → o.buffer i
          ≡ (if ltb i n then byte_at small_fs two_clusters (2 ∷ 3 ∷ []) (500 + i) else 1))
fat32_read_file_example =
    fat32_read_file_lem small_fs-IsVolume (3 ∷ []) true 0 0 (λ i. 9) file 500 400 (λ i. 1)
      two_clusters file-Linked (omega arith) (omega arith) (omega arith)

fat32_write_file_example :
    FileWritten small_fs 128 file 1000 100
      (λ i. i)
      two_clusters
      (2 ∷ 3 ∷ [])
      (fat32_write_file small_fs true true true 0 0 (λ i. 9) file 1000 100 (λ i. i) two_clusters)
fat32_write_file_example =
    fat32_write_file_lem small_fs-IsVolume (2 ∷ 3 ∷ []) true 0 0 (λ i. 9) file 1000 100 (λ i. i)
      two_clusters file-Linked refl directory-DirApart (omega arith)

free_cluster_chain_example :
    let d' = free_cluster_chain small_fs 2 2 two_clusters in
    ((x : ℕ)
      → x < 128
      → get_next_cluster small_fs x d'
        ≡ (if member x (2 ∷ 3 ∷ []) then 0 else get_next_cluster small_fs x two_clusters))
    × ((x i : ℕ)
        → IsCluster 128 x
        → d' (data_at small_fs x + i) ≡ two_clusters (data_at small_fs x + i))
free_cluster_chain_example =
    free_cluster_chain_lem small_fs-IsVolume 2 2 (3 ∷ []) two_clusters file-Linked (omega arith)

written_again_example :
    let o =
      fat32_write_file small_fs true true true 0 0 (λ i. 9) file 1000 100 (λ i. i) two_clusters in
    let r = fat32_read_file small_fs true true 0 0 (λ i. 9) o.node 1000 o.count (λ i. 4) o.disk in
    (r.count ≡ o.count) × ((i : ℕ) → i < o.count → r.buffer i ≡ i)
written_again_example =
    fat32_read_file-fat32_write_file small_fs-IsVolume (2 ∷ 3 ∷ []) true 0 0 (λ i. 9) file 1000 100
      (λ i. i) (λ i. 4) two_clusters file-Linked refl directory-DirApart (omega arith) (omega arith)
      (omega arith)

cluster_4 : get_next_cluster small_fs 4 two_clusters ≡ 0
unfolding get_next_cluster word fat_at
cluster_4 = refl

allocate_cluster_example :
    let r = allocate_cluster small_fs false 3 two_clusters in
    (n : ℕ) × IsCluster 128 n
    × (r.0 ≡ 0)
    × (get_next_cluster small_fs 3 r.1 ≡ n)
    × (get_next_cluster small_fs n r.1 ≡ 0)
allocate_cluster_example =
    allocate_cluster_leak small_fs-IsVolume 3 4 two_clusters (omega arith, omega arith)
      (omega (arith, next_clusters.1)) (omega arith) (omega arith) cluster_4
