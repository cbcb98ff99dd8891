-- ===== src/Fat32/Volume.antt =====
-- On a volume whose areas do not overlap, entries of the FAT and clusters are like the cells of two arrays.
use valerioedx.Base.{ℕ, ◌+◌, ◌-◌, ◌*◌, ◌/◌, ◌%◌, ◌^◌, ◌≤◌, ◌<◌, ◌≡◌, ◌≢◌, arith, ap, sym, ◌∙◌}
use valerioedx.Fat32.{
  Disk, Fs, end_of_chain, word, put_word, fat_at, data_at, write_cluster, get_next_cluster,
  set_cluster_value, fat_sectors,
}
use native.Mathlib.Nat.{mul-le-mul_right, add-mul, one-mul, mul_assoc}

-- The clusters below `limit` have entries in front of the data, all below 2^32 bytes, and no entry that
-- is searched lies at `limit` or above.
pub record IsVolume (fs : Fs) (limit : ℕ) : Type 0 where
  pub cluster_size : fs.bytes_per_cluster ≡ fs.sectors_per_cluster * 512
  pub not_empty : 0 < fs.sectors_per_cluster
  pub fat_in_front : fs.fat_begin_lba * 512 + limit * 4 ≤ fs.cluster_begin_lba * 512
  pub data_inside : (fs.cluster_begin_lba + limit * fs.sectors_per_cluster) * 512 ≤ 2 ^ 32
  pub reserved : 2 ≤ limit
  pub numbers : limit ≤ end_of_chain
  pub searched : fat_sectors fs * 128 ≤ limit

abbrev pub IsCluster : (limit c : ℕ) → Type 0
IsCluster limit c = (2 ≤ c) × (c < limit)

pub next_multiple : (a b base : ℕ) → a + 1 ≤ b → a * base + base ≤ b * base
next_multiple a b base h = omega (arith, mul-le-mul_right base h, add-mul a 1 base, one-mul base)

-- An entry is read as it was written.
word-put_word : (a w : ℕ) (d : Disk) → w < 2 ^ 32 → word (put_word a w d) a ≡ w
unfolding word put_word
word-put_word a w d h = ground arith

byte_sum : (d : Disk) (a : ℕ) → word d a < 2 ^ 32
unfolding word
byte_sum d a = omega arith

low_bits : (w value : ℕ) → (w / 2 ^ 28 * 2 ^ 28 + value % 2 ^ 28) % 2 ^ 28 ≡ value % 2 ^ 28
low_bits w value = omega arith

module _ {fs : Fs} {limit : ℕ} (v : IsVolume fs limit) where
  pub fat_place : (c : ℕ) → c < limit → fat_at fs c ≡ fs.fat_begin_lba * 512 + c * 4
  unfolding fat_at
  fat_place c h = omega (arith, v.fat_in_front, v.data_inside, v.numbers)

  pub data_place :
      (c : ℕ)
      → IsCluster limit c
      → data_at fs c ≡ fs.cluster_begin_lba * 512 + (c - 2) * fs.bytes_per_cluster
  unfolding data_at
  data_place c h =
      let below = next_multiple (c - 2) limit fs.sectors_per_cluster (omega (arith, h)) in
      let bytes : (c - 2) * fs.bytes_per_cluster ≡ (c - 2) * fs.sectors_per_cluster * 512 =
        rw v.cluster_size (sym (mul_assoc (c - 2) fs.sectors_per_cluster 512)) in
      omega (arith, v.data_inside, v.not_empty, below, bytes)

  -- Different clusters do not overlap, and lie behind the FAT.
  pub data_apart :
      (c c' : ℕ)
      → IsCluster limit c
      → IsCluster limit c'
      → c < c'
      → data_at fs c + fs.bytes_per_cluster ≤ data_at fs c'
  data_apart c c' h h' l = omega (
    arith,
    data_place c h,
    data_place c' h',
    next_multiple (c - 2) (c' - 2) fs.bytes_per_cluster (omega (arith, h, h', l)),
  )

  pub fat_before_data :
      (c c' : ℕ) → c < limit → IsCluster limit c' → fat_at fs c + 4 ≤ data_at fs c'
  fat_before_data c c' h h' = omega (arith, fat_place c h, data_place c' h', v.fat_in_front)

  pub next-set_same :
      (c value : ℕ) (d : Disk)
      → c < limit
      → get_next_cluster fs c (set_cluster_value fs c value d) ≡ value % 2 ^ 28
  unfolding get_next_cluster set_cluster_value
  next-set_same c value d h =
      let w = word d (fat_at fs c) in
      let small : w / 2 ^ 28 * 2 ^ 28 + value % 2 ^ 28 < 2 ^ 32 =
        omega (arith, byte_sum d (fat_at fs c)) in
      ap (λ x. x % 2 ^ 28) (word-put_word (fat_at fs c) _ d small) ∙ low_bits w value

  pub next-set_other :
      (c c' value : ℕ) (d : Disk)
      → c < limit
      → c' < limit
      → c ≢ c'
      → get_next_cluster fs c' (set_cluster_value fs c value d) ≡ get_next_cluster fs c' d
  unfolding get_next_cluster set_cluster_value word put_word
  next-set_other c c' value d h h' ne = ground (arith, fat_place c h, fat_place c' h')

  pub data-set :
      (c c' value i : ℕ) (d : Disk)
      → c < limit
      → IsCluster limit c'
      → set_cluster_value fs c value d (data_at fs c' + i) ≡ d (data_at fs c' + i)
  unfolding set_cluster_value put_word
  data-set c c' value i d h h' = ground (arith, fat_before_data c c' h h')

  pub next-write :
      (c c' : ℕ) (b : ℕ → ℕ) (d : Disk)
      → c < limit
      → IsCluster limit c'
      → get_next_cluster fs c (write_cluster fs c' b d) ≡ get_next_cluster fs c d
  unfolding get_next_cluster write_cluster word
  next-write c c' b d h h' = ground (arith, fat_before_data c c' h h')

  pub data-write_same :
      (c i : ℕ) (b : ℕ → ℕ) (d : Disk)
      → IsCluster limit c
      → i < fs.bytes_per_cluster
      → write_cluster fs c b d (data_at fs c + i) ≡ b i
  unfolding write_cluster
  data-write_same c i b d h l = ground (arith, h, l)

  pub data-write_other :
      (c c' i : ℕ) (b : ℕ → ℕ) (d : Disk)
      → IsCluster limit c
      → IsCluster limit c'
      → c ≢ c'
      → i < fs.bytes_per_cluster
      → write_cluster fs c b d (data_at fs c' + i) ≡ d (data_at fs c' + i)
  unfolding write_cluster
  data-write_other c c' i b d h h' ne l =
      let before = data_apart c c' h h' in
      let behind = data_apart c' c h' h in ground (arith, before, behind, ne, l, h)
