-- ===== src/Fat32/Files/Read.antt =====
-- fat32_read_file returns the bytes of the file.
use valerioedx.Base.{
  ℕ, ◌+◌, ◌-◌, ◌*◌, ◌/◌, ◌%◌, ◌^◌, ◌≤◌, ◌<◌, ◌≡◌, refl, inl, inr, Bool, true, false, ◌||◌, List,
  ◌∷◌, some, ltb, leb, ◌==◌, if◌then◌else◌, length, min, arith, ap, sym, ◌∙◌, Bool-cases,
}
use valerioedx.Fat32.{Disk, Fs}
use native.Mathlib.Nat.{add-mul}
use valerioedx.Fat32.Volume.{IsVolume}
use valerioedx.Fat32.Chain.{Linked, byte_at}
use valerioedx.Fat32.Files.{Fat32File, skip_clusters, read_loop, fat32_read_file}
use valerioedx.Fat32.Files.Skips.{skip-Further, skip_count, small_count}
use valerioedx.Fat32.Files.Reads.{ReadsAll, read_loop-ReadsAll}

module _ {fs : Fs} {limit : ℕ} (v : IsVolume fs limit) where
  -- Where the chain goes on for long enough, all is read from there.
  read_from :
      (cs : List ℕ) (node : Fat32File) (offset n : ℕ) (scratch buffer : ℕ → ℕ) (d : Disk)
      → Linked fs limit d (node.first_cluster ∷ cs)
      → offset + n ≤ length (node.first_cluster ∷ cs) * fs.bytes_per_cluster
      → 0 < n
      → (cluster : ℕ) × (out : ℕ → ℕ) × (skip_clusters fs
            (offset / fs.bytes_per_cluster)
            node.first_cluster
            d
          ≡ some cluster)
        × (read_loop fs n cluster (offset % fs.bytes_per_cluster) 0 n scratch buffer d ≡ (n, out))
        × ((i : ℕ)
            → out i
              ≡ (if ltb i n then byte_at fs d (node.first_cluster ∷ cs) (offset + i) else buffer i))
  unfolding ReadsAll
  read_from cs node offset n scratch buffer d l h pos_n =
      let b = fs.bytes_per_cluster in
      let k = offset / b in
      let (inside, split, r) =
        skip_count v offset (length (node.first_cluster ∷ cs)) (omega (arith, h, pos_n)) in
      let f = skip-Further v k node.first_cluster cs d l (omega (arith, inside)) in
      let count : length (node.first_cluster ∷ cs) * b ≡ length (f.here ∷ f.rest) * b + k * b =
        ap (λ x. x * b) (sym f.left) ∙ add-mul (length (f.here ∷ f.rest)) k b in
      let (out, q, bytes) =
        read_loop-ReadsAll v f.rest n f.here (offset % b) 0 n scratch buffer d f.linked r
          (omega arith) (omega (arith, h, count, split)) (omega arith) in
      (
        f.here,
        out,
        f.found,
        q,
        λ i.
            let here : byte_at fs d (f.here ∷ f.rest) (offset % b + (i - 0))
                ≡ byte_at fs d (node.first_cluster ∷ cs) (offset + i) =
              sym (f.bytes (offset % b + (i - 0)))
              ∙ ap (byte_at fs d (node.first_cluster ∷ cs)) (omega (arith, split)) in
            ground (arith, bytes i, here),
      )

  asked_min :
      (total offset size : ℕ)
      → offset + size < 2 ^ 64
      → (if ltb total ((offset + size) % 2 ^ 64) then total - offset else size)
        ≡ min size (total - offset)
  asked_min total offset size h = ground (arith, h)

  -- The call by what its parts come to.
  read_outcome :
      (dir_room : Bool) (date time : ℕ) (scratch : ℕ → ℕ) (node : Fat32File)
      (offset size n k cluster : ℕ) (buffer out : ℕ → ℕ) (d : Disk)
      → (if ltb node.size ((offset + size) % 2 ^ 64) then node.size - offset else size) ≡ n
      → (leb node.size offset || (n == 0)) ≡ false
      → offset / fs.bytes_per_cluster % 2 ^ 32 ≡ k
      → skip_clusters fs k node.first_cluster d ≡ some cluster
      → read_loop fs n cluster (offset % fs.bytes_per_cluster) 0 n scratch buffer d ≡ (n, out)
      → let o = fat32_read_file fs true dir_room date time scratch node offset size buffer d in
        (o.count ≡ n) × (o.buffer ≡ out)
  unfolding fat32_read_file
  read_outcome dir_room date time scratch node offset size n k cluster buffer out d e t ek es eq =
      rw (fat32_read_file, e, t, ek, es, e, eq) (refl, refl)

  read_none :
      (dir_room : Bool) (date time : ℕ) (scratch : ℕ → ℕ) (node : Fat32File) (offset size n : ℕ)
      (buffer : ℕ → ℕ) (d : Disk)
      → (if ltb node.size ((offset + size) % 2 ^ 64) then node.size - offset else size) ≡ n
      → (leb node.size offset || (n == 0)) ≡ true
      → let o = fat32_read_file fs true dir_room date time scratch node offset size buffer d in
        (o.count ≡ 0) × (o.buffer ≡ buffer)
  unfolding fat32_read_file
  read_none dir_room date time scratch node offset size n buffer d e t =
      rw (fat32_read_file, e, t) (refl, refl)

  -- On a volume whose areas do not overlap, fat32_read_file, given memory, of a file whose chain of clusters
  -- holds its size, which is below 2^32, returns the number of bytes asked for, cut at the end of the
  -- file, where the sum of the offset and this number is below 2^64. It puts the bytes of the file from the
  -- offset on into the buffer, of which it changes no other byte.
  pub fat32_read_file_lem :
      (cs : List ℕ) (dir_room : Bool) (date time : ℕ) (scratch : ℕ → ℕ) (node : Fat32File)
      (offset size : ℕ) (buffer : ℕ → ℕ) (d : Disk)
      → Linked fs limit d (node.first_cluster ∷ cs)
      → node.size ≤ length (node.first_cluster ∷ cs) * fs.bytes_per_cluster
      → node.size < 2 ^ 32
      → offset + size < 2 ^ 64
      → let n = min size (node.size - offset) in
        let o = fat32_read_file fs true dir_room date time scratch node offset size buffer d in
        (o.count ≡ n)
        × ((i : ℕ)
            → o.buffer i
              ≡ (if ltb i n then byte_at fs d (node.first_cluster ∷ cs) (offset + i) else buffer i))
  fat32_read_file_lem cs dir_room date time scratch node offset size buffer d l holds small fits =
      let n = min size (node.size - offset) in
      let asked = asked_min node.size offset size fits in
      elim (Bool-cases (leb node.size offset || (n == 0))) [
        | inl nothing ↦
            let (none_read, same) =
              read_none dir_room date time scratch node offset size n buffer d asked nothing in
            (none_read ∙ ground (arith, nothing), λ i. ap (λ f. f i) same ∙ ground (arith, nothing))
        | inr more ↦
            let inside : offset + n ≤ length (node.first_cluster ∷ cs) * fs.bytes_per_cluster =
              ground (arith, more, holds) in
            let (cluster, out, skipped, q, bytes) =
              read_from cs node offset n scratch buffer d l inside (ground (arith, more)) in
            let whole : offset / fs.bytes_per_cluster % 2 ^ 32 ≡ offset / fs.bytes_per_cluster =
              omega (arith, small_count v offset (ground (arith, more, small))) in
            let (count, same) =
              read_outcome dir_room date time scratch node offset size n
                (offset / fs.bytes_per_cluster) cluster buffer out d asked more whole skipped q in
            (count, λ i. ap (λ f. f i) same ∙ bytes i)
      ]
