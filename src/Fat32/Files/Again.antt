-- ===== src/Fat32/Files/Again.antt =====
-- What was written to a file is read from it.
use valerioedx.Base.{
  ℕ, zero, suc, ◌+◌, ◌-◌, ◌*◌, ◌%◌, ◌^◌, ◌≤◌, ◌<◌, ◌≡◌, refl, inl, inr, Bool, true, false, ◌||◌,
  List, [], ◌∷◌, length, ltb, leb, ◌==◌, if◌then◌else◌, min, arith, ap, sym, ◌∙◌, Bool-cases, subst,
}
use valerioedx.Fat32.{Disk, Fs}
use valerioedx.Fat32.Volume.{IsVolume}
use valerioedx.Fat32.Chain.{Linked, byte_at}
use valerioedx.Fat32.Files.{Fat32File, Fat32Result, fat32_read_file}
use valerioedx.Fat32.Files.Writing.{fat32_write_file}
use valerioedx.Fat32.Files.Read.{fat32_read_file_lem}
use valerioedx.Fat32.Files.Entry.{FirstOf, DirApart}
use valerioedx.Fat32.Files.Write.{FileWritten, fat32_write_file_lem}
use native.Mathlib.Nat.{mul-le-mul_right}

positive : (n b x : ℕ) → x ≤ n * b → 0 < x → 0 < n
positive zero b x h h' = absurd (omega (arith, h, h'))
positive (suc n) b x h h' = omega arith

module _ {fs : Fs} {limit : ℕ} (v : IsVolume fs limit) where
  read_chain :
      (cs : List ℕ) (dir_room : Bool) (date time : ℕ) (scratch : ℕ → ℕ) (node : Fat32File)
      (offset size : ℕ) (buffer : ℕ → ℕ) (d : Disk)
      → FirstOf node.first_cluster cs
      → 0 < length cs
      → Linked fs limit d cs
      → node.size ≤ length cs * fs.bytes_per_cluster
      → node.size < 2 ^ 32
      → offset + size < 2 ^ 64
      → let n = min size (node.size - offset) in
        let o = fat32_read_file fs true dir_room date time scratch node offset size buffer d in
        (o.count ≡ n)
        × ((i : ℕ) → o.buffer i ≡ (if ltb i n then byte_at fs d cs (offset + i) else buffer i))
  read_chain [] dir_room date time scratch node offset size buffer d first some_cluster l holds
        small fits =
      absurd (omega (arith, some_cluster))
  read_chain (c ∷ cs) dir_room date time scratch node offset size buffer d first some_cluster l
        holds small fits =
      let (count, bytes) =
        fat32_read_file_lem v cs dir_room date time scratch node offset size buffer d
          (subst (λ x. Linked fs limit d (x ∷ cs)) (sym first) l) holds small fits in
      (
        count,
        subst
            (λ x.
              (i : ℕ)
              → (fat32_read_file fs true dir_room date time scratch node offset size buffer
                    d).buffer
                  i
                ≡ (if ltb i (min size (node.size - offset))
                    then byte_at fs d (x ∷ cs) (offset + i)
                    else buffer i))
            first bytes,
      )

  read_nothing :
      (dir_room : Bool) (date time : ℕ) (scratch : ℕ → ℕ) (node : Fat32File) (offset size : ℕ)
      (buffer : ℕ → ℕ) (d : Disk)
      → size ≡ 0
      → (fat32_read_file fs true dir_room date time scratch node offset size buffer d).count ≡ 0
  unfolding fat32_read_file
  read_nothing dir_room date time scratch node offset size buffer d e =
      let none_asked : (leb node.size offset
            || ((if ltb node.size ((offset + size) % 2 ^ 64) then node.size - offset else size)
                == 0))
          ≡ true =
        ground (arith, e) in
      rw none_asked refl

  -- The file has a cluster for each byte of its size.
  size_held :
      (node : Fat32File) (offset size : ℕ) (buffer : ℕ → ℕ) (d : Disk) (cs : List ℕ)
      (o : Fat32Result) (w : FileWritten fs limit node offset size buffer d cs o)
      → node.size ≤ length cs * fs.bytes_per_cluster
      → o.node.size ≤ length w.after * fs.bytes_per_cluster
  size_held node offset size buffer d cs o w holds =
      let longer = mul-le-mul_right fs.bytes_per_cluster w.longer in
      elim (Bool-cases ((o.count == 0) || leb (offset + o.count) node.size)) [
        | inl same ↦ ground (arith, w.file_size, same, longer, holds)
        | inr more ↦ ground (arith, w.file_size, more, w.holds)
      ]

  small_after :
      (node : Fat32File) (offset size : ℕ) (buffer : ℕ → ℕ) (d : Disk) (cs : List ℕ)
      (o : Fat32Result) (w : FileWritten fs limit node offset size buffer d cs o)
      → node.size < 2 ^ 32
      → offset + size < 2 ^ 32
      → o.node.size < 2 ^ 32
  small_after node offset size buffer d cs o w small short =
      ground (arith, w.file_size, w.within, small, short)

  reached :
      (node : Fat32File) (offset size : ℕ) (buffer : ℕ → ℕ) (d : Disk) (cs : List ℕ)
      (o : Fat32Result) (w : FileWritten fs limit node offset size buffer d cs o)
      → (o.count == 0) ≡ false
      → (0 < o.count) × (offset + o.count ≤ o.node.size)
  reached node offset size buffer d cs o w h = (ground (arith, h), ground (arith, h, w.file_size))

  read_written :
      (dir_room : Bool) (date time : ℕ) (scratch : ℕ → ℕ) (node : Fat32File) (offset size : ℕ)
      (buffer buffer' : ℕ → ℕ) (d : Disk) (cs : List ℕ) (o : Fat32Result)
      (w : FileWritten fs limit node offset size buffer d cs o)
      → node.size ≤ length cs * fs.bytes_per_cluster
      → node.size < 2 ^ 32
      → offset + size < 2 ^ 32
      → let r =
          fat32_read_file fs true dir_room date time scratch o.node offset o.count buffer' o.disk in
        (r.count ≡ o.count) × ((i : ℕ) → i < o.count → r.buffer i ≡ buffer i)
  read_written dir_room date time scratch node offset size buffer buffer' d cs o w holds small
        short =
      elim (Bool-cases (o.count == 0)) [
        | inl nothing ↦
            let none_written : o.count ≡ 0 = ground (arith, nothing) in
            (
              read_nothing dir_room date time scratch o.node offset o.count buffer' o.disk
                    none_written
                  ∙ sym none_written,
              λ i h. absurd (omega (arith, none_written, h)),
            )
        | inr something ↦
            let held = size_held node offset size buffer d cs o w holds in
            let reach = reached node offset size buffer d cs o w something in
            let (count, bytes) =
              read_chain w.after dir_room date time scratch o.node offset o.count buffer' o.disk
                w.first
                (positive (length w.after) fs.bytes_per_cluster o.node.size held
                  (omega (arith, reach)))
                w.linked held (small_after node offset size buffer d cs o w small short)
                (omega (arith, reach, small_after node offset size buffer d cs o w small short)) in
            (
              count ∙ omega (arith, reach),
              λ i h.
                  let place : buffer (offset + i - offset) ≡ buffer i = ap buffer (omega arith) in
                  bytes i ∙ ground (arith, w.bytes (offset + i), h, reach, place),
            )
      ]

  -- On a volume whose areas do not overlap, given memory, and for a file with a chain of clusters, or none,
  -- that holds its size, which stays below 2^32, in which the cluster of its directory entry is not: as many
  -- bytes as fat32_write_file has written are read by fat32_read_file at the same offset, and they are
  -- those that were written.
  pub fat32_read_file-fat32_write_file :
      (cs : List ℕ) (dir_room : Bool) (date time : ℕ) (scratch : ℕ → ℕ) (node : Fat32File)
      (offset size : ℕ) (buffer buffer' : ℕ → ℕ) (d : Disk)
      → Linked fs limit d cs
      → FirstOf node.first_cluster cs
      → DirApart fs limit node.dir_entry_cluster d cs
      → node.size ≤ length cs * fs.bytes_per_cluster
      → node.size < 2 ^ 32
      → offset + size < 2 ^ 32
      → let o =
          fat32_write_file fs true true dir_room date time scratch node offset size buffer d in
        let r =
          fat32_read_file fs true dir_room date time scratch o.node offset o.count buffer' o.disk in
        (r.count ≡ o.count) × ((i : ℕ) → i < o.count → r.buffer i ≡ buffer i)
  fat32_read_file-fat32_write_file cs dir_room date time scratch node offset size buffer buffer' d l
        first apart holds small short =
      let o = fat32_write_file fs true true dir_room date time scratch node offset size buffer d in
      let w =
        fat32_write_file_lem v cs dir_room date time scratch node offset size buffer d l first apart
          (omega (arith, short)) in
      read_written dir_room date time scratch node offset size buffer buffer' d cs o w holds small
        short
