-- ===== src/Fat32/Files/Reads.antt =====
-- The loop of fat32_read_file.
use valerioedx.Base.{
  ℕ, zero, suc, ◌+◌, ◌-◌, ◌*◌, ◌≤◌, ◌<◌, ◌≡◌, refl, inl, inr, true, false, ◌&&◌, List, [], ◌∷◌, ltb,
  leb, if◌then◌else◌, length, min, arith, ap, sym, ◌∙◌, Bool-cases, lt→ltb, ltb→lt,
}
use valerioedx.Fat32.{Disk, Fs, end_of_chain, read_cluster, get_next_cluster}
use native.Mathlib.Nat.{suc-mul}
use valerioedx.Fat32.Volume.{IsVolume, IsCluster}
use valerioedx.Fat32.Chain.{Linked, byte_at, byte_at_behind}
use valerioedx.Fat32.Files.{copy_over, read_loop}

module _ {fs : Fs} {limit : ℕ} (v : IsVolume fs limit) where
  read_done :
      (rounds c chunk size : ℕ) (cl buffer : ℕ → ℕ) (d : Disk)
      → read_loop fs rounds c chunk size size cl buffer d ≡ (size, buffer)
  unfolding read_loop
  read_done zero c chunk size cl buffer d = refl
  read_done (suc rounds) c chunk size cl buffer d = ground arith

  -- The first clusters are copied, and the loop goes on with those behind.
  unfoldable pub ReadsAll :
      (d : Disk) (rounds chunk read size : ℕ) (cl buffer : ℕ → ℕ) → ℕ → List ℕ → Type 0
  ReadsAll d rounds chunk read size cl buffer c cs =
      (out : ℕ → ℕ) × (read_loop fs rounds c chunk read size cl buffer d ≡ (size, out))
      × ((i : ℕ)
          → out i ≡ (
              if leb read i && ltb i size
              then byte_at fs d (c ∷ cs) (chunk + (i - read))
              else buffer i))

  -- What a round copies.
  piece : (d : Disk) (c chunk read size : ℕ) (cl buffer : ℕ → ℕ) → ℕ → ℕ
  piece d c chunk read size cl buffer =
      copy_over read (min (fs.bytes_per_cluster - chunk) (size - read))
        (λ i. read_cluster fs c cl d (chunk + i)) buffer

  piece_lem :
      (d : Disk) (c : ℕ) (cs : List ℕ) (chunk read size : ℕ) (cl buffer : ℕ → ℕ) (i : ℕ)
      → IsCluster limit c
      → chunk < fs.bytes_per_cluster
      → piece d c chunk read size cl buffer i ≡ (
          if leb read i && ltb i (read + min (fs.bytes_per_cluster - chunk) (size - read))
          then byte_at fs d (c ∷ cs) (chunk + (i - read))
          else buffer i)
  unfolding piece read_cluster byte_at
  piece_lem d c cs chunk read size cl buffer i h l = ground (arith, h, l)

  round_lem :
      (rounds c chunk read size : ℕ) (cl buffer : ℕ → ℕ) (d : Disk)
      → IsCluster limit c
      → read < size
      → read_loop fs (suc rounds) c chunk read size cl buffer d
        ≡ read_loop fs rounds
            (get_next_cluster fs c d)
            0
            (read + min (fs.bytes_per_cluster - chunk) (size - read))
            size
            (read_cluster fs c cl d)
            (piece d c chunk read size cl buffer)
            d
  unfolding read_loop piece
  round_lem rounds c chunk read size cl buffer d h l =
      let more : ltb read size ≡ true = lt→ltb read size l in
      let inside : leb end_of_chain c ≡ false = ground (arith, h, v.numbers) in
      rw (more, inside) refl

  reads_nothing :
      (cs : List ℕ) (rounds c chunk read size : ℕ) (cl buffer : ℕ → ℕ) (d : Disk)
      → read ≡ size
      → ReadsAll d rounds chunk read size cl buffer c cs
  unfolding ReadsAll
  reads_nothing cs rounds c chunk read size cl buffer d e = (
    buffer,
    ap (λ r. read_loop fs rounds c chunk r size cl buffer d) e
        ∙ read_done rounds c chunk size cl buffer d,
    λ i. ground (arith, e),
  )

  reads_last :
      (rounds c chunk read size : ℕ) (cl buffer : ℕ → ℕ) (d : Disk)
      → IsCluster limit c
      → chunk < fs.bytes_per_cluster
      → read < size
      → size + chunk ≤ read + fs.bytes_per_cluster
      → ReadsAll d (suc rounds) chunk read size cl buffer c []
  unfolding ReadsAll
  reads_last rounds c chunk read size cl buffer d hc l h enough =
      let all : read + min (fs.bytes_per_cluster - chunk) (size - read) ≡ size =
        omega (arith, h, enough) in
      let next = get_next_cluster fs c d in
      (
        piece d c chunk read size cl buffer,
        round_lem rounds c chunk read size cl buffer d hc h
            ∙ ap
                (λ r.
                  read_loop fs rounds next 0 r size (read_cluster fs c cl d)
                    (piece d c chunk read size cl buffer) d)
                all
            ∙ read_done rounds next 0 size _ _ d,
        λ i. ground (arith, piece_lem d c [] chunk read size cl buffer i hc l, all),
      )

  -- A byte that a later round copies.
  late_byte :
      (d : Disk) (c : ℕ) (cs : List ℕ) (chunk read size i : ℕ)
      → chunk < fs.bytes_per_cluster
      → read + min (fs.bytes_per_cluster - chunk) (size - read) ≤ i
      → i < size
      → byte_at fs d cs (0 + (i - (read + min (fs.bytes_per_cluster - chunk) (size - read))))
        ≡ byte_at fs d (c ∷ cs) (chunk + (i - read))
  late_byte d c cs chunk read size i hc h l = sym (
      byte_at_behind fs d c cs (chunk + (i - read)) (omega (arith, hc, h, l))
      ∙ ap (byte_at fs d cs) (omega (arith, hc, h, l)))

  reads_on :
      (cs : List ℕ) (rounds c c' chunk read size : ℕ) (cl buffer : ℕ → ℕ) (d : Disk)
      → Linked fs limit d (c ∷ c' ∷ cs)
      → chunk < fs.bytes_per_cluster
      → read < size
      → ReadsAll d rounds 0
          (read + min (fs.bytes_per_cluster - chunk) (size - read))
          size
          (read_cluster fs c cl d)
          (piece d c chunk read size cl buffer)
          c'
          cs
      → ReadsAll d (suc rounds) chunk read size cl buffer c (c' ∷ cs)
  unfolding ReadsAll
  reads_on cs rounds c c' chunk read size cl buffer d l hc h (out, q, bytes) =
      let read' = read + min (fs.bytes_per_cluster - chunk) (size - read) in
      (
        out,
        round_lem rounds c chunk read size cl buffer d l.0 h
            ∙ ap
                (λ n.
                  read_loop fs rounds n 0 read' size (read_cluster fs c cl d)
                    (piece d c chunk read size cl buffer) d)
                l.1
            ∙ q,
        λ i. elim (Bool-cases (leb read' i && ltb i size)) [
          | inl late ↦
              let b =
                late_byte d c (c' ∷ cs) chunk read size i hc (ground (arith, late))
                  (ground (arith, late)) in
              ground (arith, bytes i, late, b)
          | inr early ↦
              ground (
                arith,
                bytes i,
                early,
                h,
                piece_lem d c (c' ∷ cs) chunk read size cl buffer i l.0 hc,
              )
        ],
      )

  pub read_loop-ReadsAll :
      (cs : List ℕ) (rounds c chunk read size : ℕ) (cl buffer : ℕ → ℕ) (d : Disk)
      → Linked fs limit d (c ∷ cs)
      → chunk < fs.bytes_per_cluster
      → read ≤ size
      → size + chunk ≤ read + length (c ∷ cs) * fs.bytes_per_cluster
      → size ≤ read + rounds
      → ReadsAll d rounds chunk read size cl buffer c cs
  read_loop-ReadsAll cs zero c chunk read size cl buffer d l hc hr enough fuel =
      reads_nothing cs zero c chunk read size cl buffer d (omega (arith, hr, fuel))
  read_loop-ReadsAll [] (suc rounds) c chunk read size cl buffer d l hc hr enough fuel =
      elim (Bool-cases (ltb read size)) [
        | inr all ↦
            reads_nothing [] (suc rounds) c chunk read size cl buffer d (ground (arith, all, hr))
        | inl more ↦
            reads_last rounds c chunk read size cl buffer d l.0 hc (ltb→lt read size more)
              (omega (arith, enough))
      ]
  read_loop-ReadsAll (c' ∷ cs) (suc rounds) c chunk read size cl buffer d l hc hr enough fuel =
      elim (Bool-cases (ltb read size)) [
        | inr all ↦
            reads_nothing (c' ∷ cs) (suc rounds) c chunk read size cl buffer d
              (ground (arith, all, hr))
        | inl more ↦
            let h = ltb→lt read size more in
            reads_on cs rounds c c' chunk read size cl buffer d l hc h (
              read_loop-ReadsAll cs rounds c' 0 _ size _ _ d l.3 (omega (arith, hc))
                (omega (arith, hr))
                (omega (arith, enough, h, hc, suc-mul (length (c' ∷ cs)) fs.bytes_per_cluster))
                (omega (arith, fuel, h, hc)))
      ]
