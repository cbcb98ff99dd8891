-- ===== src/Fat32/Files/Rounds.antt =====
-- The loop of fat32_write_file.
use valerioedx.Base.{
  length, ℕ, zero, suc, ◌+◌, ◌-◌, ◌≤◌, ◌<◌, ◌≡◌, refl, ◌⊎◌, inl, inr, true, false, ◌&&◌, List, ◌∷◌,
  ltb, leb, if◌then◌else◌, min, arith, sym, Bool-cases, subst, ltb→lt, ◌*◌,
}
use native.Mathlib.Nat.{suc-mul}
use valerioedx.Fat32.{Disk, Fs, read_cluster, write_cluster}
use valerioedx.Fat32.Volume.{IsVolume, IsCluster}
use valerioedx.Fat32.Chain.{Linked, byte_at, byte_at_first}
use valerioedx.Fat32.Allocate.{NoneFree}
use valerioedx.Fat32.Files.{copy_over}
use valerioedx.Fat32.Files.Writing.{write_loop}
use valerioedx.Fat32.Files.Stored.{Stored, unchanged-Stored, retell-Stored, write-Stored}

-- The bytes of `new` from `lo` up to `hi`, and those of `old` around them.
abbrev pub spliced : (lo hi : ℕ) (new old : ℕ → ℕ) → ℕ → ℕ
spliced lo hi new old o = if leb lo o && ltb o hi then new (o - lo) else old o

module _ {fs : Fs} {limit : ℕ} (v : IsVolume fs limit) where
  -- What the loop has written when it ends with `r`.
  pub record Writes (d : Disk) (chunk written size : ℕ) (buffer : ℕ → ℕ) (c : ℕ) (cs : List ℕ)
      (r : ℕ × Disk) : Type 0 where
    pub after : List ℕ
    pub stored : Stored fs limit d r.1 (c ∷ cs) (c ∷ after) (
        spliced chunk (chunk + (r.0 - written)) (λ i. buffer (written + i)) (byte_at fs d (c ∷ cs)))
    pub holds : chunk + (r.0 - written) ≤ length (c ∷ after) * fs.bytes_per_cluster
    pub grows : written ≤ r.0
    pub within : r.0 ≤ size
    pub complete : (r.0 ≡ size) ⊎ NoneFree fs r.1
    pub some_written : written < size → written < r.0

  -- The buffer of a round, and the device after it.
  unfoldable pub filled : (d : Disk) (c chunk written size : ℕ) (cl_buf buffer : ℕ → ℕ) → ℕ → ℕ
  filled d c chunk written size cl_buf buffer =
      copy_over chunk (min (fs.bytes_per_cluster - chunk) (size - written))
        (λ i. buffer (written + i)) (read_cluster fs c cl_buf d)

  unfoldable pub round_disk : (d : Disk) (c chunk written size : ℕ) (cl_buf buffer : ℕ → ℕ) → Disk
  round_disk d c chunk written size cl_buf buffer =
      write_cluster fs c (filled d c chunk written size cl_buf buffer) d

  filled_bytes :
      (d : Disk) (c : ℕ) (cs : List ℕ) (chunk written size : ℕ) (cl_buf buffer : ℕ → ℕ) (o : ℕ)
      → IsCluster limit c
      → chunk < fs.bytes_per_cluster
      → (if ltb o fs.bytes_per_cluster
          then filled d c chunk written size cl_buf buffer o
          else byte_at fs d (c ∷ cs) o)
        ≡ spliced chunk
            (chunk + min (fs.bytes_per_cluster - chunk) (size - written))
            (λ i. buffer (written + i))
            (byte_at fs d (c ∷ cs))
            o
  unfolding filled read_cluster
  filled_bytes d c cs chunk written size cl_buf buffer o h l =
      elim (Bool-cases (ltb o fs.bytes_per_cluster)) [
        | inl low ↦
            let first = byte_at_first fs d c cs o (ltb→lt o fs.bytes_per_cluster low) in
            ground (arith, h, l, low, first)
        | inr high ↦ ground (arith, h, l, high)
      ]

  pub round-Stored :
      (d : Disk) (c : ℕ) (cs : List ℕ) (chunk written size : ℕ) (cl_buf buffer : ℕ → ℕ)
      → Linked fs limit d (c ∷ cs)
      → chunk < fs.bytes_per_cluster
      → Stored fs limit d (round_disk d c chunk written size cl_buf buffer) (c ∷ cs) (c ∷ cs) (
          spliced chunk
            (chunk + min (fs.bytes_per_cluster - chunk) (size - written))
            (λ i. buffer (written + i))
            (byte_at fs d (c ∷ cs)))
  unfolding round_disk
  round-Stored d c cs chunk written size cl_buf buffer l h =
      retell-Stored v _ _ (λ o. filled_bytes d c cs chunk written size cl_buf buffer o l.0 h)
        (write-Stored v c cs (filled d c chunk written size cl_buf buffer) d l)

  write_stays :
      (rounds c chunk written size : ℕ) (cl_buf buffer : ℕ → ℕ) (d : Disk)
      → written ≡ size
      → write_loop fs true rounds c chunk written size cl_buf buffer d ≡ (written, d)
  unfolding write_loop
  write_stays zero c chunk written size cl_buf buffer d e = refl
  write_stays (suc rounds) c chunk written size cl_buf buffer d e =
      let stop : ltb written size ≡ false = ground (arith, e) in rw stop refl

  pub finished-Writes :
      (rounds c chunk written size : ℕ) (cs : List ℕ) (cl_buf buffer : ℕ → ℕ) (d : Disk)
      → Linked fs limit d (c ∷ cs)
      → chunk < fs.bytes_per_cluster
      → written ≡ size
      → Writes d chunk written size buffer c cs
          (write_loop fs true rounds c chunk written size cl_buf buffer d)
  finished-Writes rounds c chunk written size cs cl_buf buffer d l hc e =
      subst (Writes d chunk written size buffer c cs)
        (sym (write_stays rounds c chunk written size cl_buf buffer d e))
        (record {
          after = cs;
          stored = retell-Stored v _ _ (λ o. ground arith) (unchanged-Stored v d (c ∷ cs) l);
          holds = omega (arith, hc, suc-mul (length cs) fs.bytes_per_cluster);
          grows = omega arith;
          within = omega (arith, e);
          complete = inl e;
          some_written = λ h. omega (arith, e, h);
        })
