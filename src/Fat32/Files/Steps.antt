-- ===== src/Fat32/Files/Steps.antt =====
-- What a round of the loop of fat32_write_file comes to.
use valerioedx.Base.{
  ℕ, suc, ◌+◌, ◌-◌, ◌≤◌, ◌<◌, ◌≡◌, refl, ◌⊎◌, inl, inr, true, false, none, some, ltb, min, arith,
  ap, Bool-cases, lt→ltb, ltb→lt,
}
use valerioedx.Fat32.{Disk, Fs}
use valerioedx.Fat32.Volume.{IsVolume}
use valerioedx.Fat32.Files.Writing.{next_or_new, write_loop}
use valerioedx.Fat32.Files.Rounds.{filled, round_disk}

module _ {fs : Fs} {limit : ℕ} (v : IsVolume fs limit) where
  -- What a round writes.
  unfoldable pub taken : (chunk written size : ℕ) → ℕ
  taken chunk written size = min (fs.bytes_per_cluster - chunk) (size - written)

  pub last_round :
      (rounds c chunk written size : ℕ) (cl_buf buffer : ℕ → ℕ) (d : Disk)
      → written < size
      → written + taken chunk written size ≡ size
      → write_loop fs true (suc rounds) c chunk written size cl_buf buffer d
        ≡ (written + taken chunk written size, round_disk v d c chunk written size cl_buf buffer)
  unfolding write_loop taken round_disk filled
  last_round rounds c chunk written size cl_buf buffer d h e =
      let more : ltb written size ≡ true = lt→ltb written size h in
      let stop : ltb (written + taken chunk written size) size ≡ false = ground (arith, e) in
      rw (more, stop) refl

  pub full_round :
      (rounds c chunk written size : ℕ) (cl_buf buffer : ℕ → ℕ) (d : Disk)
      → written + taken chunk written size < size
      → next_or_new fs true c (round_disk v d c chunk written size cl_buf buffer)
        ≡ (none, round_disk v d c chunk written size cl_buf buffer)
      → write_loop fs true (suc rounds) c chunk written size cl_buf buffer d
        ≡ (written + taken chunk written size, round_disk v d c chunk written size cl_buf buffer)
  unfolding write_loop taken round_disk filled
  full_round rounds c chunk written size cl_buf buffer d h e =
      let more : ltb written size ≡ true = lt→ltb written size (omega (arith, h)) in
      let on : ltb (written + taken chunk written size) size ≡ true =
        lt→ltb (written + taken chunk written size) size h in
      rw (more, on, e, ap (λ r. r.1) e) refl

  pub next_round :
      (rounds c n chunk written size : ℕ) (cl_buf buffer : ℕ → ℕ) (d d' : Disk)
      → written + taken chunk written size < size
      → next_or_new fs true c (round_disk v d c chunk written size cl_buf buffer) ≡ (some n, d')
      → write_loop fs true (suc rounds) c chunk written size cl_buf buffer d
        ≡ write_loop fs true rounds n 0
            (written + taken chunk written size)
            size
            (filled v d c chunk written size cl_buf buffer)
            buffer
            d'
  unfolding write_loop taken round_disk filled
  next_round rounds c n chunk written size cl_buf buffer d d' h e =
      let more : ltb written size ≡ true = lt→ltb written size (omega (arith, h)) in
      let on : ltb (written + taken chunk written size) size ≡ true =
        lt→ltb (written + taken chunk written size) size h in
      rw (more, on, e, ap (λ r. r.1) e) refl

  pub progress :
      (chunk written size : ℕ) {count : ℕ}
      → chunk < fs.bytes_per_cluster
      → written < size
      → written + taken chunk written size ≤ count
      → written < count
  unfolding taken
  progress chunk written size hc h u = omega (arith, hc, h, u)

  pub not_last :
      (chunk written size : ℕ)
      → written < size
      → (written + taken chunk written size ≡ size) ⊎ (written + taken chunk written size < size)
  unfolding taken
  not_last chunk written size h =
      elim (Bool-cases (ltb (written + taken chunk written size) size)) [
        | inl on ↦ inr (ltb→lt (written + taken chunk written size) size on)
        | inr stop ↦ inl (ground (arith, stop, h))
      ]
