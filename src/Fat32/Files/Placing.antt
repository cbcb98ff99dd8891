-- ===== src/Fat32/Files/Placing.antt =====
-- The walk and the loop of fat32_write_file together.
use valerioedx.Base.{
  ℕ, ◌+◌, ◌-◌, ◌*◌, ◌/◌, ◌%◌, ◌^◌, ◌≤◌, ◌<◌, ◌≡◌, ◌⊎◌, inl, inr, true, none, some, List, ◌∷◌, ltb,
  if◌then◌else◌, arith, ap, ◌∙◌, Bool-cases, length,
}
use valerioedx.Fat32.{Disk, Fs}
use valerioedx.Fat32.Volume.{IsVolume}
use valerioedx.Fat32.Chain.{byte_at}
use valerioedx.Fat32.Allocate.{NoneFree}
use valerioedx.Fat32.Files.Writing.{skip_or_extend, write_loop}
use valerioedx.Fat32.Files.Stored.{Stored, retell-Stored, then-Stored}
use valerioedx.Fat32.Files.Skips.{small_count}
use valerioedx.Fat32.Files.Rounds.{spliced}
use valerioedx.Fat32.Files.Loop.{write_loop-Writes}
use valerioedx.Fat32.Files.Extend.{exhausted, at_cluster, skip_or_extend-Walked}
use native.Mathlib.Nat.{div-add-mod', mod-lt, add-mul, mul-le-mul_right}

module _ {fs : Fs} {limit : ℕ} (v : IsVolume fs limit) where
  -- The bytes of the file, whether the write starts in its first cluster or behind.
  whole_bytes :
      (k b chunk offset count o : ℕ) (buffer old later : ℕ → ℕ)
      → k * b + chunk ≡ offset
      → ((r : ℕ) → later r ≡ old (k * b + r))
      → (if ltb o (k * b)
          then old o
          else spliced chunk (chunk + (count - 0)) (λ i. buffer (0 + i)) later (o - k * b))
        ≡ spliced offset (offset + count) buffer old o
  whole_bytes k b chunk offset count o buffer old later e same =
      let place : k * b ≤ o → old (k * b + (o - k * b)) ≡ old o = λ h. ap old (omega (arith, h)) in
      elim (Bool-cases (ltb o (k * b))) [
        | inl low ↦ ground (arith, low, e)
        | inr high ↦ ground (arith, high, e, same (o - k * b), place (ground (arith, high)))
      ]

  spliced_old :
      (lo hi o : ℕ) (new old old' : ℕ → ℕ)
      → old o ≡ old' o
      → spliced lo hi new old o ≡ spliced lo hi new old' o
  spliced_old lo hi o new old old' e = ground (arith, e)

  -- What lies in the last clusters lies in all.
  room_for :
      (b k chunk offset count few all : ℕ)
      → k * b + chunk ≡ offset
      → few + k ≤ all
      → chunk + (count - 0) ≤ few * b
      → offset + count ≤ all * b
  room_for b k chunk offset count few all e more h =
      omega (arith, e, h, add-mul few k b, mul-le-mul_right b more)

  -- The chain when the loop has ended with `r`.
  pub record Placed (d : Disk) (cs : List ℕ) (c offset size : ℕ) (buffer : ℕ → ℕ) (r : ℕ × Disk)
      : Type 0 where
    pub after : List ℕ
    pub stored :
        Stored fs limit d r.1 cs
          (c ∷ after)
          (spliced offset (offset + r.0) buffer (byte_at fs d cs))
    pub holds : offset + r.0 ≤ length (c ∷ after) * fs.bytes_per_cluster
    pub within : r.0 ≤ size
    pub complete : (r.0 ≡ size) ⊎ NoneFree fs r.1
    pub some_written : 0 < size → 0 < r.0

  -- The walk and the loop together.
  pub data Done (d d1 : Disk) (cs : List ℕ) (c offset size : ℕ) (scratch buffer : ℕ → ℕ)
      : Type 0 where
    stopped :
        (d2 : Disk) (after : List ℕ)
        → skip_or_extend fs true (offset / fs.bytes_per_cluster % 2 ^ 32) c d1 ≡ (none, d2)
        → NoneFree fs d2
        → Stored fs limit d d2 cs (c ∷ after) (byte_at fs d cs)
        → Done d d1 cs c offset size scratch buffer
    placed :
        (s : ℕ) (d2 : Disk)
        → skip_or_extend fs true (offset / fs.bytes_per_cluster % 2 ^ 32) c d1 ≡ (some s, d2)
        → Placed d cs c offset size buffer
            (write_loop fs true size s (offset % fs.bytes_per_cluster) 0 size scratch buffer d2)
        → Done d d1 cs c offset size scratch buffer

  pub placing-Done :
      (d d1 : Disk) (cs cs1 : List ℕ) (c offset size : ℕ) (scratch buffer : ℕ → ℕ)
      → offset < 2 ^ 32
      → Stored fs limit d d1 cs (c ∷ cs1) (byte_at fs d cs)
      → Done d d1 cs c offset size scratch buffer
  placing-Done d d1 cs cs1 c offset size scratch buffer small first =
      let b = fs.bytes_per_cluster in
      let k = offset / b in
      let chunk = offset % b in
      let whole : k % 2 ^ 32 ≡ k = omega (arith, small_count v offset small) in
      let split : k * b + chunk ≡ offset = div-add-mod' offset b in
      let inside : chunk < b = mod-lt offset (omega (arith, v.cluster_size, v.not_empty)) in
      elim (skip_or_extend-Walked v k c cs1 d1 first.linked) [
        | exhausted d2 after e none_free t ↦ stopped d2 after (rw whole e) none_free (
            retell-Stored v _ _ first.bytes
              (then-Stored v d d1 d2 cs (c ∷ cs1) (c ∷ after) _ _ first t))
        | at_cluster s d2 rest e l bytes lifts ↦
            let r = write_loop fs true size s chunk 0 size scratch buffer d2 in
            let w =
              write_loop-Writes v size s chunk 0 size rest scratch buffer d2 l inside (omega arith)
                (omega arith) in
            let lifted = lifts _ w.after _ w.stored in
            placed s d2 (rw whole e) (record {
              after = lifted.0;
              stored =
                  retell-Stored v _ _
                    (λ o.
                      whole_bytes k b chunk offset r.0 o buffer (byte_at fs d1 (c ∷ cs1))
                        (byte_at fs d2 (s ∷ rest)) split bytes
                      ∙ spliced_old offset (offset + r.0) o buffer (byte_at fs d1 (c ∷ cs1))
                          (byte_at fs d cs) (first.bytes o))
                    (then-Stored v d d1 _ cs (c ∷ cs1) (c ∷ lifted.0) _ _ first lifted.2);
              holds =
                  room_for b k chunk offset r.0 (length (s ∷ w.after)) (length (c ∷ lifted.0)) split
                    lifted.1 w.holds;
              within = w.within;
              complete = w.complete;
              some_written = w.some_written;
            })
      ]
