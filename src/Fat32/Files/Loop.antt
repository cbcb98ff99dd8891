-- ===== src/Fat32/Files/Loop.antt =====
-- The rounds of the loop of fat32_write_file together.
use valerioedx.Base.{
  length, ℕ, zero, suc, ◌+◌, ◌-◌, ◌≤◌, ◌<◌, ◌≡◌, ◌⊎◌, inl, inr, true, some, List, ◌∷◌, ltb, leb,
  if◌then◌else◌, min, arith, sym, ◌∙◌, Bool-cases, ltb→lt,
}
use native.Mathlib.Nat.{suc-mul}
use valerioedx.Fat32.{Disk, Fs}
use valerioedx.Fat32.Volume.{IsVolume}
use valerioedx.Fat32.Chain.{Linked, byte_at, byte_at_behind}
use valerioedx.Fat32.Allocate.{NoneFree}
use valerioedx.Fat32.Files.Writing.{next_or_new, write_loop}
use valerioedx.Fat32.Files.Stored.{Stored, retell-Stored, then-Stored, behind-Stored}
use valerioedx.Fat32.Files.Advance.{next_or_new_cases}
use valerioedx.Fat32.Files.Rounds.{
  spliced, Writes, filled, round_disk, round-Stored, finished-Writes,
}
use valerioedx.Fat32.Files.Steps.{taken, last_round, full_round, next_round, progress, not_last}

module _ {fs : Fs} {limit : ℕ} (v : IsVolume fs limit) where
  -- A loop that ends with a round.
  ends-Writes :
      (d : Disk) (c : ℕ) (cs : List ℕ) (chunk written size : ℕ) (cl_buf buffer : ℕ → ℕ)
      → Linked fs limit d (c ∷ cs)
      → chunk < fs.bytes_per_cluster
      → written < size
      → (written + taken v chunk written size ≡ size)
        ⊎ NoneFree fs (round_disk v d c chunk written size cl_buf buffer)
      → Writes v d chunk written size buffer c cs
          (written + taken v chunk written size, round_disk v d c chunk written size cl_buf buffer)
  unfolding taken
  ends-Writes d c cs chunk written size cl_buf buffer l hc h why = record {
    after = cs;
    stored =
        retell-Stored v _ _ (λ o. ground (arith))
          (round-Stored v d c cs chunk written size cl_buf buffer l hc);
    holds = omega (arith, h, hc, suc-mul (length cs) fs.bytes_per_cluster);
    grows = omega arith;
    within = omega (arith, h);
    complete = why;
    some_written = λ u. omega (arith, u, hc);
  }

  -- The bytes of the round and those of the later rounds.
  joined :
      (chunk written size count : ℕ) (buffer old later : ℕ → ℕ) (o : ℕ)
      → chunk < fs.bytes_per_cluster
      → written + taken v chunk written size < size
      → written + taken v chunk written size ≤ count
      → (fs.bytes_per_cluster ≤ o → later (o - fs.bytes_per_cluster) ≡ old o)
      → (if ltb o fs.bytes_per_cluster
          then spliced chunk (chunk + taken v chunk written size) (λ i. buffer (written + i)) old o
          else spliced 0
              (0 + (count - (written + taken v chunk written size)))
              (λ i. buffer (written + taken v chunk written size + i))
              later
              (o - fs.bytes_per_cluster))
        ≡ spliced chunk (chunk + (count - written)) (λ i. buffer (written + i)) old o
  unfolding taken
  joined chunk written size count buffer old later o hc h hr same =
      let b = fs.bytes_per_cluster in
      let full : min (b - chunk) (size - written) ≡ b - chunk = omega (arith, h) in
      rw full (elim (Bool-cases (ltb o b)) [
        | inl low ↦ ground (arith, low, hr, full, hc)
        | inr high ↦
            let place : leb b o ≡ true → written + (b - chunk) + (o - b) ≡ written + (o - chunk) =
              λ e. ground (arith, e, hc) in
            ground
              (arith, high, hr, full, hc, same (ground (arith, high)), place (ground (arith, high)))
      ])

  past :
      (chunk written size o : ℕ) (buffer old : ℕ → ℕ)
      → chunk < fs.bytes_per_cluster
      → fs.bytes_per_cluster ≤ o
      → spliced chunk (chunk + taken v chunk written size) (λ i. buffer (written + i)) old o ≡ old o
  unfolding taken
  past chunk written size o buffer old hc h = ground (arith, hc, h)

  round_again :
      (rounds c n chunk written size : ℕ) (cs ns : List ℕ) (cl_buf buffer : ℕ → ℕ) (d d' : Disk)
      → Linked fs limit d (c ∷ cs)
      → chunk < fs.bytes_per_cluster
      → written + taken v chunk written size < size
      → next_or_new fs true c (round_disk v d c chunk written size cl_buf buffer) ≡ (some n, d')
      → Stored fs limit
          (round_disk v d c chunk written size cl_buf buffer)
          d'
          (c ∷ cs)
          (c ∷ n ∷ ns)
          (byte_at fs (round_disk v d c chunk written size cl_buf buffer) (c ∷ cs))
      → Writes v d' 0 (written + taken v chunk written size) size buffer n ns (
          write_loop fs true rounds n 0
            (written + taken v chunk written size)
            size
            (filled v d c chunk written size cl_buf buffer)
            buffer
            d')
      → Writes v d chunk written size buffer c cs
          (write_loop fs true (suc rounds) c chunk written size cl_buf buffer d)
  unfolding taken
  round_again rounds c n chunk written size cs ns cl_buf buffer d d' l hc h e adv w =
      let first = round-Stored v d c cs chunk written size cl_buf buffer l hc in
      let d1 = round_disk v d c chunk written size cl_buf buffer in
      let both =
        retell-Stored v _ _ first.bytes
          (then-Stored v d d1 d' (c ∷ cs) (c ∷ cs) (c ∷ n ∷ ns) _ _ first adv) in
      let all = behind-Stored v d d' _ (c ∷ cs) c n ns w.after _ _ both w.stored in
      rw (next_round v rounds c n chunk written size cl_buf buffer d d' h e) (record {
        after = n ∷ w.after;
        stored =
            retell-Stored v _ _
              (λ o.
                joined chunk written size _ buffer (byte_at fs d (c ∷ cs)) (byte_at fs d' (n ∷ ns))
                  o hc h w.grows
                  (λ b.
                    sym (byte_at_behind fs d' c (n ∷ ns) o b)
                    ∙ both.bytes o
                    ∙ past chunk written size o buffer (byte_at fs d (c ∷ cs)) hc b))
              all;
        holds =
            omega
              (arith, w.holds, w.grows, h, hc, suc-mul (length (n ∷ w.after)) fs.bytes_per_cluster);
        grows = omega (arith, w.grows);
        within = w.within;
        complete = w.complete;
        some_written = λ u. progress v chunk written size hc u w.grows;
      })

  -- With a round for each byte, the loop writes all, or until no cluster is free.
  pub write_loop-Writes :
      (rounds c chunk written size : ℕ) (cs : List ℕ) (cl_buf buffer : ℕ → ℕ) (d : Disk)
      → Linked fs limit d (c ∷ cs)
      → chunk < fs.bytes_per_cluster
      → written ≤ size
      → size ≤ written + rounds
      → Writes v d chunk written size buffer c cs
          (write_loop fs true rounds c chunk written size cl_buf buffer d)
  write_loop-Writes zero c chunk written size cs cl_buf buffer d l hc hw fuel =
      finished-Writes v zero c chunk written size cs cl_buf buffer d l hc (omega (arith, hw, fuel))
  write_loop-Writes (suc rounds) c chunk written size cs cl_buf buffer d l hc hw fuel =
      elim (Bool-cases (ltb written size)) [
        | inr all ↦
            finished-Writes v (suc rounds) c chunk written size cs cl_buf buffer d l hc
              (ground (arith, all, hw))
        | inl more ↦
            let h = ltb→lt written size more in
            elim (not_last v chunk written size h) [
              | inl last ↦
                  rw (last_round v rounds c chunk written size cl_buf buffer d h last)
                    (ends-Writes d c cs chunk written size cl_buf buffer l hc h (inl last))
              | inr on ↦
                  let first = round-Stored v d c cs chunk written size cl_buf buffer l hc in
                  elim (next_or_new_cases v c cs (round_disk v d c chunk written size cl_buf buffer)
                    first.linked) [
                      | inl (e, full) ↦
                          rw (full_round v rounds c chunk written size cl_buf buffer d on e)
                            (ends-Writes d c cs chunk written size cl_buf buffer l hc h (inr full))
                      | inr (n, d', ns, e, adv) ↦
                          round_again rounds c n chunk written size cs ns cl_buf buffer d d' l hc on
                            e adv
                            (write_loop-Writes rounds n 0 (written + taken v chunk written size)
                              size ns _ buffer d' adv.linked.3 (omega (arith, hc))
                              (omega (arith, on))
                              (omega (
                                arith,
                                fuel,
                                progress v chunk written size
                                    {count = written + taken v chunk written size} hc h
                                    (omega arith),
                              )))
                    ]
            ]
      ]
