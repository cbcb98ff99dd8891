-- ===== src/Fat32/Files/Extend.antt =====
-- The walk to the cluster that is written first: a chain that is too short is made longer.
use valerioedx.Base.{
  length, ℕ, zero, suc, ◌+◌, ◌-◌, ◌*◌, ◌≤◌, ◌≡◌, refl, inl, inr, true, Option, none, some, List,
  ◌∷◌, ltb, if◌then◌else◌, arith, ap, sym, ◌∙◌, Bool-cases,
}
use valerioedx.Fat32.{Disk, Fs}
use valerioedx.Fat32.Volume.{IsVolume}
use valerioedx.Fat32.Chain.{Linked, byte_at, byte_at_behind, byte_at_skip}
use valerioedx.Fat32.Allocate.{NoneFree}
use valerioedx.Fat32.Files.Writing.{next_or_new, skip_or_extend}
use valerioedx.Fat32.Files.Stored.{Stored, unchanged-Stored, retell-Stored, behind-Stored}
use valerioedx.Fat32.Files.Advance.{next_or_new_cases}
use native.Mathlib.Nat.{suc-mul}

module _ {fs : Fs} {limit : ℕ} (v : IsVolume fs limit) where
  shifted :
      (b m m' o : ℕ) (old mid content : ℕ → ℕ)
      → m' ≡ m + b
      → (b ≤ o → mid (o - b) ≡ old o)
      → (if ltb o b then old o else if ltb (o - b) m then mid (o - b) else content (o - b - m))
        ≡ (if ltb o m' then old o else content (o - m'))
  shifted b m m' o old mid content e same = elim (Bool-cases (ltb o b)) [
    | inl low ↦ ground (arith, low, e)
    | inr high ↦
        let place : content (o - b - m) ≡ content (o - (m + b)) = ap content (omega arith) in
        ground (arith, high, e, same (ground (arith, high)), place)
  ]

  old_behind :
      (b o : ℕ) (old mid : ℕ → ℕ)
      → (b ≤ o → mid (o - b) ≡ old o)
      → (if ltb o b then old o else mid (o - b)) ≡ old o
  old_behind b o old mid same = elim (Bool-cases (ltb o b)) [
    | inl low ↦ ground (arith, low)
    | inr high ↦ rw high (same (ground (arith, high)))
  ]

  -- What a write to the chain behind comes to for the whole chain.
  abbrev pub Lifts : (d d' : Disk) (c k : ℕ) (cs : List ℕ) (s : ℕ) (rest : List ℕ) → Type 0
  Lifts d d' c k cs s rest =
      (d'' : Disk) (after : List ℕ) (content : ℕ → ℕ)
      → Stored fs limit d' d'' (s ∷ rest) (s ∷ after) content
      → (whole : List ℕ) × (length (s ∷ after) + k ≤ length (c ∷ whole))
        × Stored fs limit d d'' (c ∷ cs) (c ∷ whole) (λ o.
          if ltb o (k * fs.bytes_per_cluster)
          then byte_at fs d (c ∷ cs) o
          else content (o - k * fs.bytes_per_cluster))

  -- The walk ends at `s`, or without a free cluster.
  pub data Walked (d : Disk) (c k : ℕ) (cs : List ℕ) (r : Option ℕ × Disk) : Type 0 where
    exhausted :
        (d' : Disk) (after : List ℕ)
        → r ≡ (none, d')
        → NoneFree fs d'
        → Stored fs limit d d' (c ∷ cs) (c ∷ after) (byte_at fs d (c ∷ cs))
        → Walked d c k cs r
    at_cluster :
        (s : ℕ) (d' : Disk) (rest : List ℕ)
        → r ≡ (some s, d')
        → Linked fs limit d' (s ∷ rest)
        → ((o : ℕ)
            → byte_at fs d' (s ∷ rest) o ≡ byte_at fs d (c ∷ cs) (k * fs.bytes_per_cluster + o))
        → Lifts d d' c k cs s rest
        → Walked d c k cs r

  step_on :
      (k c n : ℕ) (d d1 : Disk)
      → next_or_new fs true c d ≡ (some n, d1)
      → skip_or_extend fs true (suc k) c d ≡ skip_or_extend fs true k n d1
  unfolding skip_or_extend
  step_on k c n d d1 e = rw (skip_or_extend, e, ap (λ r. r.1) e) refl

  step_full :
      (k c : ℕ) (d d1 : Disk)
      → next_or_new fs true c d ≡ (none, d1)
      → skip_or_extend fs true (suc k) c d ≡ (none, d1)
  unfolding skip_or_extend
  step_full k c d d1 e = rw (skip_or_extend, e, ap (λ r. r.1) e) refl

  further-Walked :
      (k c n : ℕ) (cs ns : List ℕ) (d d1 : Disk)
      → next_or_new fs true c d ≡ (some n, d1)
      → Stored fs limit d d1 (c ∷ cs) (c ∷ n ∷ ns) (byte_at fs d (c ∷ cs))
      → Walked d1 n k ns (skip_or_extend fs true k n d1)
      → Walked d c (suc k) cs (skip_or_extend fs true (suc k) c d)
  further-Walked k c n cs ns d d1 e s (exhausted d' after e' none_free t) =
      let b = fs.bytes_per_cluster in
      exhausted d' (n ∷ after) (step_on k c n d d1 e ∙ e') none_free (
        retell-Stored v _ _
          (λ o.
            old_behind b o (byte_at fs d (c ∷ cs)) (byte_at fs d1 (n ∷ ns))
              (λ h. sym (byte_at_behind fs d1 c (n ∷ ns) o h) ∙ s.bytes o))
          (behind-Stored v d d1 d' (c ∷ cs) c n ns after _ _ s t))
  further-Walked k c n cs ns d d1 e s (at_cluster f d' rest e' l bytes lifts) =
      at_cluster f d' rest (step_on k c n d d1 e ∙ e') l
        (λ o.
          bytes o
          ∙ sym (byte_at_skip fs d1 c (n ∷ ns) k o)
          ∙ s.bytes (suc k * fs.bytes_per_cluster + o))
        (λ d'' after content t.
          let (whole, long, u) = lifts d'' after content t in
          (
            n ∷ whole,
            omega (arith, long),
            retell-Stored v _ _
                (λ o.
                  shifted fs.bytes_per_cluster (k * fs.bytes_per_cluster)
                    (suc k * fs.bytes_per_cluster) o (byte_at fs d (c ∷ cs))
                    (byte_at fs d1 (n ∷ ns)) content (omega (arith, suc-mul k fs.bytes_per_cluster))
                    (λ h. sym (byte_at_behind fs d1 c (n ∷ ns) o h) ∙ s.bytes o))
                (behind-Stored v d d1 d'' (c ∷ cs) c n ns whole _ _ s u),
          ))

  pub skip_or_extend-Walked :
      (k c : ℕ) (cs : List ℕ) (d : Disk)
      → Linked fs limit d (c ∷ cs)
      → Walked d c k cs (skip_or_extend fs true k c d)
  unfolding skip_or_extend
  skip_or_extend-Walked zero c cs d l =
      at_cluster c d cs refl l (λ o. ap (byte_at fs d (c ∷ cs)) (omega arith))
        (λ d'' after content t. (after, omega arith, retell-Stored v _ _ (λ o. ground arith) t))
  skip_or_extend-Walked (suc k) c cs d l = elim (next_or_new_cases v c cs d l) [
    | inl (e, none_free) ↦
        exhausted d cs (step_full k c d d e) none_free (unchanged-Stored v d (c ∷ cs) l)
    | inr (n, d1, ns, e, s) ↦
        further-Walked k c n cs ns d d1 e s (skip_or_extend-Walked k n ns d1 s.linked.3)
  ]
