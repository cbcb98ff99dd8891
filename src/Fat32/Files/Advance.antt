-- ===== src/Fat32/Files/Advance.antt =====
-- The next cluster of a chain, which is allocated where there is none.
use valerioedx.Base.{
  ℕ, ◌≤◌, ◌≡◌, refl, ◌≢◌, ◌⊎◌, inl, inr, true, false, Option, none, some, List, [], ◌∷◌, ltb, leb,
  ◌==◌, arith, ap, sym, ◌∙◌, Bool-cases, ltb→lt,
}
use valerioedx.Fat32.{Disk, Fs, end_of_chain, get_next_cluster}
use valerioedx.Fat32.Volume.{IsVolume}
use valerioedx.Fat32.Chain.{Linked, byte_at, byte_at_first, byte_at_behind, next_inside}
use valerioedx.Fat32.Allocate.{NoneFree, Grants, Allocated, allocate_cluster-Grants}
use valerioedx.Fat32.Files.Writing.{allocated, next_or_new}
use valerioedx.Fat32.Files.Stored.{Stored, unchanged-Stored}

abbrev pub Extended :
    (fs : Fs) (limit : ℕ) (d : Disk) (before : List ℕ) (prev : ℕ) → Option ℕ × Disk → Type 0
Extended fs limit d before prev r =
    ((r ≡ (none, d)) × NoneFree fs d)
    ⊎ ((n : ℕ) × (d' : Disk) × (r ≡ (some n, d')) × Allocated fs limit prev n d d')

pub allocated_cases :
    (fs : Fs) (limit prev : ℕ) (d : Disk) (r : ℕ × Disk)
    → Grants fs limit prev d r
    → Extended fs limit d [] prev (allocated r)
allocated_cases fs limit prev d (n, d') (inl (z, same, full)) = inl (rw (z, same) refl, full)
allocated_cases fs limit prev d (n, d') (inr a) =
    let there : (n == 0) ≡ false = ground (arith, a.cluster) in inr (n, d', rw there refl, a)

module _ {fs : Fs} {limit : ℕ} (v : IsVolume fs limit) where
  zeros_at :
      (prev n : ℕ) (d d' : Disk) (o : ℕ)
      → Allocated fs limit prev n d d'
      → byte_at fs d' (n ∷ []) o ≡ 0
  unfolding byte_at
  zeros_at prev n d d' o a = elim (Bool-cases (ltb o fs.bytes_per_cluster)) [
    | inl low ↦ rw low (a.zeros o (ltb→lt o fs.bytes_per_cluster low))
    | inr high ↦ rw high refl
  ]

  -- A chain of the new cluster alone.
  pub started-Stored :
      (n : ℕ) (d d' : Disk)
      → Allocated fs limit 0 n d d'
      → Stored fs limit d d' [] (n ∷ []) (byte_at fs d [])
  unfolding byte_at
  started-Stored n d d' a =
      let unlike : (x : ℕ) → get_next_cluster fs x d ≢ 0 → x ≢ n =
        λ x u e. u (ap (λ y. get_next_cluster fs y d) e ∙ a.was_free) in
      record {
        linked = (a.cluster, omega (arith, a.ends), tt, tt);
        longer = omega arith;
        bytes = λ o. zeros_at 0 n d d' o a;
        fresh = λ x h u k. (unlike x u, tt);
        frame = λ x h u k. (
          a.next_same x h (unlike x u) (λ e. omega (arith, e, h)),
          λ i m. a.data_same x i h (unlike x u) m,
        );
      }

  -- The new cluster behind the last.
  appended-Stored :
      (c n : ℕ) (d d' : Disk)
      → Linked fs limit d (c ∷ [])
      → Allocated fs limit c n d d'
      → Stored fs limit d d' (c ∷ []) (c ∷ n ∷ []) (byte_at fs d (c ∷ []))
  unfolding byte_at
  appended-Stored c n d d' l a =
      let unlike : (x : ℕ) → get_next_cluster fs x d ≢ 0 → x ≢ n =
        λ x u e. u (ap (λ y. get_next_cluster fs y d) e ∙ a.was_free) in
      let used : get_next_cluster fs c d ≢ 0 = omega (arith, l.1) in
      record {
        linked =
            (l.0, a.link l.0.0, (unlike c used, tt), (a.cluster, omega (arith, a.ends), tt, tt));
        longer = omega arith;
        bytes = λ o. elim (Bool-cases (ltb o fs.bytes_per_cluster)) [
          | inl low ↦
              let h = ltb→lt o fs.bytes_per_cluster low in
              byte_at_first fs d' c (n ∷ []) o h
              ∙ a.data_same c o l.0 (unlike c used) h
              ∙ sym (byte_at_first fs d c [] o h)
          | inr high ↦
              let h : fs.bytes_per_cluster ≤ o = ground (arith, high) in
              byte_at_behind fs d' c (n ∷ []) o h
              ∙ zeros_at c n d d' _ a
              ∙ sym (byte_at_behind fs d c [] o h)
        ];
        fresh = λ x h u k. (k.0, (unlike x u, tt));
        frame =
            λ x h u k. (a.next_same x h (unlike x u) k.0, λ i m. a.data_same x i h (unlike x u) m);
      }

  pub next_or_new_cases :
      (c : ℕ) (cs : List ℕ) (d : Disk)
      → Linked fs limit d (c ∷ cs)
      → ((next_or_new fs true c d ≡ (none, d)) × NoneFree fs d)
        ⊎ ((n : ℕ) × (d' : Disk) × (ns : List ℕ) × (next_or_new fs true c d ≡ (some n, d'))
            × Stored fs limit d d' (c ∷ cs) (c ∷ n ∷ ns) (byte_at fs d (c ∷ cs)))
  unfolding next_or_new
  next_or_new_cases c (c' ∷ cs) d l = inr (
    c',
    d,
    cs,
    rw (next_inside v d c c' l.1 l.3.0, l.1) refl,
    unchanged-Stored v d (c ∷ c' ∷ cs) l,
  )
  next_or_new_cases c [] d l =
      let last : leb end_of_chain (get_next_cluster fs c d) ≡ true = ground (arith, l.1) in
      let used : get_next_cluster fs c d ≢ 0 = omega (arith, l.1) in
      let granted = allocate_cluster-Grants v c d l.0.1 (λ t. used) in
      elim (allocated_cases fs limit c d _ granted) [
        | inl (e, full) ↦ inl (rw last e, full)
        | inr (n, d', e, a) ↦ inr (n, d', [], rw last e, appended-Stored c n d d' l a)
      ]
