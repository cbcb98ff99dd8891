-- ===== src/Fat32/Allocate.antt =====
-- The allocation of clusters: a free cluster is put at the end of a chain.
use valerioedx.Base.{
  ℕ, zero, suc, ◌+◌, ◌*◌, ◌≤◌, ◌<◌, ◌≡◌, refl, ◌≢◌, ◌⊎◌, inl, inr, true, false, ltb, leb, ◌==◌,
  if◌then◌else◌, arith, sym, ◌∙◌, Bool-cases, subst,
}
use valerioedx.Fat32.{
  Disk, Fs, end_of_chain, data_at, write_cluster, get_next_cluster, set_cluster_value, find_free,
  find_free_cluster, fat_sectors, allocate_cluster,
}
use valerioedx.Fat32.Volume.{
  IsVolume, IsCluster, next-set_same, next-set_other, data-set, next-write, data-write_same,
  data-write_other,
}

abbrev pub NoneFree : Fs → Disk → Type 0
NoneFree fs d = (c : ℕ) → 2 ≤ c → c < fat_sectors fs * 128 → get_next_cluster fs c d ≢ 0

-- Entry and data of a cluster are the same.
abbrev pub SameAt : Fs → Disk → Disk → ℕ → Type 0
SameAt fs d d' c =
    (get_next_cluster fs c d' ≡ get_next_cluster fs c d)
    × ((i : ℕ) → i < fs.bytes_per_cluster → d' (data_at fs c + i) ≡ d (data_at fs c + i))

-- `n` was free, and is behind `prev` now, ends the chain and is zero. Nothing else has changed.
pub record Allocated (fs : Fs) (limit prev n : ℕ) (d d' : Disk) : Type 0 where
  pub cluster : IsCluster limit n
  pub was_free : get_next_cluster fs n d ≡ 0
  pub ends : get_next_cluster fs n d' ≡ end_of_chain
  pub zeros : (i : ℕ) → i < fs.bytes_per_cluster → d' (data_at fs n + i) ≡ 0
  pub link : 2 ≤ prev → get_next_cluster fs prev d' ≡ n
  pub data_same :
      (c i : ℕ)
      → IsCluster limit c
      → c ≢ n
      → i < fs.bytes_per_cluster
      → d' (data_at fs c + i) ≡ d (data_at fs c + i)
  pub next_same :
      (c : ℕ)
      → IsCluster limit c
      → c ≢ n
      → c ≢ prev
      → get_next_cluster fs c d' ≡ get_next_cluster fs c d

unfoldable pub FreeFound : Fs → (left cluster : ℕ) → Disk → ℕ → Type 0
FreeFound fs left cluster d n =
    ((n ≡ 0) × ((c : ℕ) → 2 ≤ c → cluster ≤ c → c < cluster + left → get_next_cluster fs c d ≢ 0))
    ⊎ ((2 ≤ n) × (n < cluster + left) × (get_next_cluster fs n d ≡ 0))

-- A cluster that is not free, or none, is left out.
free_later :
    (fs : Fs) (left cluster : ℕ) (d : Disk) (n : ℕ)
    → (2 ≤ cluster → get_next_cluster fs cluster d ≢ 0)
    → FreeFound fs left (cluster + 1) d n
    → FreeFound fs (suc left) cluster d n
unfolding FreeFound
free_later fs left cluster d n used (inl (z, others)) = inl (
  z,
  λ c h l u. elim (Bool-cases (c == cluster)) [
    | inl e ↦
        let same : c ≡ cluster = ground (arith, e) in
        subst (λ x. get_next_cluster fs x d ≢ 0) (sym same) (used (omega (arith, same, h)))
    | inr ne ↦ others c h (ground (arith, ne, l)) (omega (arith, u))
  ],
)
free_later fs left cluster d n used (inr (two, u, free)) = inr (two, omega (arith, u), free)

free_step :
    (fs : Fs) (left cluster : ℕ) (d : Disk)
    → FreeFound fs left (cluster + 1) d (find_free fs left (cluster + 1) d)
    → FreeFound fs (suc left) cluster d (find_free fs (suc left) cluster d)
unfolding find_free FreeFound
free_step fs left cluster d ih = elim (Bool-cases (ltb cluster 2)) [
  | inl low ↦ rw low (free_later fs left cluster d _ (λ h. absurd (ground (arith, low, h))) ih)
  | inr high ↦ elim (Bool-cases (get_next_cluster fs cluster d == 0)) [
    | inl free ↦ rw (high, free) (inr (ground (arith, high), omega arith, ground (arith, free)))
    | inr used ↦ rw (high, used) (free_later fs left cluster d _ (λ h. ground (arith, used)) ih)
  ]
]

pub find_free-FreeFound :
    (fs : Fs) (left cluster : ℕ) (d : Disk)
    → FreeFound fs left cluster d (find_free fs left cluster d)
unfolding find_free FreeFound
find_free-FreeFound fs zero cluster d = inl (refl, λ c h l u. absurd (omega (arith, l, u)))
find_free-FreeFound fs (suc left) cluster d =
    free_step fs left cluster d (find_free-FreeFound fs left (cluster + 1) d)

abbrev pub Grants : (fs : Fs) (limit prev : ℕ) (d : Disk) → ℕ × Disk → Type 0
Grants fs limit prev d (n, d') =
    ((n ≡ 0) × (d' ≡ d) × NoneFree fs d) ⊎ Allocated fs limit prev n d d'

module _ {fs : Fs} {limit : ℕ} (v : IsVolume fs limit) where
  -- The three writes of allocate_cluster.
  writes : (prev n : ℕ) → Disk → Disk
  writes prev n d =
      let d1 = set_cluster_value fs n end_of_chain d in
      let d2 = if leb 2 prev then set_cluster_value fs prev n d1 else d1 in
      write_cluster fs n (λ i. 0) d2

  linked_same :
      (prev n c : ℕ) (d : Disk)
      → (2 ≤ prev → c ≢ prev)
      → IsCluster limit c
      → prev < limit
      → IsCluster limit n
      → get_next_cluster fs c (writes prev n d)
        ≡ get_next_cluster fs c (set_cluster_value fs n end_of_chain d)
  unfolding writes
  linked_same prev n c d ne h hp hn = next-write v c n _ _ h.1 hn ∙ elim (Bool-cases (leb 2 prev)) [
    | inl two ↦ rw two (next-set_other v prev c n _ hp h.1 (λ e. ne (ground (arith, two)) (sym e)))
    | inr low ↦ rw low refl
  ]

  linked_prev :
      (prev n : ℕ) (d : Disk)
      → 2 ≤ prev
      → prev < limit
      → IsCluster limit n
      → get_next_cluster fs prev (writes prev n d) ≡ n
  unfolding writes
  linked_prev prev n d two hp hn =
      let t : leb 2 prev ≡ true = ground (arith, two) in
      next-write v prev n _ _ hp hn
      ∙ rw t (next-set_same v prev n _ hp ∙ omega (arith, hn, v.numbers))

  data_kept :
      (prev n c i : ℕ) (d : Disk)
      → IsCluster limit c
      → prev < limit
      → IsCluster limit n
      → (if leb 2 prev
            then set_cluster_value fs prev n (set_cluster_value fs n end_of_chain d)
            else set_cluster_value fs n end_of_chain d)
          (data_at fs c + i)
        ≡ d (data_at fs c + i)
  data_kept prev n c i d hc hp hn =
      elim (Bool-cases (leb 2 prev)) [
        | inl two ↦ rw two (data-set v prev c n i _ hp hc)
        | inr low ↦ rw low refl
      ]
      ∙ data-set v n c end_of_chain i d hn.1 hc

  writes-Allocated :
      (prev n : ℕ) (d : Disk)
      → IsCluster limit n
      → get_next_cluster fs n d ≡ 0
      → prev < limit
      → (2 ≤ prev → get_next_cluster fs prev d ≢ 0)
      → Allocated fs limit prev n d (writes prev n d)
  unfolding writes
  writes-Allocated prev n d h free hp used =
      let apart : 2 ≤ prev → n ≢ prev =
        λ two e. used two (subst (λ x. get_next_cluster fs x d ≡ 0) e free) in
      record {
        cluster = h;
        was_free = free;
        ends = linked_same prev n n d apart h hp h ∙ next-set_same v n end_of_chain d h.1;
        zeros = λ i l. data-write_same v n i _ _ h l;
        link = λ two. linked_prev prev n d two hp h;
        data_same = λ c i hc ne l.
            data-write_other v n c i _ _ h hc (λ e. ne (sym e)) l ∙ data_kept prev n c i d hc hp h;
        next_same = λ c hc ne np.
            linked_same prev n c d (λ t. np) hc hp h
            ∙ next-set_other v n c _ d h.1 hc.1 (λ e. ne (sym e));
      }

  -- Given memory, a cluster is free and allocated, or none is free and nothing changes.
  pub allocate_cluster-Grants :
      (prev : ℕ) (d : Disk)
      → prev < limit
      → (2 ≤ prev → get_next_cluster fs prev d ≢ 0)
      → Grants fs limit prev d (allocate_cluster fs true prev d)
  unfolding allocate_cluster find_free_cluster writes FreeFound
  allocate_cluster-Grants prev d hp used =
      elim (find_free-FreeFound fs (fat_sectors fs * 128) 0 d) [
        | inl (none_found, others) ↦
            rw (none_found) (inl (refl, refl, λ c h l. others c h (omega arith) (omega (arith, l))))
        | inr (two, below, free) ↦
            let n = find_free fs (fat_sectors fs * 128) 0 d in
            let some_found : (n == 0) ≡ false = ground (arith, two) in
            rw (some_found)
              (inr (writes-Allocated prev n d (two, omega (arith, below, v.searched)) free hp used))
      ]
