-- ===== src/Fat32/Leak.antt =====
-- allocate_cluster without memory for its buffer.
use valerioedx.Base.{
  ℕ, ◌*◌, ◌<◌, ◌≤◌, ◌≡◌, refl, ◌≢◌, inl, inr, true, false, leb, ◌==◌, arith, ◌∙◌, subst,
}
use valerioedx.Fat32.{
  Disk, Fs, end_of_chain, get_next_cluster, set_cluster_value, find_free, find_free_cluster,
  fat_sectors, allocate_cluster,
}
use valerioedx.Fat32.Volume.{IsVolume, IsCluster, next-set_same, next-set_other}
use valerioedx.Fat32.Allocate.{FreeFound, find_free-FreeFound}

module _ {fs : Fs} {limit : ℕ} (v : IsVolume fs limit) where
  taken_back :
      (prev n : ℕ) (d : Disk)
      → IsCluster limit prev
      → IsCluster limit n
      → n ≢ prev
      → let d' =
          set_cluster_value fs n 0
            (set_cluster_value fs prev n (set_cluster_value fs n end_of_chain d)) in
        (get_next_cluster fs prev d' ≡ n) × (get_next_cluster fs n d' ≡ 0)
  taken_back prev n d hp hn ne = (
    next-set_other v n prev 0 _ hn.1 hp.1 ne
        ∙ next-set_same v prev n _ hp.1
        ∙ omega (arith, hn, v.numbers),
    next-set_same v n 0 _ hn.1,
  )

  -- On a volume whose areas do not overlap, where a cluster is free and kmalloc fails, allocate_cluster
  -- behind a used cluster returns 0, and leaves that cluster linked to one that is free.
  pub allocate_cluster_leak :
      (prev c : ℕ) (d : Disk)
      → IsCluster limit prev
      → get_next_cluster fs prev d ≢ 0
      → 2 ≤ c
      → c < fat_sectors fs * 128
      → get_next_cluster fs c d ≡ 0
      → let r = allocate_cluster fs false prev d in
        (n : ℕ) × IsCluster limit n
        × (r.0 ≡ 0)
        × (get_next_cluster fs prev r.1 ≡ n)
        × (get_next_cluster fs n r.1 ≡ 0)
  unfolding allocate_cluster find_free_cluster FreeFound
  allocate_cluster_leak prev c d hp used two below free =
      elim (find_free-FreeFound fs (fat_sectors fs * 128) 0 d) [
        | inl (none_found, others) ↦ absurd (others c two (omega arith) (omega (arith, below)) free)
        | inr (two', below', free') ↦
            let n = find_free fs (fat_sectors fs * 128) 0 d in
            let hn : IsCluster limit n = (two', omega (arith, below', v.searched)) in
            let some_found : (n == 0) ≡ false = ground (arith, two') in
            let behind : leb 2 prev ≡ true = ground (arith, hp) in
            let apart : n ≢ prev = λ e. used (subst (λ x. get_next_cluster fs x d ≡ 0) e free') in
            let (link, gone) = taken_back prev n d hp hn apart in
            (
              n,
              hn,
              rw (some_found) refl,
              rw (some_found, behind) link,
              rw (some_found, behind) gone,
            )
      ]
