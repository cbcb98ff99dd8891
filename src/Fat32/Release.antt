-- ===== src/Fat32/Release.antt =====
-- The release of a chain of clusters.
use valerioedx.Base.{
  member, ℕ, zero, suc, ◌+◌, ◌≤◌, ◌<◌, ◌≡◌, refl, true, false, ◌&&◌, inl, inr, List, [], ◌∷◌,
  length, ltb, leb, ◌==◌, if◌then◌else◌, arith, ap, sym, ◌∙◌, Bool-cases, subst,
}
use valerioedx.Fat32.{
  Disk, Fs, end_of_chain, data_at, get_next_cluster, set_cluster_value, free_cluster_chain,
}
use valerioedx.Fat32.Volume.{IsVolume, IsCluster, next-set_same, next-set_other, data-set}
use valerioedx.Fat32.Chain.{Absent, Linked}

-- The loop stops at the end of a chain, and goes on at a cluster.
stops :
    (fs : Fs) (rounds c : ℕ) (d : Disk) → end_of_chain ≤ c → free_cluster_chain fs rounds c d ≡ d
unfolding free_cluster_chain
stops fs zero c d h = refl
stops fs (suc rounds) c d h =
    let out : (leb 2 c && ltb c end_of_chain) ≡ false = ground (arith, h) in rw out refl

module _ {fs : Fs} {limit : ℕ} (v : IsVolume fs limit) where
  goes_on :
      (rounds c : ℕ) (d : Disk)
      → IsCluster limit c
      → free_cluster_chain fs (suc rounds) c d
        ≡ free_cluster_chain fs rounds (get_next_cluster fs c d) (set_cluster_value fs c 0 d)
  unfolding free_cluster_chain
  goes_on rounds c d h =
      let inside : (leb 2 c && ltb c end_of_chain) ≡ true = ground (arith, h, v.numbers) in
      rw inside refl

  set-Linked :
      (c value : ℕ) (cs : List ℕ) (d : Disk)
      → IsCluster limit c
      → Absent c cs
      → Linked fs limit d cs
      → Linked fs limit (set_cluster_value fs c value d) cs
  set-Linked c value [] d h a l = l
  set-Linked c value (c' ∷ []) d h a l = (
    l.0,
    subst (λ n. end_of_chain ≤ n) (sym (next-set_other v c c' value d h.1 l.0.1 a.0)) l.1,
    l.2,
    l.3,
  )
  set-Linked c value (c' ∷ c'' ∷ cs) d h a l = (
    l.0,
    next-set_other v c c' value d h.1 l.0.1 a.0 ∙ l.1,
    l.2,
    set-Linked c value (c'' ∷ cs) d h a.1 l.3,
  )

  absent-member : (c x : ℕ) (cs : List ℕ) → Absent c cs → x ≡ c → member x cs ≡ false
  unfolding member
  absent-member c x [] a e = refl
  absent-member c x (c' ∷ cs) a e =
      let rest = absent-member c x cs a.1 e in ground (arith, a.0, e, rest)

  -- An entry after the first cluster is set free, and then those behind.
  entry_after :
      (c x : ℕ) (cs : List ℕ) (d : Disk)
      → IsCluster limit c
      → x < limit
      → Absent c cs
      → (if member x cs then 0 else get_next_cluster fs x (set_cluster_value fs c 0 d))
        ≡ (if member x (c ∷ cs) then 0 else get_next_cluster fs x d)
  unfolding member
  entry_after c x cs d h hx a = elim (Bool-cases (x == c)) [
    | inl e ↦
        let same : x ≡ c = ground (arith, e) in
        let out = absent-member c x cs a same in
        let zero_there : get_next_cluster fs x (set_cluster_value fs c 0 d) ≡ 0 =
          ap (λ y. get_next_cluster fs y (set_cluster_value fs c 0 d)) same
          ∙ next-set_same v c 0 d h.1 in
        ground (arith, e, out, zero_there)
    | inr ne ↦
        let kept = next-set_other v c x 0 d h.1 hx (λ e. ground (arith, ne, e)) in
        ground (arith, ne, kept)
  ]

  -- On a volume whose areas do not overlap, and with a round for each cluster of a chain,
  -- free_cluster_chain sets the entries of its clusters to 0, and changes no other entry and no data.
  pub free_cluster_chain_lem :
      (rounds c : ℕ) (cs : List ℕ) (d : Disk)
      → Linked fs limit d (c ∷ cs)
      → length (c ∷ cs) ≤ rounds
      → let d' = free_cluster_chain fs rounds c d in
        ((x : ℕ)
          → x < limit
          → get_next_cluster fs x d' ≡ (if member x (c ∷ cs) then 0 else get_next_cluster fs x d))
        × ((x i : ℕ) → IsCluster limit x → d' (data_at fs x + i) ≡ d (data_at fs x + i))
  unfolding member
  free_cluster_chain_lem zero c cs d l enough = absurd (omega (arith, enough))
  free_cluster_chain_lem (suc rounds) c [] d l enough =
      rw
        (
          goes_on rounds c d l.0,
          stops fs rounds (get_next_cluster fs c d) (set_cluster_value fs c 0 d) l.1,
        )
        (λ x h. entry_after c x [] d l.0 h l.2, λ x i h. data-set v c x 0 i d l.0.1 h)
  free_cluster_chain_lem (suc rounds) c (c' ∷ cs) d l enough =
      let (entries, same) =
        free_cluster_chain_lem rounds c' cs (set_cluster_value fs c 0 d)
          (set-Linked c 0 (c' ∷ cs) d l.0 l.2 l.3) (omega (arith, enough)) in
      rw (goes_on rounds c d l.0, l.1)
        (
          λ x h. entries x h ∙ entry_after c x (c' ∷ cs) d l.0 h l.2,
          λ x i h. same x i h ∙ data-set v c x 0 i d l.0.1 h,
        )
