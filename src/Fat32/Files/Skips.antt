-- ===== src/Fat32/Files/Skips.antt =====
-- The walk to the cluster that is read first.
use valerioedx.Base.{
  ℕ, zero, suc, ◌+◌, ◌*◌, ◌/◌, ◌%◌, ◌^◌, ◌≤◌, ◌<◌, ◌≡◌, refl, inl, inr, List, [], ◌∷◌, some, ltb,
  length, arith, ap, ◌∙◌, Bool-cases, ltb→lt,
}
use valerioedx.Fat32.{Disk, Fs}
use native.Mathlib.Nat.{div-add-mod', mod-lt, mul-le-mul_right, mul-le-mul_left, mul-one}
use valerioedx.Fat32.Volume.{IsVolume}
use valerioedx.Fat32.Chain.{Linked, byte_at, byte_at_skip, next_inside}
use valerioedx.Fat32.Files.{skip_clusters}

module _ {fs : Fs} {limit : ℕ} (v : IsVolume fs limit) where
  -- The place that is `k` clusters further in the chain.
  pub record Further (d : Disk) (c k : ℕ) (cs : List ℕ) : Type 0 where
    pub here : ℕ
    pub rest : List ℕ
    pub found : skip_clusters fs k c d ≡ some here
    pub linked : Linked fs limit d (here ∷ rest)
    pub bytes :
        (r : ℕ)
        → byte_at fs d (c ∷ cs) (k * fs.bytes_per_cluster + r) ≡ byte_at fs d (here ∷ rest) r
    pub left : length (here ∷ rest) + k ≡ length (c ∷ cs)

  pub skip-Further :
      (k c : ℕ) (cs : List ℕ) (d : Disk)
      → Linked fs limit d (c ∷ cs)
      → k ≤ length cs
      → Further d c k cs
  unfolding skip_clusters
  skip-Further zero c cs d l h = record {
    here = c;
    rest = cs;
    found = refl;
    linked = l;
    bytes = λ r. ap (byte_at fs d (c ∷ cs)) (omega arith);
    left = omega arith;
  }
  skip-Further (suc k) c [] d l h = absurd (omega (arith, h))
  skip-Further (suc k) c (c' ∷ cs) d l h =
      let f = skip-Further k c' cs d l.3 (omega (arith, h)) in
      record {
        here = f.here;
        rest = f.rest;
        found = rw (skip_clusters, next_inside v d c c' l.1 l.3.0, l.1) f.found;
        linked = f.linked;
        bytes = λ r. byte_at_skip fs d c (c' ∷ cs) k r ∙ f.bytes r;
        left = omega (arith, f.left);
      }

  -- The whole clusters in front of an offset lie in the chain.
  pub skip_count :
      (offset n : ℕ)
      → offset < n * fs.bytes_per_cluster
      → (offset / fs.bytes_per_cluster < n)
        × (offset / fs.bytes_per_cluster * fs.bytes_per_cluster + offset % fs.bytes_per_cluster
            ≡ offset)
        × (offset % fs.bytes_per_cluster < fs.bytes_per_cluster)
  skip_count offset n h =
      let b = fs.bytes_per_cluster in
      let pos_size : 0 < b = omega (arith, v.cluster_size, v.not_empty) in
      let split = div-add-mod' offset b in
      let r = mod-lt offset pos_size in
      let at_least : n ≤ offset / b → n * b ≤ offset / b * b = λ m. mul-le-mul_right b m in
      (
        elim (Bool-cases (ltb (offset / b) n)) [
          | inl less ↦ ltb→lt (offset / b) n less
          | inr more ↦ absurd (omega (arith, h, split, at_least (ground (arith, more))))
        ],
        split,
        r,
      )

  pub small_count : (offset : ℕ) → offset < 2 ^ 32 → offset / fs.bytes_per_cluster < 2 ^ 32
  small_count offset h =
      let b = fs.bytes_per_cluster in
      let k = offset / b in
      let one : 1 ≤ b = omega (arith, v.cluster_size, v.not_empty) in
      omega (arith, h, div-add-mod' offset b, mul-le-mul_left k one, mul-one k)
