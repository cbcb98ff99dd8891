-- ===== src/Fat32/Files/Stored.antt =====
-- What a write leaves of a chain of clusters and of the clusters of others.
use valerioedx.Base.{
  length, ℕ, ◌-◌, ◌≤◌, ◌<◌, ◌≡◌, refl, ◌≢◌, inl, inr, List, [], ◌∷◌, ltb, if◌then◌else◌, arith, sym,
  ◌∙◌, Bool-cases, subst, ltb→lt,
}
use valerioedx.Fat32.{Disk, Fs, end_of_chain, get_next_cluster, write_cluster}
use valerioedx.Fat32.Volume.{IsVolume, IsCluster, next-write, data-write_same, data-write_other}
use valerioedx.Fat32.Chain.{LeadsTo, Absent, Linked, byte_at, byte_at_first, byte_at_behind}
use valerioedx.Fat32.Allocate.{SameAt}

-- The chain `before` has become `after`, whose bytes are `content`; no other used cluster has joined it
-- or has changed.
pub record Stored (fs : Fs) (limit : ℕ) (d d' : Disk) (before after : List ℕ) (content : ℕ → ℕ)
    : Type 0 where
  pub linked : Linked fs limit d' after
  pub longer : length before ≤ length after
  pub bytes : (o : ℕ) → byte_at fs d' after o ≡ content o
  pub fresh :
      (x : ℕ) → IsCluster limit x → get_next_cluster fs x d ≢ 0 → Absent x before → Absent x after
  pub frame :
      (x : ℕ) → IsCluster limit x → get_next_cluster fs x d ≢ 0 → Absent x before → SameAt fs d d' x

module _ {fs : Fs} {limit : ℕ} (v : IsVolume fs limit) where
  pub unchanged-Stored :
      (d : Disk) (cs : List ℕ) → Linked fs limit d cs → Stored fs limit d d cs cs (byte_at fs d cs)
  unchanged-Stored d cs l = record {
    linked = l;
    longer = omega arith;
    bytes = λ o. refl;
    fresh = λ x h u a. a;
    frame = λ x h u a. (refl, λ i l. refl);
  }

  pub retell-Stored :
      {d d' : Disk} {before after : List ℕ} (content content' : ℕ → ℕ)
      → ((o : ℕ) → content o ≡ content' o)
      → Stored fs limit d d' before after content
      → Stored fs limit d d' before after content'
  retell-Stored content content' same s = record {
    linked = s.linked;
    longer = s.longer;
    bytes = λ o. s.bytes o ∙ same o;
    fresh = s.fresh;
    frame = s.frame;
  }

  used_still :
      (d d' : Disk) (x : ℕ)
      → SameAt fs d d' x
      → get_next_cluster fs x d ≢ 0
      → get_next_cluster fs x d' ≢ 0
  used_still d d' x s u e = u (sym s.0 ∙ e)

  -- One change of a chain after another.
  pub then-Stored :
      (d dm d' : Disk) (before mid after : List ℕ) (first second : ℕ → ℕ)
      → Stored fs limit d dm before mid first
      → Stored fs limit dm d' mid after second
      → Stored fs limit d d' before after second
  then-Stored d dm d' before mid after first second s t = record {
    linked = t.linked;
    longer = omega (arith, s.longer, t.longer);
    bytes = t.bytes;
    fresh = λ x h u a. t.fresh x h (used_still d dm x (s.frame x h u a) u) (s.fresh x h u a);
    frame = λ x h u a.
        let e = s.frame x h u a in
        let e' = t.frame x h (used_still d dm x e u) (s.fresh x h u a) in
        (e'.0 ∙ e.0, λ i l. e'.1 i l ∙ e.1 i l);
  }

  not_end :
      (d : Disk) (c c' : ℕ)
      → get_next_cluster fs c d ≡ c'
      → IsCluster limit c'
      → get_next_cluster fs c d ≢ 0
  not_end d c c' e h = omega (arith, e, h)

  -- A change of the chain behind its first cluster, after one of the whole chain.
  pub behind-Stored :
      (d dm d' : Disk) (before : List ℕ) (c c' : ℕ) (mid after : List ℕ) (first second : ℕ → ℕ)
      → Stored fs limit d dm before (c ∷ c' ∷ mid) first
      → Stored fs limit dm d' (c' ∷ mid) (c' ∷ after) second
      → Stored fs limit d d' before
          (c ∷ c' ∷ after)
          (λ o. if ltb o fs.bytes_per_cluster then first o else second (o - fs.bytes_per_cluster))
  behind-Stored d dm d' before c c' mid after first second s t =
      let used = not_end dm c c' s.linked.1 s.linked.3.0 in
      let same = t.frame c s.linked.0 used s.linked.2 in
      record {
        linked = (s.linked.0, same.0 ∙ s.linked.1, t.fresh c s.linked.0 used s.linked.2, t.linked);
        longer = omega (arith, s.longer, t.longer);
        bytes = λ o. elim (Bool-cases (ltb o fs.bytes_per_cluster)) [
          | inl low ↦
              let l = ltb→lt o fs.bytes_per_cluster low in
              rw low (
                byte_at_first fs d' c (c' ∷ after) o l
                ∙ same.1 o l
                ∙ sym (byte_at_first fs dm c (c' ∷ mid) o l)
                ∙ s.bytes o)
          | inr high ↦ rw high (
              byte_at_behind fs d' c (c' ∷ after) o (ground (arith, high))
              ∙ t.bytes (o - fs.bytes_per_cluster))
        ];
        fresh = λ x h u a.
            let m = s.fresh x h u a in
            (m.0, t.fresh x h (used_still d dm x (s.frame x h u a) u) m.1);
        frame = λ x h u a.
            let m = s.fresh x h u a in
            let e = s.frame x h u a in
            let e' = t.frame x h (used_still d dm x e u) m.1 in
            (e'.0 ∙ e.0, λ i l. e'.1 i l ∙ e.1 i l);
      }

  -- A write to a cluster changes no entry, and no byte of a chain without that cluster.
  pub leads-write :
      (w c : ℕ) (cs : List ℕ) (b : ℕ → ℕ) (d : Disk)
      → IsCluster limit w
      → c < limit
      → LeadsTo fs d c cs
      → LeadsTo fs (write_cluster fs w b d) c cs
  leads-write w c [] b d hw h l = subst (λ n. end_of_chain ≤ n) (sym (next-write v c w b d h hw)) l
  leads-write w c (c' ∷ cs) b d hw h l = next-write v c w b d h hw ∙ l

  pub write-Linked :
      (w : ℕ) (cs : List ℕ) (b : ℕ → ℕ) (d : Disk)
      → IsCluster limit w
      → Linked fs limit d cs
      → Linked fs limit (write_cluster fs w b d) cs
  write-Linked w [] b d hw l = l
  write-Linked w (c ∷ cs) b d hw l =
      (l.0, leads-write w c cs b d hw l.0.1 l.1, l.2, write-Linked w cs b d hw l.3)

  pub byte_at-write :
      (w : ℕ) (cs : List ℕ) (b : ℕ → ℕ) (d : Disk) (o : ℕ)
      → IsCluster limit w
      → Absent w cs
      → Linked fs limit d cs
      → byte_at fs (write_cluster fs w b d) cs o ≡ byte_at fs d cs o
  unfolding byte_at
  byte_at-write w [] b d o hw a l = refl
  byte_at-write w (c ∷ cs) b d o hw a l =
      let ih = byte_at-write w cs b d (o - fs.bytes_per_cluster) hw a.1 l.3 in
      elim (Bool-cases (ltb o fs.bytes_per_cluster)) [
        | inl low ↦
            rw low (data-write_other v w c o b d hw l.0 a.0 (ltb→lt o fs.bytes_per_cluster low))
        | inr high ↦ rw high ih
      ]

  pub write-Stored :
      (c : ℕ) (cs : List ℕ) (b : ℕ → ℕ) (d : Disk)
      → Linked fs limit d (c ∷ cs)
      → Stored fs limit d
          (write_cluster fs c b d)
          (c ∷ cs)
          (c ∷ cs)
          (λ o. if ltb o fs.bytes_per_cluster then b o else byte_at fs d (c ∷ cs) o)
  write-Stored c cs b d l = record {
    linked = write-Linked c (c ∷ cs) b d l.0 l;
    longer = omega arith;
    bytes = λ o. elim (Bool-cases (ltb o fs.bytes_per_cluster)) [
      | inl low ↦
          let h = ltb→lt o fs.bytes_per_cluster low in
          rw low (byte_at_first fs _ c cs o h ∙ data-write_same v c o b d l.0 h)
      | inr high ↦
          let h : fs.bytes_per_cluster ≤ o = ground (arith, high) in
          rw high (
            byte_at_behind fs _ c cs o h
            ∙ byte_at-write c cs b d (o - fs.bytes_per_cluster) l.0 l.2 l.3
            ∙ sym (byte_at_behind fs d c cs o h))
    ];
    fresh = λ x h u a. a;
    frame = λ x h u a. (
      next-write v x c b d h.1 l.0,
      λ i k. data-write_other v c x i b d l.0 h (λ e. a.0 (sym e)) k,
    );
  }
