-- ===== src/Fat32/Files/Entry.antt =====
-- The directory entry after a write, and the first cluster of a file.
use valerioedx.Base.{
  ℕ, ◌≤◌, ◌<◌, ◌≡◌, ◌≢◌, inl, inr, Bool, true, false, ◌&&◌, Option, none, some, List, [], ◌∷◌, ltb,
  leb, arith, ap, sym, ◌∙◌, Bool-cases,
}
use valerioedx.Fat32.{Disk, Fs, get_next_cluster, write_cluster}
use valerioedx.Fat32.Volume.{IsVolume, IsCluster}
use valerioedx.Fat32.Chain.{Absent, Linked, byte_at}
use valerioedx.Fat32.Allocate.{NoneFree}
use valerioedx.Fat32.Files.{Fat32File, update_entry}
use valerioedx.Fat32.Allocate.{SameAt, allocate_cluster-Grants}
use valerioedx.Fat32.Volume.{next-write, data-write_other}
use valerioedx.Fat32.Files.Writing.{first_or_new}
use valerioedx.Fat32.Files.Stored.{Stored, unchanged-Stored, write-Linked, byte_at-write}
use valerioedx.Fat32.Files.Advance.{allocated_cases, started-Stored}

-- The chain of a file with the first cluster `first`.
abbrev pub FirstOf : (first : ℕ) → List ℕ → Type 0
FirstOf first [] = first < 2
FirstOf first (c ∷ cs) = first ≡ c

-- The cluster of the directory entry, where there is one, is used and is none of the file's.
abbrev pub DirApart : (fs : Fs) (limit : ℕ) (dir : ℕ) → Disk → List ℕ → Type 0
DirApart fs limit dir d cs =
    2 ≤ dir → IsCluster limit dir × (get_next_cluster fs dir d ≢ 0) × Absent dir cs

module _ {fs : Fs} {limit : ℕ} (v : IsVolume fs limit) where
  -- `Stored` but for the cluster of the directory entry.
  pub record Kept (d d' : Disk) (dir : ℕ) (before after : List ℕ) (content : ℕ → ℕ) : Type 0 where
    pub linked : Linked fs limit d' after
    pub bytes : (o : ℕ) → byte_at fs d' after o ≡ content o
    pub frame :
        (x : ℕ)
        → IsCluster limit x
        → get_next_cluster fs x d ≢ 0
        → Absent x before
        → x ≢ dir
        → SameAt fs d d' x

  pub unentered-Kept :
      (d d' : Disk) (dir : ℕ) (before after : List ℕ) (content : ℕ → ℕ)
      → Stored fs limit d d' before after content
      → Kept d d' dir before after content
  unentered-Kept d d' dir before after content s = record {
    linked = s.linked;
    bytes = s.bytes;
    frame = λ x h u a ne. s.frame x h u a;
  }

  write-Kept :
      (d d' : Disk) (dir : ℕ) (before after : List ℕ) (content b : ℕ → ℕ)
      → 2 ≤ dir
      → DirApart fs limit dir d before
      → Stored fs limit d d' before after content
      → Kept d (write_cluster fs dir b d') dir before after content
  write-Kept d d' dir before after content b two apart s =
      let (h, used, absent) = apart two in
      let out = s.fresh dir h used absent in
      record {
        linked = write-Linked v dir after b d' h s.linked;
        bytes = λ o. byte_at-write v dir after b d' o h out s.linked ∙ s.bytes o;
        frame = λ x hx u a ne.
            let same = s.frame x hx u a in
            (
              next-write v x dir b d' hx.1 h ∙ same.0,
              λ i l. data-write_other v dir x i b d' h hx (λ e. ne (sym e)) l ∙ same.1 i l,
            );
      }

  pub update-Kept :
      (d d' : Disk) (node : Fat32File) (room : Bool) (change : (ℕ → ℕ) → ℕ → ℕ) (scratch : ℕ → ℕ)
      (before after : List ℕ) (content : ℕ → ℕ)
      → DirApart fs limit node.dir_entry_cluster d before
      → Stored fs limit d d' before after content
      → Kept d
          (update_entry fs room change node scratch d')
          node.dir_entry_cluster
          before
          after
          content
  unfolding update_entry
  update-Kept d d' node room change scratch before after content apart s =
      elim (Bool-cases (leb 2 node.dir_entry_cluster && room)) [
        | inl written ↦ rw written (
            write-Kept d d' node.dir_entry_cluster before after content _ (ground (arith, written))
              apart s)
        | inr kept ↦ rw kept (unentered-Kept d d' node.dir_entry_cluster before after content s)
      ]

  -- No entry of the FAT changes with a directory entry.
  pub update-NoneFree :
      (d : Disk) (node : Fat32File) (room : Bool) (change : (ℕ → ℕ) → ℕ → ℕ) (scratch : ℕ → ℕ)
      → (2 ≤ node.dir_entry_cluster → IsCluster limit node.dir_entry_cluster)
      → NoneFree fs d
      → NoneFree fs (update_entry fs room change node scratch d)
  unfolding update_entry
  update-NoneFree d node room change scratch inside full =
      elim (Bool-cases (leb 2 node.dir_entry_cluster && room)) [
        | inl written ↦
            let h = inside (ground (arith, written)) in
            rw written (λ c two l e. full c two l (
              sym (next-write v c node.dir_entry_cluster _ d (omega (arith, l, v.searched)) h) ∙ e))
        | inr kept ↦ rw kept full
      ]

  -- The first cluster is there, or is allocated, or none is free.
  pub data Started (d : Disk) (cs : List ℕ) (r : Option ℕ × Disk) : Type 0 where
    nowhere : r ≡ (none, d) → NoneFree fs d → Started d cs r
    first_at :
        (c : ℕ) (d' : Disk) (after : List ℕ)
        → r ≡ (some c, d')
        → Stored fs limit d d' cs (c ∷ after) (byte_at fs d cs)
        → Started d cs r

  pub first_or_new-Started :
      (node : Fat32File) (cs : List ℕ) (d : Disk)
      → Linked fs limit d cs
      → FirstOf node.first_cluster cs
      → Started d cs (first_or_new fs true node d)
  unfolding first_or_new
  first_or_new-Started node (c ∷ cs) d l e =
      let high : ltb node.first_cluster 2 ≡ false = ground (arith, l.0, e) in
      rw high (first_at c d cs (ap (λ x. (some x, d)) e) (unchanged-Stored v d (c ∷ cs) l))
  first_or_new-Started node [] d l e =
      let low : ltb node.first_cluster 2 ≡ true = ground (arith, e) in
      let granted =
        allocate_cluster-Grants v 0 d (omega (arith, v.reserved))
          (λ t. absurd (omega (arith, t))) in
      rw low (elim (allocated_cases fs limit 0 d _ granted) [
        | inl (q, none_free) ↦ nowhere q none_free
        | inr (n, d', q, a) ↦ first_at n d' [] q (started-Stored v n d d' a)
      ])
