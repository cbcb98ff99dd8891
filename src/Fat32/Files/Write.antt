-- ===== src/Fat32/Files/Write.antt =====
-- fat32_write_file changes the bytes that it is given.
use valerioedx.Base.{
  ℕ, ◌+◌, ◌-◌, ◌%◌, ◌^◌, ◌≤◌, ◌<◌, ◌≡◌, refl, ◌≢◌, ◌⊎◌, inl, inr, Bool, true, ◌&&◌, ◌||◌, List, ◌∷◌,
  ltb, leb, ◌==◌, if◌then◌else◌, arith, ap, sym, ◌∙◌, Bool-cases, subst, ◌*◌, length,
}
use valerioedx.Fat32.{Disk, Fs, get_next_cluster}
use valerioedx.Fat32.Volume.{IsVolume, IsCluster}
use valerioedx.Fat32.Chain.{Linked, byte_at}
use valerioedx.Fat32.Allocate.{NoneFree}
use valerioedx.Fat32.Files.{Fat32File, Fat32Result, update_entry, stamp_write}
use valerioedx.Fat32.Allocate.{SameAt}
use valerioedx.Fat32.Chain.{Absent}
use valerioedx.Fat32.Files.Writing.{write_loop, fat32_write_file}
use valerioedx.Fat32.Files.Stored.{Stored, unchanged-Stored}
use valerioedx.Fat32.Files.Rounds.{spliced}
use valerioedx.Fat32.Files.Entry.{
  FirstOf, DirApart, update-Kept, update-NoneFree, nowhere, first_at, first_or_new-Started,
}
use valerioedx.Fat32.Files.Placing.{Placed, stopped, placed, placing-Done}
use valerioedx.Fat32.Files.Outcomes.{
  written_none, written_nowhere, written_stopped, written_placed, sized, grown_size, grown_place,
}

-- What holds after a call of fat32_write_file for the file with the clusters `before`.
pub record FileWritten (fs : Fs) (limit : ℕ) (node : Fat32File) (offset size : ℕ) (buffer : ℕ → ℕ)
    (d : Disk) (before : List ℕ) (o : Fat32Result) : Type 0 where
  pub after : List ℕ
  pub first : FirstOf o.node.first_cluster after
  pub linked : Linked fs limit o.disk after
  pub bytes :
      (i : ℕ)
      → byte_at fs o.disk after i ≡ (
          if leb offset i && ltb i (offset + o.count)
          then buffer (i - offset)
          else byte_at fs d before i)
  pub longer : length before ≤ length after
  pub holds : (o.count ≡ 0) ⊎ (offset + o.count ≤ length after * fs.bytes_per_cluster)
  pub within : o.count ≤ size
  pub complete : (o.count ≡ size) ⊎ NoneFree fs o.disk
  pub file_size :
      o.node.size
      ≡ (if (o.count == 0) || leb (offset + o.count) node.size then node.size else offset + o.count)
  pub others :
      (x : ℕ)
      → IsCluster limit x
      → get_next_cluster fs x d ≢ 0
      → Absent x before
      → x ≢ node.dir_entry_cluster
      → SameAt fs d o.disk x

module _ {fs : Fs} {limit : ℕ} (v : IsVolume fs limit) where
  -- A call that writes nothing.
  unwritten :
      (node : Fat32File) (offset size c : ℕ) (buffer : ℕ → ℕ) (d d' : Disk) (before after : List ℕ)
      → FirstOf c after
      → (0 ≡ size) ⊎ NoneFree fs d'
      → Stored fs limit d d' before after (byte_at fs d before)
      → FileWritten fs limit node offset size buffer d before (record {
        count = 0;
        buffer = buffer;
        node = record node { first_cluster = c };
        disk = d';
      })
  unwritten node offset size c buffer d d' before after first why s = record {
    after = after;
    first = first;
    linked = s.linked;
    longer = s.longer;
    holds = inl refl;
    bytes = λ i. s.bytes i ∙ ground arith;
    within = omega arith;
    complete = why;
    file_size = refl;
    others = λ x h u a ne. s.frame x h u a;
  }

  entered-FileWritten :
      (node n' : Fat32File) (offset size c : ℕ) (room : Bool) (change : (ℕ → ℕ) → ℕ → ℕ)
      (scratch buffer : ℕ → ℕ) (d : Disk) (before : List ℕ) (r : ℕ × Disk) (o : Fat32Result)
      → o.count ≡ r.0
      → o.disk ≡ update_entry fs room change n' scratch r.1
      → o.node.size
        ≡ (if (r.0 == 0) || leb (offset + r.0) node.size then node.size else offset + r.0)
      → o.node.first_cluster ≡ c
      → n'.dir_entry_cluster ≡ node.dir_entry_cluster
      → DirApart fs limit node.dir_entry_cluster d before
      → Placed v d before c offset size buffer r
      → FileWritten fs limit node offset size buffer d before o
  entered-FileWritten node n' offset size c room change scratch buffer d before r o e0 e1 e2 e3 dir
        apart p =
      let apart' = subst (λ x. DirApart fs limit x d before) (sym dir) apart in
      let k = update-Kept v d r.1 n' room change scratch before (c ∷ p.after) _ apart' p.stored in
      let full = update-NoneFree v r.1 n' room change scratch (λ two. (apart' two).0) in
      record {
        after = c ∷ p.after;
        first = e3;
        linked = subst (λ x. Linked fs limit x (c ∷ p.after)) (sym e1) k.linked;
        bytes = λ i.
            ap (λ x. byte_at fs x (c ∷ p.after) i) e1
            ∙ k.bytes i
            ∙ ap (λ n. spliced offset (offset + n) buffer (byte_at fs d before) i) (sym e0);
        longer = p.stored.longer;
        holds = inr (
            subst (λ n. offset + n ≤ length (c ∷ p.after) * fs.bytes_per_cluster) (sym e0) p.holds);
        within = subst (λ n. n ≤ size) (sym e0) p.within;
        complete = elim p.complete [
          | inl all ↦ inl (e0 ∙ all)
          | inr none_free ↦ inr (subst (NoneFree fs) (sym e1) (full none_free))
        ];
        file_size =
            e2
            ∙ ap (λ n. if (n == 0) || leb (offset + n) node.size then node.size else offset + n)
                (sym e0);
        others = λ x h u a ne.
            subst (λ y. SameAt fs d y x) (sym e1) (k.frame x h u a (λ e. ne (e ∙ dir)));
      }

  -- On a volume whose areas do not overlap, fat32_write_file, given memory, of a file with a chain of
  -- clusters, or none, from an offset below 2^32 on: the file has a chain of clusters, each once, that
  -- starts with its first cluster, is not shorter than before and reaches to the end of what is written;
  -- its bytes from the offset on are those of the buffer, as many as the number returned, and all others are
  -- what they were, where a byte behind the chain counts as 0; the number is the one asked for, or fewer
  -- where no cluster is free; the size of the file grows to the end of what is written; and no used
  -- cluster but those of the file and that of its directory entry has changed, where the latter is not
  -- one of the former.
  pub fat32_write_file_lem :
      (cs : List ℕ) (dir_room : Bool) (date time : ℕ) (scratch : ℕ → ℕ) (node : Fat32File)
      (offset size : ℕ) (buffer : ℕ → ℕ) (d : Disk)
      → Linked fs limit d cs
      → FirstOf node.first_cluster cs
      → DirApart fs limit node.dir_entry_cluster d cs
      → offset < 2 ^ 32
      → FileWritten fs limit node offset size buffer d cs
          (fat32_write_file fs true true dir_room date time scratch node offset size buffer d)
  fat32_write_file_lem cs dir_room date time scratch node offset size buffer d l first apart small =
      elim (Bool-cases (size == 0)) [
        | inl nothing ↦
            let e : size ≡ 0 = ground (arith, nothing) in
            rw (e, written_none v dir_room date time scratch node offset buffer d)
              (unwritten node offset 0 node.first_cluster buffer d d cs cs first (inl refl)
                (unchanged-Stored v d cs l))
        | inr more ↦ elim (first_or_new-Started v node cs d l first) [
          | nowhere e full ↦
              rw (written_nowhere v dir_room date time scratch node offset size buffer d d e more) (
                unwritten node offset size node.first_cluster buffer d d cs cs first (inr full)
                  (unchanged-Stored v d cs l))
          | first_at c d1 after e s ↦
              elim (placing-Done v d d1 cs after c offset size scratch buffer small s) [
                | stopped d2 after' e' full t ↦
                    rw
                      (written_stopped v dir_room date time scratch node offset size c buffer d d1
                        d2 e e' more)
                      (unwritten node offset size c buffer d d2 cs (c ∷ after') refl (inr full) t)
                | placed f d2 e' p ↦
                    let (e0, e1, e2, e3) =
                      written_placed v dir_room date time scratch node offset size c f buffer d d1
                        d2 e e' more in
                    let r =
                      write_loop fs true size f (offset % fs.bytes_per_cluster) 0 size scratch
                        buffer d2 in
                    let n' = sized v node c (offset + r.0) in
                    let place = grown_place v node c (offset + r.0) in
                    entered-FileWritten node n' offset size c dir_room
                      (stamp_write date time node.dir_entry_offset n') scratch buffer d cs r _ e0 e1
                      (e2 ∙ grown_size v node c offset r.0 (p.some_written (ground (arith, more))))
                      (e3 ∙ place.1) place.0 apart p
              ]
        ]
      ]
