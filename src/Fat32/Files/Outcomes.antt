-- ===== src/Fat32/Files/Outcomes.antt =====
-- What a call of fat32_write_file comes to, by what its walk and its loop come to.
use valerioedx.Base.{
  ℕ, ◌+◌, ◌/◌, ◌%◌, ◌^◌, ◌<◌, ◌≡◌, refl, inl, inr, Bool, true, false, ◌||◌, none, some, ltb, leb,
  ◌==◌, if◌then◌else◌, arith, ap, Bool-cases,
}
use valerioedx.Fat32.{Disk, Fs}
use valerioedx.Fat32.Volume.{IsVolume}
use valerioedx.Fat32.Files.{Fat32File, update_entry, stamp_write}
use valerioedx.Fat32.Files.Writing.{
  first_or_new, skip_or_extend, write_loop, grown, fat32_write_file,
}

module _ {fs : Fs} {limit : ℕ} (v : IsVolume fs limit) where
  pub written_none :
      (dir_room : Bool) (date time : ℕ) (scratch : ℕ → ℕ) (node : Fat32File) (offset : ℕ)
      (buffer : ℕ → ℕ) (d : Disk)
      → fat32_write_file fs true true dir_room date time scratch node offset 0 buffer d
        ≡ record { count = 0; buffer = buffer; node = node; disk = d }
  unfolding fat32_write_file
  written_none dir_room date time scratch node offset buffer d = refl

  pub written_nowhere :
      (dir_room : Bool) (date time : ℕ) (scratch : ℕ → ℕ) (node : Fat32File) (offset size : ℕ)
      (buffer : ℕ → ℕ) (d d1 : Disk)
      → first_or_new fs true node d ≡ (none, d1)
      → (size == 0) ≡ false
      → fat32_write_file fs true true dir_room date time scratch node offset size buffer d
        ≡ record { count = 0; buffer = buffer; node = node; disk = d1 }
  unfolding fat32_write_file
  written_nowhere dir_room date time scratch node offset size buffer d d1 e n =
      rw (fat32_write_file, n, e, ap (λ r. r.1) e) refl

  pub written_stopped :
      (dir_room : Bool) (date time : ℕ) (scratch : ℕ → ℕ) (node : Fat32File) (offset size c : ℕ)
      (buffer : ℕ → ℕ) (d d1 d2 : Disk)
      → first_or_new fs true node d ≡ (some c, d1)
      → skip_or_extend fs true (offset / fs.bytes_per_cluster % 2 ^ 32) c d1 ≡ (none, d2)
      → (size == 0) ≡ false
      → fat32_write_file fs true true dir_room date time scratch node offset size buffer d
        ≡ record { count = 0; buffer = buffer; node = record node { first_cluster = c }; disk = d2 }
  unfolding fat32_write_file
  written_stopped dir_room date time scratch node offset size c buffer d d1 d2 e e' n =
      rw (fat32_write_file, n, e, ap (λ r. r.1) e, e', ap (λ r. r.1) e, ap (λ r. r.1) e') refl

  -- The inode and the device after a write that reaches the loop.
  unfoldable pub sized : (node : Fat32File) (c end : ℕ) → Fat32File
  sized node c end = grown end (record node { first_cluster = c })

  abbrev pub after_entry :
      (dir_room : Bool) (date time at : ℕ) (scratch : ℕ → ℕ) (node : Fat32File) → Disk → Disk
  after_entry dir_room date time at scratch node d3 =
      update_entry fs dir_room (stamp_write date time at node) node scratch d3

  stamped_size :
      (stamped : Bool) (node : Fat32File) (stamp : ℕ)
      → (if stamped then record node { mtime = stamp; atime = stamp } else node).size ≡ node.size
  stamped_size true node stamp = refl
  stamped_size false node stamp = refl

  stamped_first :
      (stamped : Bool) (node : Fat32File) (stamp : ℕ)
      → (if stamped then record node { mtime = stamp; atime = stamp } else node).first_cluster
        ≡ node.first_cluster
  stamped_first true node stamp = refl
  stamped_first false node stamp = refl

  pub written_placed :
      (dir_room : Bool) (date time : ℕ) (scratch : ℕ → ℕ) (node : Fat32File) (offset size c s : ℕ)
      (buffer : ℕ → ℕ) (d d1 d2 : Disk)
      → first_or_new fs true node d ≡ (some c, d1)
      → skip_or_extend fs true (offset / fs.bytes_per_cluster % 2 ^ 32) c d1 ≡ (some s, d2)
      → (size == 0) ≡ false
      → let r =
          write_loop fs true size s (offset % fs.bytes_per_cluster) 0 size scratch buffer d2 in
        let o =
          fat32_write_file fs true true dir_room date time scratch node offset size buffer d in
        (o.count ≡ r.0)
        × (o.disk
            ≡ after_entry dir_room date time node.dir_entry_offset scratch
                (sized node c (offset + r.0))
                r.1)
        × (o.node.size ≡ (sized node c (offset + r.0)).size)
        × (o.node.first_cluster ≡ (sized node c (offset + r.0)).first_cluster)
  unfolding fat32_write_file sized
  written_placed dir_room date time scratch node offset size c s buffer d d1 d2 e e' n =
      rw (fat32_write_file, n, e, ap (λ r. r.1) e, e', ap (λ r. r.1) e, ap (λ r. r.1) e')
        (refl, refl, stamped_size _ _ _, stamped_first _ _ _)

  pub grown_size :
      (node : Fat32File) (c offset count : ℕ)
      → 0 < count
      → (sized node c (offset + count)).size
        ≡ (if (count == 0) || leb (offset + count) node.size then node.size else offset + count)
  unfolding sized
  grown_size node c offset count h = elim (Bool-cases (ltb node.size (offset + count))) [
    | inl more ↦ rw more (ground (arith, h, more))
    | inr less ↦ rw less (ground (arith, h, less))
  ]

  pub grown_place :
      (node : Fat32File) (c end : ℕ)
      → ((sized node c end).dir_entry_cluster ≡ node.dir_entry_cluster)
        × ((sized node c end).first_cluster ≡ c)
  unfolding sized
  grown_place node c end = elim (Bool-cases (ltb node.size end)) [
    | inl more ↦ rw more (refl, refl)
    | inr less ↦ rw less (refl, refl)
  ]
