-- ===== src/Fat32/Names/Reading.antt =====
-- The entries of a long name are read as they were written.
use valerioedx.Base.{
  ℕ, zero, suc, ◌+◌, ◌*◌, ◌/◌, ◌%◌, ◌≤◌, ◌<◌, ◌≡◌, refl, Bool, true, false, ◌&&◌, List, ◌∷◌, Option,
  none, some, ltb, ◌==◌, if◌then◌else◌, get_or, length, min, arith, ap, ◌∙◌,
}
use valerioedx.Fat32.Names.{
  LfnEntry, fill_lfn_entry, lfn_chars, extract, lfn_extract_chars, LfnState, begin_lfn, read_lfn,
  lfn_entries, read_lfns, lfn_entries_needed, needs_lfn, lfn_count,
}
use valerioedx.Fat32.Names.Extract.{IsName, with_name, lfn_chars-fill, extract_lem}

-- The reader in the middle of a name.
inside_name : (checksum : ℕ) (buffer : ℕ → ℕ) → LfnState
inside_name checksum buffer = record {
  lfn_buffer = buffer;
  lfn_checksum_expected = checksum;
  lfn_valid = true;
}

read_at :
    (lfn : LfnEntry) (order checksum : ℕ) (s : LfnState) (buf out : ℕ → ℕ)
    → lfn.order % 64 ≡ order
    → lfn.checksum ≡ checksum
    → begin_lfn lfn s ≡ inside_name checksum buf
    → extract 13 0 (order * 13) (lfn_chars lfn) buf ≡ some out
    → read_lfn lfn s ≡ some (inside_name checksum out)
unfolding read_lfn inside_name lfn_extract_chars
read_at lfn order checksum s buf out eo ec eb ee =
    let equal : (lfn.checksum == checksum) ≡ true = ground (arith, ec) in
    ap
      (λ s'.
        if s'.lfn_valid && (lfn.checksum == s'.lfn_checksum_expected)
        then elim (lfn_extract_chars lfn (lfn.order % 64 * 13) s'.lfn_buffer) [
          | none ↦ none
          | some buffer ↦ some (record s' { lfn_buffer = buffer })
        ]
        else some s')
      eb
    ∙ rw (equal, eo, ee) refl

order_last :
    (name : List ℕ) (k checksum : ℕ)
    → k < 63
    → ((fill_lfn_entry name (suc k) true checksum).order % 64 ≡ suc k)
      × ((fill_lfn_entry name (suc k) true checksum).order / 64 % 2 ≡ 1)
unfolding fill_lfn_entry
order_last name k checksum h = (omega (arith, h), omega (arith, h))

order_other :
    (name : List ℕ) (k checksum : ℕ)
    → k < 63
    → ((fill_lfn_entry name (suc k) false checksum).order % 64 ≡ suc k)
      × ((fill_lfn_entry name (suc k) false checksum).order / 64 % 2 ≡ 0)
unfolding fill_lfn_entry
order_other name k checksum h = (omega (arith, h), omega (arith, h))

checksum_kept :
    (name : List ℕ) (order : ℕ) (is_last : Bool) (checksum : ℕ)
    → (fill_lfn_entry name order is_last checksum).checksum ≡ checksum
unfolding fill_lfn_entry
checksum_kept name order is_last checksum = refl

begin_last :
    (name : List ℕ) (k checksum : ℕ) (s : LfnState)
    → k < 63
    → begin_lfn (fill_lfn_entry name (suc k) true checksum) s ≡ inside_name checksum (λ i. 0)
unfolding begin_lfn inside_name
begin_last name k checksum s h =
    let first = (order_last name k checksum h).1 in
    let t : ((fill_lfn_entry name (suc k) true checksum).order / 64 % 2 == 1) ≡ true =
      ground (arith, first) in
    rw (t, checksum_kept name (suc k) true checksum) refl

begin_other :
    (name : List ℕ) (k checksum : ℕ) (s : LfnState)
    → k < 63
    → begin_lfn (fill_lfn_entry name (suc k) false checksum) s ≡ s
unfolding begin_lfn
begin_other name k checksum s h =
    let later = (order_other name k checksum h).1 in
    let t : ((fill_lfn_entry name (suc k) false checksum).order / 64 % 2 == 1) ≡ false =
      ground (arith, later) in
    rw t refl

-- What the entry of the order `k + 1` does to the buffer.
extract_entry :
    (name : List ℕ) (k checksum : ℕ) (is_last : Bool) (buf : ℕ → ℕ)
    → IsName name
    → length name < 256
    → k * 13 ≤ length name
    → (out : ℕ → ℕ) × (extract 13 0
          (suc k * 13)
          (lfn_chars (fill_lfn_entry name (suc k) is_last checksum))
          buf
        ≡ some out)
      × ((j : ℕ) → out j ≡ with_name name (k * 13) (min (k * 13 + 13) (length name)) buf j)
extract_entry name k checksum is_last buf ok short h =
    let e =
      extract_lem 13 0 k name (lfn_chars (fill_lfn_entry name (suc k) is_last checksum)) buf ok
        short (λ x. lfn_chars-fill name k x is_last checksum) refl (omega (arith, h)) in
    let start : suc k * 13 ≡ k * 13 + 0 + 13 = omega arith in
    let from : k * 13 + 0 ≡ k * 13 = omega arith in
    (
      e.0,
      ap (λ a. extract 13 0 a (lfn_chars (fill_lfn_entry name (suc k) is_last checksum)) buf) start
          ∙ e.1,
      λ j. e.2 j ∙ ap (λ a. with_name name a (min (k * 13 + 13) (length name)) buf j) from,
    )

-- The rest of the entries is read into the buffer.
Completes : (name : List ℕ) (checksum : ℕ) → Option LfnState → Type 0
Completes name checksum r =
    (out : ℕ → ℕ) × (r ≡ some (inside_name checksum out))
    × ((j : ℕ) → out j ≡ with_name name 0 (length name) (λ i. 0) j)

read_next :
    (lfn : LfnEntry) (lfns : List LfnEntry) (s s' : LfnState)
    → read_lfn lfn s ≡ some s'
    → read_lfns (lfn ∷ lfns) s ≡ read_lfns lfns s'
unfolding read_lfns
read_next lfn lfns s s' e = rw (read_lfns, e) refl

read_rest :
    (name : List ℕ) (n checksum left : ℕ) (buf : ℕ → ℕ)
    → IsName name
    → length name < 256
    → left < n
    → left * 13 ≤ length name
    → ((j : ℕ) → buf j ≡ with_name name (left * 13) (length name) (λ i. 0) j)
    → Completes name checksum
        (read_lfns (lfn_entries name n checksum left) (inside_name checksum buf))
unfolding lfn_entries Completes read_lfns
read_rest name n checksum zero buf ok short l h b = (buf, refl, λ j. b j)
read_rest name n checksum (suc k) buf ok short l h b =
    let not_last : (suc k == n) ≡ false = ground (arith, l) in
    let (out, e, bytes) = extract_entry name k checksum false buf ok short (omega (arith, h)) in
    let few : k < 63 = omega (arith, h, short) in
    let step =
      read_at (fill_lfn_entry name (suc k) false checksum) (suc k) checksum
        (inside_name checksum buf) buf out (order_other name k checksum few).0
        (checksum_kept name (suc k) false checksum)
        (begin_other name k checksum (inside_name checksum buf) few) e in
    rw (not_last, read_next _ (lfn_entries name n checksum k) _ _ step)
      (read_rest name n checksum k out ok short (omega (arith, l)) (omega (arith, h))
        (λ j. ground (arith, bytes j, b j, h)))

last_order : (n : ℕ) → 0 < n → (left : ℕ) × (n ≡ suc left)
last_order zero h = absurd (omega (arith, h))
last_order (suc left) h = (left, refl)

read_all :
    (name : List ℕ) (k checksum : ℕ) (s : LfnState)
    → IsName name
    → 0 < length name
    → length name < 256
    → (length name + 12) / 13 ≡ suc k
    → Completes name checksum (read_lfns (lfn_entries name (suc k) checksum (suc k)) s)
unfolding lfn_entries
read_all name k checksum s ok some_bytes short en =
    let last : (suc k == suc k) ≡ true = ground arith in
    let few : k < 63 = omega (arith, en, short) in
    let (out, e, bytes) =
      extract_entry name k checksum true (λ i. 0) ok short (omega (arith, en, some_bytes)) in
    let step =
      read_at (fill_lfn_entry name (suc k) true checksum) (suc k) checksum s (λ i. 0) out
        (order_last name k checksum few).0 (checksum_kept name (suc k) true checksum)
        (begin_last name k checksum s few) e in
    rw (last, read_next _ (lfn_entries name (suc k) checksum k) _ _ step)
      (read_rest name (suc k) checksum k out ok short (omega arith) (omega (arith, en, some_bytes))
        (λ j. ground (arith, bytes j, en)))

-- For a name of 1 to 255 bytes, none of which is 0, that needs_lfn tells from a short one, the
-- entries of the long name that fat32_create_entry writes are read by fat32_lookup, whatever it has
-- read before, without a write outside its buffer: then the buffer holds the name, with 0 behind it,
-- and the name is valid for the checksum that was written.
pub read_lfns-lfn_entries :
    (name : List ℕ) (checksum : ℕ) (s : LfnState)
    → IsName name
    → 0 < length name
    → length name < 256
    → needs_lfn name ≡ true
    → let n = lfn_count name in
      (s' : LfnState) × (read_lfns (lfn_entries name n checksum n) s ≡ some s')
      × (s'.lfn_valid ≡ true)
      × (s'.lfn_checksum_expected ≡ checksum)
      × ((j : ℕ) → s'.lfn_buffer j ≡ (if ltb j (length name) then get_or name j 0 else 0))
unfolding lfn_entries_needed lfn_count Completes inside_name
read_lfns-lfn_entries name checksum s ok some_bytes short long =
    let (k, en) = last_order ((length name + 12) / 13) (omega (arith, some_bytes)) in
    let counted : lfn_count name ≡ (length name + 12) / 13 = rw long refl in
    let (buffer, e, all) = read_all name k checksum s ok some_bytes short en in
    (
      inside_name checksum buffer,
      ap (λ n. read_lfns (lfn_entries name n checksum n) s) (counted ∙ en) ∙ e,
      refl,
      refl,
      λ j. all j ∙ ground arith,
    )
