-- ===== src/Fat32/Names.antt =====
-- Long names in directories: lfn_checksum, lfn_extract_chars, lfn_entries_needed, needs_lfn and
-- fill_lfn_entry of kernel/fs/fat32.c, the loop of fat32_create_entry that writes the entries of a long name, and the part of
-- the loop of fat32_lookup that reads them. A name is the list of its bytes, without the 0 behind them.
mod Extract
mod Reading
mod Tests
use valerioedx.Base.{
  ℕ, zero, suc, ◌+◌, ◌-◌, ◌*◌, ◌/◌, ◌%◌, ◌^◌, Bool, true, false, ◌&&◌, ◌||◌, List, [], ◌∷◌, Option,
  none, some, ltb, leb, ◌==◌, if◌then◌else◌, get_or, length,
}

-- `fat_lfn_entry_t`; the attribute, type and cluster are the same in all.
pub record LfnEntry : Type 0 where
  pub order : ℕ
  pub name1 : ℕ → ℕ
  pub name2 : ℕ → ℕ
  pub name3 : ℕ → ℕ
  pub checksum : ℕ

-- `for (i = 0; i < 11; i++)`, by the rounds left.
pub sum_name : (rounds i sum : ℕ) (short_name : ℕ → ℕ) → ℕ
sum_name zero i sum short_name = sum
sum_name (suc rounds) i sum short_name =
    sum_name rounds (i + 1) (((if sum % 2 == 1 then 128 else 0) + sum / 2 + short_name i) % 256)
      short_name

pub lfn_checksum : (short_name : ℕ → ℕ) → ℕ
lfn_checksum short_name = sum_name 11 0 0 short_name

pub lfn_entries_needed : List ℕ → ℕ
lfn_entries_needed name = (length name + 12) / 13

-- What is behind the first '.', and how many bytes are in front of it.
pub at_dot : (before : ℕ) → List ℕ → Option (ℕ × List ℕ)
at_dot before [] = none
at_dot before (c ∷ cs) =
    let rest = at_dot (before + 1) cs in if c == b'.' then some (before, cs) else rest

pub has_dot : List ℕ → Bool
has_dot name = elim (at_dot 0 name) [ none ↦ false | some r ↦ true ]

-- Lower-case letters and spaces.
pub has_special : List ℕ → Bool
has_special [] = false
has_special (c ∷ cs) = (leb b'a' c && leb c b'z') || (c == b' ') || has_special cs

pub needs_lfn : (name : List ℕ) → Bool
needs_lfn name = if ltb 12 (length name) then true else elim (at_dot 0 name) [
  | some r ↦ if ltb 8 r.0 || ltb 3 (length r.1) || has_dot r.1 then true else has_special name
  | none ↦ if ltb 8 (length name) then true else has_special name
]

-- `lfn_count` of fat32_create_entry.
pub lfn_count : (name : List ℕ) → ℕ
lfn_count name = if needs_lfn name then lfn_entries_needed name else 0

-- The 16 bits for the byte at `pos`.
pub char_at : (name : List ℕ) (pos : ℕ) → ℕ
char_at name pos =
    if ltb pos (length name)
    then get_or name pos 0 % 256
    else if pos == length name
    then 0
    else 0xFFFF

-- `order | 0x40` for the last; the order is not 0.
pub fill_lfn_entry : (name : List ℕ) (order : ℕ) (is_last : Bool) (checksum : ℕ) → LfnEntry
fill_lfn_entry name order is_last checksum =
    let start = (order - 1) * 13 in
    record {
      order = (if is_last then order / 128 * 128 + 64 + order % 64 else order) % 256;
      name1 = λ i. char_at name (start + i);
      name2 = λ i. char_at name (start + 5 + i);
      name3 = λ i. char_at name (start + 11 + i);
      checksum = checksum;
    }

-- The array `chars`.
pub lfn_chars : LfnEntry → ℕ → ℕ
lfn_chars lfn i =
    if ltb i 5 then lfn.name1 i else if ltb i 11 then lfn.name2 (i - 5) else lfn.name3 (i - 11)

-- The loop over `chars`, by the rounds left. `at` is 13 above `*pos`, which can be negative; nothing where it
-- lies outside the 256 bytes of the buffer.
pub extract : (rounds i at : ℕ) (units buf : ℕ → ℕ) → Option (ℕ → ℕ)
extract zero i at units buf = some buf
extract (suc rounds) i at units buf =
    let rest =
      extract rounds (i + 1) (at + 1) units (λ j. if j + 13 == at then units i % 256 else buf j) in
    if (units i == 0) || (units i == 0xFFFF)
    then some buf
    else if ltb at 13 || leb (13 + 256) at
    then none
    else rest

pub lfn_extract_chars : LfnEntry → (at : ℕ) (buf : ℕ → ℕ) → Option (ℕ → ℕ)
lfn_extract_chars lfn at buf = extract 13 0 at (lfn_chars lfn) buf

-- `lfn_buffer`, `lfn_checksum_expected` and `lfn_valid`.
pub record LfnState : Type 0 where
  pub lfn_buffer : ℕ → ℕ
  pub lfn_checksum_expected : ℕ
  pub lfn_valid : Bool

-- What fat32_lookup does at an entry of a long name.
pub begin_lfn : LfnEntry → LfnState → LfnState
begin_lfn lfn s =
    if lfn.order / 64 % 2 == 1
    then record { lfn_buffer = λ i. 0; lfn_checksum_expected = lfn.checksum; lfn_valid = true }
    else s

pub read_lfn : LfnEntry → LfnState → Option LfnState
read_lfn lfn s =
    let s' = begin_lfn lfn s in
    if s'.lfn_valid && (lfn.checksum == s'.lfn_checksum_expected)
    then elim (lfn_extract_chars lfn (lfn.order % 64 * 13) s'.lfn_buffer) [
      | none ↦ none
      | some buffer ↦ some (record s' { lfn_buffer = buffer })
    ]
    else some s'

-- The `n` entries of a name, those with the orders from `left` down to 1.
pub lfn_entries : (name : List ℕ) (n checksum left : ℕ) → List LfnEntry
lfn_entries name n checksum zero = []
lfn_entries name n checksum (suc left) =
    fill_lfn_entry name (suc left) (suc left == n) checksum ∷ lfn_entries name n checksum left

-- The entries are read one after the other.
pub read_lfns : List LfnEntry → LfnState → Option LfnState
read_lfns [] s = some s
read_lfns (lfn ∷ lfns) s = elim (read_lfn lfn s) [ none ↦ none | some s' ↦ read_lfns lfns s' ]
