-- ===== src/Fat32/Names/Tests.antt =====
-- A name of two entries.
use valerioedx.Base.{
  ℕ, zero, suc, refl, ◌≡◌, Bool, true, false, List, [], ◌∷◌, some, ltb, ◌&&◌, if◌then◌else◌, get_or,
  length, arith,
}
use valerioedx.Fat32.Names.{
  LfnState, lfn_entries, lfn_count, needs_lfn, at_dot, has_dot, has_special, read_lfns,
}
use valerioedx.Fat32.Names.Extract.{IsName}
use valerioedx.Fat32.Names.Reading.{read_lfns-lfn_entries}

abbrev long_name : List ℕ
long_name =
    b'a' ∷ b' ' ∷ b'l' ∷ b'o' ∷ b'n' ∷ b'g' ∷ b' ' ∷ b'n' ∷ b'a' ∷ b'm' ∷ b'e' ∷ b'.' ∷ b't' ∷ b'e'
    ∷ b'x' ∷ b't' ∷ []

all_bytes : List ℕ → Bool
all_bytes [] = true
all_bytes (x ∷ xs) = ltb 0 x && ltb x 256 && all_bytes xs

all_bytes-IsName : (xs : List ℕ) → all_bytes xs ≡ true → IsName xs
unfolding all_bytes
all_bytes-IsName [] h i l = absurd (omega (arith, l))
all_bytes-IsName (x ∷ xs) h zero l = (ground (arith, h), ground (arith, h))
all_bytes-IsName (x ∷ xs) h (suc i) l = all_bytes-IsName xs (ground (arith, h)) i (omega (arith, l))

long_name-IsName : IsName long_name
unfolding all_bytes
long_name-IsName = all_bytes-IsName long_name refl

abbrev untouched : LfnState
untouched = record { lfn_buffer = λ i. 7; lfn_checksum_expected = 0; lfn_valid = true }

long_name_needs : needs_lfn long_name ≡ true
unfolding needs_lfn
long_name_needs = refl

-- A '+' is not in the short name, but no long one is written.
plus_name : needs_lfn (b'A' ∷ b'+' ∷ b'B' ∷ []) ≡ false
unfolding needs_lfn at_dot has_dot has_special
plus_name = refl

read_lfns_example :
    let n = lfn_count long_name in
    (s' : LfnState) × (read_lfns (lfn_entries long_name n 90 n) untouched ≡ some s')
    × (s'.lfn_valid ≡ true)
    × (s'.lfn_checksum_expected ≡ 90)
    × ((j : ℕ) → s'.lfn_buffer j ≡ (if ltb j (length long_name) then get_or long_name j 0 else 0))
read_lfns_example =
    read_lfns-lfn_entries long_name 90 untouched long_name-IsName (omega arith) (omega arith)
      long_name_needs
