-- ===== src/Numbers.antt =====
-- strtoul of user/src/stdlib.c. A text is the list of its bytes without the 0; `*endptr` is the text that it
-- points to. A base that is negative is refused as 1 is.
mod Scan
mod Texts
mod Reads
mod Value
mod Tests
use valerioedx.Base.{
  ℕ, zero, suc, ◌+◌, ◌-◌, ◌*◌, ◌/◌, ◌%◌, ◌^◌, Bool, true, false, ◌&&◌, ◌||◌, not, List, [], ◌∷◌,
  Option, none, some, ltb, leb, ◌==◌, if◌then◌else◌,
}

abbrev pub Text : Type 0
Text = List ℕ

-- '\t' to '\r', and ' '.
abbrev pub is_space : ℕ → Bool
is_space c = (c == 32) || (leb 9 c && leb c 13)

pub skip_spaces : Text → Text
skip_spaces [] = []
skip_spaces (c ∷ cs) = let rest = skip_spaces cs in if is_space c then rest else c ∷ cs

-- Whether there is a '-', and what is behind the sign.
pub sign_of : Text → Bool × Text
sign_of [] = (false, [])
sign_of (c ∷ cs) =
    if c == b'-' then (true, cs) else if c == b'+' then (false, cs) else (false, c ∷ cs)

abbrev pub is_hex : ℕ → Bool
is_hex c = (leb b'0' c && leb c b'9') || (leb b'a' c && leb c b'f') || (leb b'A' c && leb c b'F')

-- "0x" in front of a hexadecimal digit, where the base is 0 or 16.
pub hex_prefix : (base : ℕ) → Text → ℕ × Text
hex_prefix base (z ∷ x ∷ c ∷ cs) =
    if ((base == 0) || (base == 16)) && ((z == b'0') && ((x == b'x') || (x == b'X'))) && is_hex c
    then (16, c ∷ cs)
    else (base, z ∷ x ∷ c ∷ cs)
hex_prefix base [] = (base, [])
hex_prefix base (z ∷ []) = (base, z ∷ [])
hex_prefix base (z ∷ x ∷ []) = (base, z ∷ x ∷ [])

pub first_is_zero : Text → Bool
first_is_zero [] = false
first_is_zero (c ∷ cs) = c == b'0'

pub base_of : (base : ℕ) → Text → ℕ
base_of base s = if base == 0 then (if first_is_zero s then 8 else 10) else base

pub digit_of : ℕ → Option ℕ
digit_of c =
    if leb b'0' c && leb c b'9'
    then some (c - b'0')
    else if leb b'A' c && leb c b'Z'
    then some (c - 55)
    else if leb b'a' c && leb c b'z'
    then some (c - 87)
    else none

-- `any`: 0, 1 and -1.
pub data Any : Type 0 where
  no_digit digits overflow : Any

abbrev pub is_overflow : Any → Bool
is_overflow no_digit = false
is_overflow digits = false
is_overflow overflow = true

abbrev pub max : ℕ
max = 2 ^ 64 - 1

pub add_digit : (base c : ℕ) → ℕ × Any → ℕ × Any
add_digit base c (acc, any) =
    if is_overflow any || ltb (max / base) acc || ((acc == max / base) && ltb (max % base) c)
    then (acc, overflow)
    else ((acc * base + c) % 2 ^ 64, digits)

pub below : (base : ℕ) → Option ℕ → Option ℕ
below base none = none
below base (some d) = if leb base d then none else some d

-- The digit that the loop takes, or nothing where it ends.
pub next_digit : (base : ℕ) → ℕ → Option ℕ
next_digit base c = below base (digit_of c)

pub scan : (base : ℕ) → Text → ℕ × Any → (ℕ × Any) × Text
scan base [] state = (state, [])
scan base (c ∷ cs) state = elim (next_digit base c) [
  | none ↦ (state, c ∷ cs)
  | some d ↦ scan base cs (add_digit base d state)
]

pub finish : (neg : Bool) (nptr : Text) → (ℕ × Any) × Text → ℕ × Text
finish neg nptr ((acc, overflow), s) = (max, s)
finish neg nptr ((acc, digits), s) = ((if neg then (2 ^ 64 - acc) % 2 ^ 64 else acc), s)
finish neg nptr ((acc, no_digit), s) = ((if neg then (2 ^ 64 - acc) % 2 ^ 64 else acc), nptr)

-- The value, and what `*endptr` points to.
pub strtoul : (nptr : Text) (base : ℕ) → ℕ × Text
strtoul nptr base =
    let (neg, s) = sign_of (skip_spaces nptr) in
    let (hex, s2) = hex_prefix base s in
    if (base == 1) || ltb 36 base
    then (0, nptr)
    else finish neg nptr (scan (base_of hex s2) s2 (0, no_digit))
