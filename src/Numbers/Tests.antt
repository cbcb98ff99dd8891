-- ===== src/Numbers/Tests.antt =====
-- strtoul of numbers with a sign, a prefix, and too many digits.
use valerioedx.Base.{◌-◌, ◌^◌, ◌≡◌, refl, [], ◌∷◌, arith}
use valerioedx.Numbers.{
  Text, strtoul, skip_spaces, sign_of, hex_prefix, base_of, digit_of, below, next_digit, scan,
  add_digit, finish,
}
use valerioedx.Numbers.Value.{Numeral, value_of, strtoul_lem}

-- " -0x1Fz"
abbrev hex_text : Text
hex_text = 32 ∷ b'-' ∷ b'0' ∷ b'x' ∷ b'1' ∷ b'F' ∷ b'z' ∷ []

strtoul_example : (n : Numeral 0 hex_text) × (strtoul hex_text 0 ≡ value_of n)
strtoul_example = strtoul_lem hex_text 0 (omega arith) (omega arith)

negative_hex : strtoul hex_text 0 ≡ (2 ^ 64 - 31, b'z' ∷ [])
unfolding strtoul skip_spaces sign_of hex_prefix base_of digit_of below next_digit scan add_digit
    finish
negative_hex = refl
