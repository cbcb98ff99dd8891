-- ===== src/Numbers/Value.antt =====
-- strtoul against the value of the digits of the text.
use valerioedx.Base.{
  ℕ, ◌-◌, ◌%◌, ◌^◌, ◌≤◌, ◌<◌, ◌≡◌, refl, ◌≢◌, inl, inr, Bool, false, ◌||◌, List, [], ◌∷◌, ◌++◌,
  subst, ltb, ◌==◌, if◌then◌else◌, arith, ap, ◌∙◌, Bool-cases, ltb→lt,
}
use valerioedx.Numbers.{
  Text, skip_spaces, sign_of, hex_prefix, base_of, no_digit, overflow, max, finish, strtoul,
}
use valerioedx.Numbers.Texts.{
  AllSpaces, NoSpaceFirst, IsSign, IsBase, Spells, Ends, spaces_lem, sign_lem,
}
use valerioedx.Numbers.Reads.{prefix_lem, digits_lem}
use valerioedx.Numbers.Scan.{digits_of, value_from, any_after, scan-Total}

-- What strtoul takes from a text: whether there is a '-', the base, the digits, and what is behind them.
record Reading : Type 0 where
  pub neg : Bool
  pub radix : ℕ
  pub ds : List ℕ
  pub rest : Text

read : (nptr : Text) (base : ℕ) → Reading
read nptr base =
    let (neg, s) = sign_of (skip_spaces nptr) in
    let (hex, s2) = hex_prefix base s in
    let (ds, rest) = digits_of (base_of hex s2) s2 in
    record { neg = neg; radix = base_of hex s2; ds = ds; rest = rest }

base_of_positive : (base : ℕ) (s : Text) → 0 < base_of base s
unfolding base_of
base_of_positive base s = ground arith

-- Where no digit was read, `*endptr` points to the beginning.
abbrev end_of : (nptr : Text) → Reading → Text
end_of nptr r = elim r.ds [ [] ↦ nptr | d ∷ ds ↦ r.rest ]

finish_fits :
    (neg : Bool) (nptr : Text) (v radix : ℕ) (ds : List ℕ) (rest : Text)
    → finish neg nptr ((v, any_after no_digit ds), rest) ≡ (
      (if neg then (2 ^ 64 - v) % 2 ^ 64 else v),
      end_of nptr (record { neg = neg; radix = radix; ds = ds; rest = rest }),
    )
unfolding finish
finish_fits neg nptr v radix [] rest = refl
finish_fits neg nptr v radix (d ∷ ds) rest = refl

finish_overflow :
    (neg : Bool) (nptr : Text) (x : ℕ) (rest : Text)
    → finish neg nptr ((x, overflow), rest) ≡ (max, rest)
unfolding finish
finish_overflow neg nptr x rest = refl

-- strtoul by what its parts take.
strtoul-read :
    (nptr : Text) (base : ℕ)
    → base ≢ 1
    → base ≤ 36
    → let r = read nptr base in
      let v = value_from r.radix 0 r.ds in
      strtoul nptr base ≡ (
        if ltb max v
        then (max, r.rest)
        else ((if r.neg then (2 ^ 64 - v) % 2 ^ 64 else v), end_of nptr r))
unfolding read strtoul
strtoul-read nptr base ne small =
    let (neg, s) = sign_of (skip_spaces nptr) in
    let (hex, s2) = hex_prefix base s in
    let b = base_of hex s2 in
    let v = value_from b 0 (digits_of b s2).0 in
    let valid : ((base == 1) || ltb 36 base) ≡ false = ground (arith, ne, small) in
    let t = scan-Total b 0 no_digit s2 (base_of_positive hex s2) (omega arith) refl in
    elim (Bool-cases (ltb max v)) [
      | inl over ↦
          let (x, q) = t.1 (ltb→lt max v over) in
          rw (strtoul, valid, over) (ap (finish neg nptr) q ∙ finish_overflow neg nptr _ _)
      | inr fits ↦
          rw (strtoul, valid, fits)
            (ap (finish neg nptr) (t.0 (ground (arith, fits))) ∙ finish_fits neg nptr _ b _ _)
    ]

-- A text as a number: spaces, a sign, the prefix of the base, the digits, as many as there are, and
-- the rest.
pub record Numeral (base : ℕ) (nptr : Text) : Type 0 where
  pub spaces : Text
  pub sign : Text
  pub prefix : Text
  pub numerals : Text
  pub rest : Text
  pub neg : Bool
  pub radix : ℕ
  pub ds : List ℕ
  pub parts : nptr ≡ spaces ++ (sign ++ (prefix ++ (numerals ++ rest)))
  pub only_spaces : AllSpaces spaces
  pub all_spaces : NoSpaceFirst (sign ++ (prefix ++ (numerals ++ rest)))
  pub signed : IsSign neg sign (prefix ++ (numerals ++ rest))
  pub based : IsBase base radix prefix (numerals ++ rest)
  pub spelled : Spells radix numerals ds
  pub ends : Ends radix rest

-- The value, or ULONG_MAX, and where `*endptr` points.
abbrev pub value_of : {base : ℕ} {nptr : Text} → Numeral base nptr → ℕ × Text
value_of {base} {nptr} n =
    let v = value_from n.radix 0 n.ds in
    if ltb max v
    then (max, n.rest)
    else ((if n.neg then (2 ^ 64 - v) % 2 ^ 64 else v), elim n.ds [ [] ↦ nptr | d ∷ ds ↦ n.rest ])

-- With a base of 0 or 2 to 36, every text is spaces, as many as there are, a sign or none, the prefix of
-- the base or none, as many digits of the base as there are, and a rest; the base is 16 behind "0x" or
-- "0X" in front of a hexadecimal digit, where 0 or 16 is asked for, and else what is asked for, or for 0,
-- 8 where the digits begin with '0' and 10 where not. Where 64 bits hold the value of the digits, strtoul
-- returns it, or its negative modulo 2^64 behind a '-', and else ULONG_MAX. `*endptr` points to the rest,
-- or to the beginning where there is no digit.
pub strtoul_lem :
    (nptr : Text) (base : ℕ)
    → base ≢ 1
    → base ≤ 36
    → (n : Numeral base nptr) × (strtoul nptr base ≡ value_of n)
unfolding read
strtoul_lem nptr base ne small =
    let (neg, s) = sign_of (skip_spaces nptr) in
    let (hex, s2) = hex_prefix base s in
    let (ds, rest) = digits_of (base_of hex s2) s2 in
    let (spaces, q1, only, all) = spaces_lem nptr in
    let (sign, q2, signed) = sign_lem (skip_spaces nptr) in
    let (prefix, q3, based) = prefix_lem base s in
    let (numerals, q4, spelled, ends) = digits_lem (base_of hex s2) s2 in
    let body : s ≡ prefix ++ (numerals ++ rest) = q3 ∙ ap (λ t. prefix ++ t) q4 in
    let behind : skip_spaces nptr ≡ sign ++ (prefix ++ (numerals ++ rest)) =
      q2 ∙ ap (λ t. sign ++ t) body in
    (
      record {
        spaces = spaces;
        sign = sign;
        prefix = prefix;
        numerals = numerals;
        rest = rest;
        neg = neg;
        radix = base_of hex s2;
        ds = ds;
        parts = q1 ∙ ap (λ t. spaces ++ t) behind;
        only_spaces = only;
        all_spaces = subst NoSpaceFirst behind all;
        signed = subst (IsSign neg sign) body signed;
        based = subst (IsBase base (base_of hex s2) prefix) q4 based;
        spelled = spelled;
        ends = ends;
      },
      strtoul-read nptr base ne small,
    )
