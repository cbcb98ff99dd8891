-- ===== src/Numbers/Reads.antt =====
-- The prefix and the digits that strtoul takes from a text.
use valerioedx.Base.{
  ℕ, ◌-◌, ◌≤◌, ◌<◌, ◌≡◌, refl, ◌⊎◌, inl, inr, true, ◌&&◌, ◌||◌, [], ◌∷◌, ◌++◌, Option, none, some,
  leb, ◌==◌, arith, ap, ◌∙◌, Bool-cases, Option-cases,
}
use valerioedx.Numbers.{
  Text, is_hex, hex_prefix, first_is_zero, base_of, digit_of, below, next_digit,
}
use valerioedx.Numbers.Scan.{digits_of}
use valerioedx.Numbers.Texts.{
  IsDigit, Spells, Ends, HexFirst, HexText, ZeroFirst, IsBase, IsDigit-digit_of, digit_of-IsDigit,
  some_same,
}

next_sound : (base c d : ℕ) → next_digit base c ≡ some d → IsDigit c d × (d < base)
unfolding next_digit below
next_sound base c d h = by_value (digit_of c) refl h
  where
    by_value : (o : Option ℕ) → digit_of c ≡ o → below base o ≡ some d → IsDigit c d × (d < base)
    by_value none e h = cc h
    by_value (some x) e h = elim (Bool-cases (leb base x)) [
      | inl t ↦ cc (rw t at h)
      | inr t ↦
          let same : x ≡ d = some_same x d (rw t at h) in
          (digit_of-IsDigit c d (e ∙ ap some same), ground (arith, t, same))
    ]

next_none : (base c : ℕ) → next_digit base c ≡ none → (d : ℕ) → IsDigit c d → base ≤ d
unfolding next_digit below
next_none base c h d i =
    let e = IsDigit-digit_of c d i in
    elim (Bool-cases (leb base d)) [ inl t ↦ ground (arith, t) | inr t ↦ cc (rw (e, t) at h) ]

pub digits_lem :
    (base : ℕ) (s : Text)
    → let (ds, rest) = digits_of base s in
      (cs : Text) × (s ≡ cs ++ rest) × Spells base cs ds × Ends base rest
unfolding digits_of
digits_lem base [] = ([], refl, tt, tt)
digits_lem base (c ∷ cs) = elim (Option-cases (next_digit base c)) [
  | inl e ↦ rw (digits_of, e) ([], refl, tt, next_none base c e)
  | inr (d, e) ↦
      let (chars, q, spelled, ends) = digits_lem base cs in
      let (digit, small) = next_sound base c d e in
      rw (digits_of, e) (c ∷ chars, ap (λ t. c ∷ t) q, (digit, small, spelled), ends)
]

is_hex-IsDigit : (c : ℕ) → is_hex c ≡ true → (d : ℕ) × IsDigit c d × (d < 16)
is_hex-IsDigit c h = elim (Bool-cases (leb b'0' c && leb c b'9')) [
  | inl t ↦ (c - b'0', inl (ground (arith, t), ground (arith, t)), ground (arith, t))
  | inr f ↦ elim (Bool-cases (leb b'A' c && leb c b'F')) [
    | inl t ↦ (
      c - 55,
      inr (c - b'A', ground (arith, t), ground (arith, t), inl (ground (arith, t))),
      ground (arith, t),
    )
    | inr g ↦ (
      c - 87,
      inr (
        c - b'a',
        ground (arith, h, f, g),
        ground (arith, h, f, g),
        inr (ground (arith, h, f, g)),
      ),
      ground (arith, h, f, g),
    )
  ]
]

IsDigit-is_hex : (c d : ℕ) → IsDigit c d → d < 16 → is_hex c ≡ true
IsDigit-is_hex c d (inl (l, e)) h = ground (arith, l, e)
IsDigit-is_hex c d (inr (j, l, e, inl up)) h = ground (arith, h, e, up)
IsDigit-is_hex c d (inr (j, l, e, inr low)) h = ground (arith, h, e, low)

-- The base of a text without a prefix.
plain-IsBase :
    (base : ℕ) (s : Text)
    → (((base ≡ 0) ⊎ (base ≡ 16)) → HexText s → ⊥)
    → IsBase base (base_of base s) [] s
unfolding base_of first_is_zero
plain-IsBase base s no_prefix = inr (
  refl,
  no_prefix,
  elim (Bool-cases (base == 0)) [
    | inr e ↦ inl (λ q. ground (arith, e, q), rw e refl)
    | inl e ↦ inr (by_first s (ground (arith, e)) e)
  ],
)
  where
    by_first :
        (s : Text)
        → base ≡ 0
        → (base == 0) ≡ true
        → ((base ≡ 0) × (base_of base s ≡ 8) × ZeroFirst s)
          ⊎ ((base ≡ 0) × (base_of base s ≡ 10) × (ZeroFirst s → ⊥))
    by_first [] q e = inr (q, rw e refl, λ h. h)
    by_first (c ∷ cs) q e = elim (Bool-cases (c == b'0')) [
      | inl z ↦ inl (q, rw (e, z) refl, ground (arith, z))
      | inr z ↦ inr (q, rw (e, z) refl, λ h. ground (arith, z, h))
    ]

-- What strtoul makes of a sign's rest.
abbrev pub HasBase : (base : ℕ) (s : Text) → ℕ × Text → Type 0
HasBase base s (hex, body) =
    (prefix : Text) × (s ≡ prefix ++ body) × IsBase base (base_of hex body) prefix body

pub prefix_lem : (base : ℕ) (s : Text) → HasBase base s (hex_prefix base s)
unfolding hex_prefix base_of
prefix_lem base [] = ([], refl, plain-IsBase base [] (λ b h. h))
prefix_lem base (z ∷ []) = ([], refl, plain-IsBase base (z ∷ []) (λ b h. h))
prefix_lem base (z ∷ x ∷ []) = ([], refl, plain-IsBase base (z ∷ x ∷ []) (λ b h. h.2))
prefix_lem base (z ∷ x ∷ c ∷ cs) =
    let test =
      ((base == 0) || (base == 16)) && ((z == b'0') && ((x == b'x') || (x == b'X'))) && is_hex c in
    elim (Bool-cases test) [
      | inl e ↦
          let zero_char : z ≡ b'0' = ground (arith, e) in
          let based : (base ≡ 0) ⊎ (base ≡ 16) = elim (Bool-cases (base == 0)) [
            | inl t ↦ inl (ground (arith, t))
            | inr t ↦ inr (ground (arith, e, t))
          ] in
          let hex : HexFirst (c ∷ cs) = is_hex-IsDigit c (ground (arith, e)) in
          rw e (elim (Bool-cases (x == b'x')) [
            | inl t ↦
                let x_char : x ≡ b'x' = ground (arith, t) in
                (
                  b'0' ∷ b'x' ∷ [],
                  ap (λ y. y ∷ x ∷ c ∷ cs) zero_char ∙ ap (λ y. b'0' ∷ y ∷ c ∷ cs) x_char,
                  inl (based, refl, inl refl, hex),
                )
            | inr t ↦
                let x_char : x ≡ b'X' = ground (arith, t, e) in
                (
                  b'0' ∷ b'X' ∷ [],
                  ap (λ y. y ∷ x ∷ c ∷ cs) zero_char ∙ ap (λ y. b'0' ∷ y ∷ c ∷ cs) x_char,
                  inl (based, refl, inr refl, hex),
                )
          ])
      | inr e ↦ rw e (
        [],
        refl,
        plain-IsBase base (z ∷ x ∷ c ∷ cs) (λ b h.
            let (zero_char, x_char, (d, digit, small)) = h in
            let hex = IsDigit-is_hex c d digit small in
            elim b [
              | inl b0 ↦ elim x_char [
                | inl t ↦ ground (arith, e, zero_char, hex, b0, t)
                | inr t ↦ ground (arith, e, zero_char, hex, b0, t)
              ]
              | inr b16 ↦ elim x_char [
                | inl t ↦ ground (arith, e, zero_char, hex, b16, t)
                | inr t ↦ ground (arith, e, zero_char, hex, b16, t)
              ]
            ]),
      )
    ]
