-- ===== src/Numbers/Texts.antt =====
-- The texts of numbers, described without the code of strtoul, and how its parts take them apart.
use valerioedx.Base.{
  ℕ, ◌+◌, ◌-◌, ◌≤◌, ◌<◌, ◌≡◌, refl, ◌≢◌, ◌⊎◌, inl, inr, Bool, true, false, ◌&&◌, List, [], ◌∷◌,
  ◌++◌, Option, some, leb, ◌==◌, arith, ap, Bool-cases,
}
use valerioedx.Numbers.{Text, is_space, skip_spaces, sign_of, digit_of}

abbrev pub IsSpace : ℕ → Type 0
IsSpace c = (c ≡ b' ') ⊎ ((9 ≤ c) × (c ≤ 13))

abbrev pub AllSpaces : Text → Type 0
AllSpaces [] = Unit {0}
AllSpaces (c ∷ cs) = IsSpace c × AllSpaces cs

abbrev pub NoSpaceFirst : Text → Type 0
NoSpaceFirst [] = Unit {0}
NoSpaceFirst (c ∷ cs) = IsSpace c → ⊥

abbrev pub NoSignFirst : Text → Type 0
NoSignFirst [] = Unit {0}
NoSignFirst (c ∷ cs) = (c ≢ b'-') × (c ≢ b'+')

-- A sign in front of a text, or none where the text does not begin with one.
abbrev pub IsSign : (neg : Bool) (sign body : Text) → Type 0
IsSign neg sign body =
    ((neg ≡ true) × (sign ≡ b'-' ∷ []))
    ⊎ ((neg ≡ false) × ((sign ≡ b'+' ∷ []) ⊎ ((sign ≡ []) × NoSignFirst body)))

-- '0' to '9' are the digits below 10, the letters of both cases those from 10 to 35.
abbrev pub IsDigit : (c d : ℕ) → Type 0
IsDigit c d =
    ((d < 10) × (c ≡ b'0' + d))
    ⊎ ((j : ℕ) × (j < 26) × (d ≡ 10 + j) × ((c ≡ b'A' + j) ⊎ (c ≡ b'a' + j)))

abbrev pub Spells : (radix : ℕ) (cs : Text) (ds : List ℕ) → Type 0
Spells radix [] [] = Unit {0}
Spells radix [] (d ∷ ds) = ⊥
Spells radix (c ∷ cs) [] = ⊥
Spells radix (c ∷ cs) (d ∷ ds) = IsDigit c d × (d < radix) × Spells radix cs ds

-- A text that does not go on with a digit.
abbrev pub Ends : (radix : ℕ) (rest : Text) → Type 0
Ends radix [] = Unit {0}
Ends radix (c ∷ cs) = (d : ℕ) → IsDigit c d → radix ≤ d

abbrev pub HexFirst : Text → Type 0
HexFirst [] = ⊥
HexFirst (c ∷ cs) = (d : ℕ) × IsDigit c d × (d < 16)

-- "0x" or "0X" in front of a hexadecimal digit.
abbrev pub HexText : Text → Type 0
HexText [] = ⊥
HexText (z ∷ []) = ⊥
HexText (z ∷ x ∷ cs) = (z ≡ b'0') × ((x ≡ b'x') ⊎ (x ≡ b'X')) × HexFirst cs

abbrev pub ZeroFirst : Text → Type 0
ZeroFirst [] = ⊥
ZeroFirst (c ∷ cs) = c ≡ b'0'

-- The base of the digits: 16 behind a prefix, where the argument allows for one; else the argument, or
-- for 0, 8 where the digits begin with '0', and 10 where not.
abbrev pub IsBase : (base radix : ℕ) (prefix body : Text) → Type 0
IsBase base radix prefix body =
    (((base ≡ 0) ⊎ (base ≡ 16))
      × (radix ≡ 16)
      × ((prefix ≡ b'0' ∷ b'x' ∷ []) ⊎ (prefix ≡ b'0' ∷ b'X' ∷ []))
      × HexFirst body)
    ⊎ ((prefix ≡ [])
        × (((base ≡ 0) ⊎ (base ≡ 16)) → HexText body → ⊥)
        × (((base ≢ 0) × (radix ≡ base))
            ⊎ (((base ≡ 0) × (radix ≡ 8) × ZeroFirst body)
                ⊎ ((base ≡ 0) × (radix ≡ 10) × (ZeroFirst body → ⊥)))))

space_lem : (c : ℕ) → is_space c ≡ true → IsSpace c
space_lem c h = elim (Bool-cases (c == b' ')) [
  | inl e ↦ inl (ground (arith, e))
  | inr e ↦ inr (ground (arith, e, h), ground (arith, e, h))
]

no_space : (c : ℕ) → is_space c ≡ false → IsSpace c → ⊥
no_space c h (inl e) = ground (arith, h, e)
no_space c h (inr (lo, hi)) = ground (arith, h, lo, hi)

pub spaces_lem :
    (s : Text)
    → (sp : Text) × (s ≡ sp ++ skip_spaces s) × AllSpaces sp × NoSpaceFirst (skip_spaces s)
unfolding skip_spaces
spaces_lem [] = ([], refl, tt, tt)
spaces_lem (c ∷ cs) = elim (Bool-cases (is_space c)) [
  | inl e ↦
      let (sp, q, all, first) = spaces_lem cs in
      rw e (c ∷ sp, ap (λ t. c ∷ t) q, (space_lem c e, all), first)
  | inr e ↦ rw e ([], refl, tt, no_space c e)
]

pub sign_lem :
    (s : Text)
    → let (neg, body) = sign_of s in (sign : Text) × (s ≡ sign ++ body) × IsSign neg sign body
unfolding sign_of
sign_lem [] = ([], refl, inr (refl, inr (refl, tt)))
sign_lem (c ∷ cs) = elim (Bool-cases (c == b'-')) [
  | inl e ↦
      let q : c ≡ b'-' = ground (arith, e) in rw e (b'-' ∷ [], ap (λ x. x ∷ cs) q, inl (refl, refl))
  | inr e ↦ elim (Bool-cases (c == b'+')) [
    | inl p ↦
        let q : c ≡ b'+' = ground (arith, p) in
        rw (e, p) (b'+' ∷ [], ap (λ x. x ∷ cs) q, inr (refl, inl refl))
    | inr p ↦
        rw (e, p)
          ([], refl, inr (refl, inr (refl, (λ h. ground (arith, e, h), λ h. ground (arith, p, h)))))
  ]
]

pub IsDigit-digit_of : (c d : ℕ) → IsDigit c d → digit_of c ≡ some d
unfolding digit_of
IsDigit-digit_of c d (inl (l, e)) =
    let t : (leb b'0' c && leb c b'9') ≡ true = ground (arith, l, e) in
    let v : c - b'0' ≡ d = omega (arith, e) in rw (t, v) refl
IsDigit-digit_of c d (inr (j, l, e, inl up)) =
    let f : (leb b'0' c && leb c b'9') ≡ false = ground (arith, l, up) in
    let t : (leb b'A' c && leb c b'Z') ≡ true = ground (arith, l, up) in
    let v : c - 55 ≡ d = omega (arith, e, up) in rw (f, t, v) refl
IsDigit-digit_of c d (inr (j, l, e, inr low)) =
    let f : (leb b'0' c && leb c b'9') ≡ false = ground (arith, l, low) in
    let g : (leb b'A' c && leb c b'Z') ≡ false = ground (arith, l, low) in
    let t : (leb b'a' c && leb c b'z') ≡ true = ground (arith, l, low) in
    let v : c - 87 ≡ d = omega (arith, e, low) in rw (f, g, t, v) refl

pub some_same : (x y : ℕ) → ◌≡◌ {A = Option ℕ} (some x) (some y) → x ≡ y
some_same x y e = cc e

pub digit_of-IsDigit : (c d : ℕ) → digit_of c ≡ some d → IsDigit c d
unfolding digit_of
digit_of-IsDigit c d h = elim (Bool-cases (leb b'0' c && leb c b'9')) [
  | inl t ↦
      let v : c - b'0' ≡ d = some_same (c - b'0') d (rw t at h) in
      inl (ground (arith, t, v), ground (arith, t, v))
  | inr f ↦ elim (Bool-cases (leb b'A' c && leb c b'Z')) [
    | inl t ↦
        let v : c - 55 ≡ d = some_same (c - 55) d (rw (f, t) at h) in
        inr (c - b'A', ground (arith, t), ground (arith, t, v), inl (ground (arith, t)))
    | inr g ↦ elim (Bool-cases (leb b'a' c && leb c b'z')) [
      | inl t ↦
          let v : c - 87 ≡ d = some_same (c - 87) d (rw (f, g, t) at h) in
          inr (c - b'a', ground (arith, t), ground (arith, t, v), inr (ground (arith, t)))
      | inr k ↦ cc (rw (f, g, k) at h)
    ]
  ]
]
