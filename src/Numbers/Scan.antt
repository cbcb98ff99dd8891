-- ===== src/Numbers/Scan.antt =====
-- The loop of strtoul against the value of the digits.
use valerioedx.Base.{
  ℕ, ◌+◌, ◌*◌, ◌/◌, ◌%◌, ◌^◌, ◌≤◌, ◌<◌, ◌≡◌, refl, inl, inr, false, ◌&&◌, ◌||◌, List, [], ◌∷◌,
  Option, none, some, ltb, ◌==◌, if◌then◌else◌, arith, ap, ◌∙◌, Bool-cases, Option-cases,
}
use valerioedx.Numbers.{
  Text, Any, digits, overflow, is_overflow, max, add_digit, below, next_digit, scan, digit_of,
}
use native.Mathlib.Nat.{
  mul-le-mul_right, mul-le-mul_left, mul-one, div-add-mod', mod-lt, add-mul, one-mul,
}

-- The digits of the base at the beginning of a text, and the text behind them.
unfoldable pub digits_of : (base : ℕ) → Text → List ℕ × Text
digits_of base [] = ([], [])
digits_of base (c ∷ cs) =
    let (ds, rest) = digits_of base cs in
    elim (next_digit base c) [ none ↦ ([], c ∷ cs) | some d ↦ (d ∷ ds, rest) ]

-- The number that digits stand for, behind `acc`.
pub value_from : (base acc : ℕ) → List ℕ → ℕ
value_from base acc [] = acc
value_from base acc (d ∷ ds) = value_from base (acc * base + d) ds

next_multiple : (a b base : ℕ) → a + 1 ≤ b → a * base + base ≤ b * base
next_multiple a b base h = omega (arith, mul-le-mul_right base h, add-mul a 1 base, one-mul base)

beyond :
    (q r base acc c top : ℕ)
    → q * base + r ≡ top
    → r < base
    → c < base
    → (ltb q acc || ((acc == q) && ltb r c)) ≡ ltb top (acc * base + c)
beyond q r base acc c top e hr hc =
    let above = λ (h : q + 1 ≤ acc). next_multiple q acc base h in
    let below = λ (h : acc + 1 ≤ q). next_multiple acc q base h in
    let at = λ (h : acc ≡ q). ap (λ x. x * base) h in ground (arith, e, hr, hc, above, below, at)

-- The test on the quotient and the rest finds just the digits that lead beyond 64 bits.
beyond_64 :
    (base acc c : ℕ)
    → 0 < base
    → c < base
    → (ltb (max / base) acc || ((acc == max / base) && ltb (max % base) c))
      ≡ ltb max (acc * base + c)
beyond_64 base acc c h l =
    beyond (max / base) (max % base) base acc c max (div-add-mod' max base) (mod-lt max h) l

value_from-grows : (base acc : ℕ) (ds : List ℕ) → 0 < base → acc ≤ value_from base acc ds
unfolding value_from
value_from-grows base acc [] h = omega arith
value_from-grows base acc (d ∷ ds) h =
    omega (arith, value_from-grows base (acc * base + d) ds h, le-mul acc base h)
  where
    le-mul : (acc base : ℕ) → 0 < base → acc ≤ acc * base
    le-mul acc base h = omega (arith, mul-le-mul_left acc h, mul-one acc)

below_lem : (base d : ℕ) (o : Option ℕ) → below base o ≡ some d → d < base
unfolding below
below_lem base d none h = cc h
below_lem base d (some e) h = ground (arith, h)

digit_below : (base c d : ℕ) → next_digit base c ≡ some d → d < base
unfolding next_digit
digit_below base c d h = below_lem base d (digit_of c) h

overflow_stays :
    (base acc : ℕ) (s : Text)
    → scan base s (acc, overflow) ≡ ((acc, overflow), (digits_of base s).1)
unfolding scan digits_of add_digit
overflow_stays base acc [] = refl
overflow_stays base acc (c ∷ cs) = elim (Option-cases (next_digit base c)) [
  | inl q ↦ rw (scan, digits_of, q) refl
  | inr (d, q) ↦ rw (scan, digits_of, q) (overflow_stays base acc cs)
]

add_digit_lem :
    (base acc c : ℕ) (any : Any)
    → 0 < base
    → c < base
    → acc ≤ max
    → is_overflow any ≡ false
    → add_digit base c (acc, any)
      ≡ (if ltb max (acc * base + c) then (acc, overflow) else (acc * base + c, digits))
unfolding add_digit
add_digit_lem base acc c any h l small fine =
    rw (fine, beyond_64 base acc c h l) (no_wrap (acc * base + c) acc)
  where
    no_wrap :
        (x acc : ℕ)
        → ◌≡◌ {A = ℕ × Any}
            (if ltb max x then (acc, overflow) else (x % 2 ^ 64, digits))
            (if ltb max x then (acc, overflow) else (x, digits))
    no_wrap x acc = ground arith

-- Whether a digit was taken.
abbrev pub any_after : Any → List ℕ → Any
any_after any [] = any
any_after any (d ∷ ds) = digits

-- What the loop comes to with the digits `ds` in front of `rest`.
abbrev pub Total : (base acc : ℕ) → Any → List ℕ × Text → (ℕ × Any) × Text → Type 0
Total base acc any (ds, rest) result =
    (value_from base acc ds ≤ max → result ≡ ((value_from base acc ds, any_after any ds), rest))
    × (max < value_from base acc ds → (x : ℕ) × (result ≡ ((x, overflow), rest)))

scan_end :
    (base c : ℕ) (cs : Text) (state : ℕ × Any)
    → next_digit base c ≡ none
    → (scan base (c ∷ cs) state ≡ (state, c ∷ cs)) × (digits_of base (c ∷ cs) ≡ ([], c ∷ cs))
unfolding scan digits_of
scan_end base c cs state q = (rw (scan, q) refl, rw (digits_of, q) refl)

scan_on :
    (base c d : ℕ) (cs : Text) (state : ℕ × Any)
    → next_digit base c ≡ some d
    → (scan base (c ∷ cs) state ≡ scan base cs (add_digit base d state))
      × (digits_of base (c ∷ cs) ≡ (d ∷ (digits_of base cs).0, (digits_of base cs).1))
unfolding scan digits_of
scan_on base c d cs state q = (rw (scan, q) refl, rw (digits_of, q) refl)

digits_after : (ds : List ℕ) → any_after digits ds ≡ digits
digits_after [] = refl
digits_after (d ∷ ds) = refl

scan_nothing :
    (base : ℕ) (state : ℕ × Any)
    → (scan base [] state ≡ (state, [])) × (digits_of base [] ≡ ([], []))
unfolding scan digits_of
scan_nothing base state = (refl, refl)

step-Total :
    (base acc d : ℕ) (any : Any) (cs : Text)
    → 0 < base
    → ((x : ℕ) → x ≤ max → Total base x digits (digits_of base cs) (scan base cs (x, digits)))
    → Total base acc any
        (d ∷ (digits_of base cs).0, (digits_of base cs).1)
        (scan base cs
          (if ltb max (acc * base + d) then (acc, overflow) else (acc * base + d, digits)))
unfolding value_from
step-Total base acc d any cs h hyp =
    let x = acc * base + d in
    let grows = value_from-grows base x (digits_of base cs).0 h in
    elim (Bool-cases (ltb max x)) [
      | inl over ↦
          rw over
            (λ l. absurd (ground (arith, over, grows, l)), λ l. (acc, overflow_stays base acc cs))
      | inr fits ↦ rw fits (
        λ l.
            (hyp x (ground (arith, fits))).0 l
            ∙ ap (λ a. ((value_from base x (digits_of base cs).0, a), (digits_of base cs).1))
                (digits_after (digits_of base cs).0),
        (hyp x (ground (arith, fits))).1,
      )
    ]

pub scan-Total :
    (base acc : ℕ) (any : Any) (s : Text)
    → 0 < base
    → acc ≤ max
    → is_overflow any ≡ false
    → Total base acc any (digits_of base s) (scan base s (acc, any))
unfolding value_from
scan-Total base acc any [] h small fine =
    let (e1, e2) = scan_nothing base (acc, any) in
    rw (e1, e2) (λ l. refl, λ l. absurd (omega (arith, l)))
scan-Total base acc any (c ∷ cs) h small fine = elim (Option-cases (next_digit base c)) [
  | inl q ↦
      let (e1, e2) = scan_end base c cs (acc, any) q in
      rw (e1, e2) (λ l. refl, λ l. absurd (omega (arith, l)))
  | inr (d, q) ↦
      let (e1, e2) = scan_on base c d cs (acc, any) q in
      let step = add_digit_lem base acc d any h (digit_below base c d q) small fine in
      rw (e1, e2, step)
        (step-Total base acc d any cs h (λ x l. scan-Total base x digits cs h l refl))
]
