-- ===== src/Fat32/Names/Extract.antt =====
-- An entry of a long name is read as it was written.
use valerioedx.Base.{
  ℕ, zero, suc, ◌+◌, ◌-◌, ◌*◌, ◌%◌, ◌≤◌, ◌<◌, ◌≡◌, refl, ◌≢◌, Bool, true, false, ◌&&◌, ◌||◌, inl,
  inr, List, some, ltb, leb, ◌==◌, if◌then◌else◌, get_or, length, min, arith, ap, ◌∙◌, Bool-cases,
  lt→ltb, ltb→lt,
}
use valerioedx.Fat32.Names.{char_at, fill_lfn_entry, lfn_chars, extract}

-- The bytes of a name, of which none is 0.
abbrev pub IsName : List ℕ → Type 0
IsName name = (i : ℕ) → i < length name → (0 < get_or name i 0) × (get_or name i 0 < 256)

pub lfn_chars-fill :
    (name : List ℕ) (k i : ℕ) (is_last : Bool) (checksum : ℕ)
    → lfn_chars (fill_lfn_entry name (suc k) is_last checksum) i ≡ char_at name (k * 13 + i)
unfolding lfn_chars fill_lfn_entry
lfn_chars-fill name k i is_last checksum =
    let first : (suc k - 1) * 13 + i ≡ k * 13 + i = omega arith in
    elim (Bool-cases (ltb i 5)) [
      | inl one ↦ rw one (ap (char_at name) first)
      | inr high ↦ elim (Bool-cases (ltb i 11)) [
        | inl two ↦
            let second : (suc k - 1) * 13 + 5 + (i - 5) ≡ k * 13 + i = ground (arith, high) in
            rw (high, two) (ap (char_at name) second)
        | inr three ↦
            let third : (suc k - 1) * 13 + 11 + (i - 11) ≡ k * 13 + i = ground (arith, three) in
            rw (high, three) (ap (char_at name) third)
      ]
    ]

-- The bytes of the name from `from` up to `to`, in a buffer.
abbrev pub with_name : (name : List ℕ) (from to : ℕ) (buf : ℕ → ℕ) → ℕ → ℕ
with_name name from to buf j = if leb from j && ltb j to then get_or name j 0 else buf j

extract_on :
    (rounds i at : ℕ) (cs buf : ℕ → ℕ)
    → cs i ≢ 0
    → cs i < 256
    → 13 ≤ at
    → at < 13 + 256
    → extract (suc rounds) i at cs buf
      ≡ extract rounds (i + 1) (at + 1) cs (λ j. if j + 13 == at then cs i % 256 else buf j)
unfolding extract
extract_on rounds i at cs buf nz small lo hi =
    let go : ((cs i == 0) || (cs i == 0xFFFF)) ≡ false = ground (arith, nz, small) in
    let inside : (ltb at 13 || leb (13 + 256) at) ≡ false = ground (arith, lo, hi) in
    rw (go, inside) refl

extract_stop : (rounds i at : ℕ) (cs buf : ℕ → ℕ) → cs i ≡ 0 → extract rounds i at cs buf ≡ some buf
unfolding extract
extract_stop zero i at cs buf e = refl
extract_stop (suc rounds) i at cs buf e =
    let stop : ((cs i == 0) || (cs i == 0xFFFF)) ≡ true = ground (arith, e) in rw stop refl

put-with_name :
    (name : List ℕ) (pos to c : ℕ) (buf : ℕ → ℕ) (j : ℕ)
    → c ≡ get_or name pos 0
    → pos < to
    → with_name name (pos + 1) to (λ x. if x + 13 == pos + 13 then c else buf x) j
      ≡ with_name name pos to buf j
put-with_name name pos to c buf j e h = elim (Bool-cases (j == pos)) [
  | inl same ↦ let s : j ≡ pos = ground (arith, same) in rw s (ground (arith, e, h))
  | inr other ↦ ground (arith, other, h)
]

char_inside :
    (name : List ℕ) (pos : ℕ)
    → pos < length name
    → (0 < get_or name pos 0) × (get_or name pos 0 < 256)
    → char_at name pos ≡ get_or name pos 0
unfolding char_at
char_inside name pos h ok =
    let inside : ltb pos (length name) ≡ true = lt→ltb pos (length name) h in
    rw inside (omega (arith, ok))

char_behind : (name : List ℕ) (pos : ℕ) → pos ≡ length name → char_at name pos ≡ 0
unfolding char_at
char_behind name pos e = ground (arith, e)

-- The loop copies the bytes that stand in the entry.
pub extract_lem :
    (rounds i k : ℕ) (name : List ℕ) (cs buf : ℕ → ℕ)
    → IsName name
    → length name < 256
    → ((x : ℕ) → cs x ≡ char_at name (k * 13 + x))
    → i + rounds ≡ 13
    → k * 13 + i ≤ length name
    → (out : ℕ → ℕ) × (extract rounds i (k * 13 + i + 13) cs buf ≡ some out)
      × ((j : ℕ) → out j ≡ with_name name (k * 13 + i) (min (k * 13 + 13) (length name)) buf j)
unfolding extract
extract_lem zero i k name cs buf ok short same e h = (buf, refl, λ j. ground (arith, e))
extract_lem (suc rounds) i k name cs buf ok short same e h =
    let pos = k * 13 + i in
    elim (Bool-cases (ltb pos (length name))) [
      | inl more ↦
          let l : pos < length name = ltb→lt pos (length name) more in
          let here = same i ∙ char_inside name pos l (ok pos l) in
          let good = ok pos l in
          let next =
            extract_lem rounds (i + 1) k name cs
              (λ j. if j + 13 == pos + 13 then cs i % 256 else buf j) ok short same
              (omega (arith, e)) (omega (arith, l)) in
          let place : pos + 13 + 1 ≡ k * 13 + (i + 1) + 13 = omega arith in
          let after : k * 13 + (i + 1) ≡ pos + 1 = omega arith in
          (
            next.0,
            extract_on rounds i (pos + 13) cs buf (omega (arith, here, good))
                  (omega (arith, here, good)) (omega arith) (omega (arith, l, short))
                ∙ ap
                    (λ a.
                      extract rounds (i + 1) a cs
                        (λ j. if j + 13 == pos + 13 then cs i % 256 else buf j))
                    place
                ∙ next.1,
            λ j.
                next.2 j
                ∙ ap
                    (λ a.
                      with_name name a (min (k * 13 + 13) (length name))
                        (λ x. if x + 13 == pos + 13 then cs i % 256 else buf x) j)
                    after
                ∙ put-with_name name pos (min (k * 13 + 13) (length name)) (cs i % 256) buf j
                    (omega (arith, here, good)) (omega (arith, l, e)),
          )
      | inr done ↦
          let last : pos ≡ length name = ground (arith, done, h) in
          (
            buf,
            extract_stop (suc rounds) i (pos + 13) cs buf (same i ∙ char_behind name pos last),
            λ j. ground (arith, last),
          )
    ]
