-- ===== src/Strings/Text/Copies.antt =====
-- Bounded copies of texts: strncpy and strncat of lib/src/string.c.
use valerioedx.Base.{
  ℕ, zero, suc, ◌+◌, ◌-◌, ◌≤◌, ◌<◌, ◌≡◌, refl, ◌≢◌, ◌⊎◌, inl, inr, true, false, ◌&&◌, ◌||◌, ltb,
  leb, ◌==◌, if◌then◌else◌, update, min, arith, ◌∙◌, fun_ext, Bool-cases, subst,
}
use valerioedx.Strings.{Memory}
use valerioedx.Strings.Moves.{moved, Upwards, moved-update}
use valerioedx.Strings.Fills.{filled, fill-filled}
use valerioedx.Strings.Text.{copy_text, strncpy, append_text}

-- A byte of the source, behind the first, is not touched by the first store.
source_kept :
    (n d s i : ℕ) (m : Memory)
    → Upwards d s (suc n)
    → i < n
    → update m d (m s) ((s + 1) + i) ≡ m (s + suc i)
source_kept n d s i m u h = ground arith

first_nonzero : (s k : ℕ) (m : Memory) → ((i : ℕ) → i < suc k → m (s + i) ≢ 0) → (m s == 0) ≡ false
first_nonzero s k m h =
    let first : m s ≢ 0 = subst (λ a. m a ≢ 0) (omega arith) (h 0 (omega arith)) in
    ground (arith, first)

-- The state of the loop, part by part.
state_eq :
    {a a' b b' : ℕ} {m m' : Memory}
    → a ≡ a'
    → b ≡ b'
    → m ≡ m'
    → ◌≡◌ {A = ℕ × ℕ × Memory} (a, b, m) (a', b', m')
state_eq p q r = rw (p, q, r) refl

copy_text_full :
    (n d s : ℕ) (m : Memory)
    → Upwards d s n
    → ((i : ℕ) → i < n → m (s + i) ≢ 0)
    → copy_text n d s m ≡ (0, d + n, moved d s n m)
unfolding copy_text
copy_text_full zero d s m u h = state_eq refl (omega arith) (fun_ext (λ a. ground arith))
copy_text_full (suc n) d s m u h = rw (first_nonzero s n m h) (
    copy_text_full n (d + 1) (s + 1) (update m d (m s)) (ground arith)
      (λ i l. rw (source_kept n d s i m u l) (h (suc i) (omega arith)))
    ∙ state_eq refl (omega arith) (moved-update n d s m u))

copy_text_stop :
    (k n d s : ℕ) (m : Memory)
    → Upwards d s n
    → k < n
    → ((i : ℕ) → i < k → m (s + i) ≢ 0)
    → m (s + k) ≡ 0
    → copy_text n d s m ≡ (n - k, d + (k + 1), moved d s (k + 1) m)
unfolding copy_text
copy_text_stop k zero d s m u l h e = absurd (omega arith)
copy_text_stop zero (suc n) d s m u l h e =
    let first : m s ≡ 0 = subst (λ a. m a ≡ 0) (omega arith) e in
    let ended : (m s == 0) ≡ true = ground (arith, first) in
    rw ended (state_eq (omega arith) (omega arith) (fun_ext (λ a. ground arith)))
copy_text_stop (suc k) (suc n) d s m u l h e = rw (first_nonzero s k m h) (
    copy_text_stop k n (d + 1) (s + 1) (update m d (m s)) (ground arith) (omega arith)
      (λ i b. rw (source_kept n d s i m u (omega arith)) (h (suc i) (omega arith)))
      (source_kept n d s k m u (omega arith) ∙ e)
    ∙ state_eq (omega arith) (omega arith)
        (moved-update (k + 1) d s m (ground arith) ∙ fun_ext (λ a. ground arith)))

abbrev padded : (dest src n k : ℕ) → Memory → Memory
padded dest src n k m a =
    if leb dest a && ltb a (dest + n)
    then (if ltb (a - dest) k then m (src + (a - dest)) else 0)
    else m a

padded_short :
    (dest src n k a : ℕ) (m : Memory)
    → k < n
    → m (src + k) ≡ 0
    → filled (dest + (k + 1)) 0 (n - k - 1) (moved dest src (k + 1) m) a ≡ padded dest src n k m a
padded_short dest src n k a m h e = ground arith

padded_long :
    (dest src n k a : ℕ) (m : Memory) → n ≤ k → moved dest src n m a ≡ padded dest src n k m a
padded_long dest src n k a m h = ground arith

-- Where the source has `k` bytes in front of its end, or at least n bytes, so that k is n or more, and
-- the destination does not begin inside the n bytes from the source on, strncpy writes exactly the n
-- bytes at the destination: the text, and zeros behind it.
pub strncpy_lem :
    (dest src n k a : ℕ) (m : Memory)
    → Upwards dest src n
    → ((i : ℕ) → i < k → m (src + i) ≢ 0)
    → (m (src + k) ≡ 0) ⊎ (n ≤ k)
    → strncpy dest src n m a ≡ (
        if leb dest a && ltb a (dest + n)
        then (if ltb (a - dest) k then m (src + (a - dest)) else 0)
        else m a)
unfolding strncpy
strncpy_lem dest src n k a m u h (inr long) =
    rw (copy_text_full n dest src m u (λ i l. h i (omega arith)))
      (padded_long dest src n k a m long)
strncpy_lem dest src n k a m u h (inl e) = elim (Bool-cases (ltb k n)) [
  | inl short ↦
      let left : (n - k == 0) ≡ false = ground (arith, short) in
      rw
        (
          copy_text_stop k n dest src m u (ground (arith, short)) h e,
          left,
          fill-filled (n - k - 1) (dest + (k + 1)) 0 (moved dest src (k + 1) m),
        )
        (padded_short dest src n k a m (ground (arith, short)) e)
  | inr long ↦
      rw (copy_text_full n dest src m u (λ i l. h i (ground (arith, long))))
        (padded_long dest src n k a m (ground (arith, long)))
]

-- Where the source has `k` bytes in front of its end, or at least n bytes, and `end` is the end of the
-- destination's text, outside of what is copied: strncat puts the first n or k bytes there. With fewer
-- than n bytes it writes one zero behind them and one more behind that; with n or more it writes no
-- zero at all, so that the text is not ended.
append_text_lem :
    (dest len src n k a : ℕ) (m : Memory)
    → Upwards (dest + len) src n
    → ((i : ℕ) → i < k → m (src + i) ≢ 0)
    → (m (src + k) ≡ 0) ⊎ (n ≤ k)
    → let end = dest + len in
      append_text dest len src n m a ≡ (
        if leb end a && ltb a (end + min k n)
        then m (src + (a - end))
        else if ltb k n && ((a == end + k) || (a == end + (k + 1)))
        then 0
        else m a)
unfolding append_text
append_text_lem dest len src n k a m u h (inr long) =
    rw (copy_text_full n (dest + len) src m u (λ i l. h i (omega arith))) (ground arith)
append_text_lem dest len src n k a m u h (inl e) = elim (Bool-cases (ltb k n)) [
  | inl short ↦
      let left : (n - k == 0) ≡ false = ground (arith, short) in
      rw (copy_text_stop k n (dest + len) src m u (ground (arith, short)) h e, left)
        (ground (arith, short, e))
  | inr long ↦
      rw (copy_text_full n (dest + len) src m u (λ i l. h i (ground (arith, long))))
        (ground (arith, long))
]
