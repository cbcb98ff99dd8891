-- ===== src/Strings/Text/Compare.antt =====
-- Length and comparison of texts.
use valerioedx.Base.{
  ℕ, zero, suc, ◌+◌, ◌<◌, ◌≡◌, ◌≢◌, ◌==◌, if◌then◌else◌, ℤ, pos, negsuc, some, List, [], ◌∷◌, arith,
  subst,
}
use valerioedx.Strings.{Memory, order_of}
use valerioedx.Strings.Text.{length_from, strlen, compare_from, strcmp, IsText, chars}

-- The rest of a text behind its first byte.
IsText-tail : {m : Memory} {p k : ℕ} → IsText m p (suc k) → IsText m (p + 1) k
IsText-tail {m} {p} {k} t = record {
  inside = λ i h. subst (λ a. m a ≢ 0) (omega arith) (t.inside (suc i) (omega arith));
  ended = subst (λ a. m a ≡ 0) (omega arith) t.ended;
}

text_head : {m : Memory} {p k : ℕ} → IsText m p (suc k) → m p ≢ 0
text_head {m} {p} t = subst (λ a. m a ≢ 0) (omega arith) (t.inside 0 (omega arith))

text_end : {m : Memory} {p : ℕ} → IsText m p 0 → m p ≡ 0
text_end {m} {p} t = subst (λ a. m a ≡ 0) (omega arith) t.ended

-- The order of a dictionary, on lists of bytes.
abbrev pub dictionary : List ℕ → List ℕ → ℤ
dictionary [] [] = pos 0
dictionary [] (y ∷ ys) = negsuc 0
dictionary (x ∷ xs) [] = pos 1
dictionary (x ∷ xs) (y ∷ ys) = if x == y then dictionary xs ys else order_of x y

compare_from_lem :
    (j k rounds a b : ℕ) (m : Memory)
    → IsText m a j
    → IsText m b k
    → j < rounds
    → compare_from rounds a b m ≡ some (dictionary (chars m a j) (chars m b k))
unfolding compare_from chars
compare_from_lem zero zero (suc r) a b m t u h = ground (arith, text_end t, text_end u)
compare_from_lem zero (suc k) (suc r) a b m t u h = ground (arith, text_end t, text_head u)
compare_from_lem (suc j) zero (suc r) a b m t u h = ground (arith, text_head t, text_end u)
compare_from_lem (suc j) (suc k) (suc r) a b m t u h = ground (
  arith,
  text_head t,
  text_head u,
  compare_from_lem j k r (a + 1) (b + 1) m (IsText-tail t) (IsText-tail u) (omega arith),
)
compare_from_lem j k zero a b m t u h = absurd (omega arith)

-- On two texts strcmp comes to an end within one round more than the first has bytes, and returns -1,
-- 0 or 1 as the first comes before the second in the order of a dictionary, is the same, or comes behind
-- it.
pub strcmp_lem :
    (empty rounds s1 s2 j k : ℕ) (m : Memory)
    → s1 ≢ 0
    → s2 ≢ 0
    → IsText m s1 j
    → IsText m s2 k
    → j < rounds
    → strcmp empty rounds s1 s2 m ≡ some (dictionary (chars m s1 j) (chars m s2 k))
unfolding strcmp
strcmp_lem empty rounds s1 s2 j k m n1 n2 t u h =
    ground (arith, compare_from_lem j k rounds s1 s2 m t u h)

length_from_lem :
    (k rounds str len : ℕ) (m : Memory)
    → IsText m (str + len) k
    → k < rounds
    → length_from rounds str len m ≡ some (len + k)
unfolding length_from
length_from_lem zero (suc r) str len m t h = ground (arith, text_end t)
length_from_lem (suc k) (suc r) str len m t h = ground (
  arith,
  text_head t,
  length_from_lem k r str (len + 1) m (subst (λ a. IsText m a k) (omega arith) (IsText-tail t))
      (omega arith),
)
length_from_lem k zero str len m t h = absurd (omega arith)

pub strlen_lem :
    (k rounds str : ℕ) (m : Memory)
    → str ≢ 0
    → IsText m str k
    → k < rounds
    → strlen rounds str m ≡ some k
unfolding strlen
strlen_lem k rounds str m ne t h =
    ground (arith, length_from_lem k rounds str 0 m (subst (λ a. IsText m a k) (omega arith) t) h)
