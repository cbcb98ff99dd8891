-- ===== src/Strings/Text.antt =====
-- Texts that end with a byte 0: strlen to strcpy of lib/src/string.c. A loop that runs to the end of a
-- text has the rounds left as an argument and returns `none` where they run out. `empty` is the address
-- of the literal "", which strcmp reads for NULL.
pub mod Compare
pub mod Copies
use valerioedx.Base.{
  ℕ, zero, suc, ◌+◌, ◌-◌, ◌%◌, ◌<◌, ◌≡◌, ◌≢◌, Bool, ◌&&◌, ◌||◌, not, ltb, leb, ◌==◌, if◌then◌else◌,
  update, ℤ, pos, negsuc, Option, none, some, List, [], ◌∷◌,
}
use valerioedx.Strings.{Memory, order_of, fill}

pub length_from : ℕ → (str len : ℕ) → Memory → Option ℕ
length_from zero str len m = none
length_from (suc rounds) str len m =
    if m (str + len) == 0 then some len else length_from rounds str (len + 1) m

pub strlen : (rounds str : ℕ) → Memory → Option ℕ
strlen rounds str m = if str == 0 then some 0 else length_from rounds str 0 m

pub compare_from : ℕ → (a b : ℕ) → Memory → Option ℤ
compare_from zero a b m = none
compare_from (suc rounds) a b m =
    if not (m a == 0) && (m a == m b)
    then compare_from rounds (a + 1) (b + 1) m
    else some (order_of (m a) (m b))

abbrev pub text_or : (empty s : ℕ) → ℕ
text_or empty s = if s == 0 then empty else s

pub strcmp : (empty rounds s1 s2 : ℕ) → Memory → Option ℤ
strcmp empty rounds s1 s2 m = compare_from rounds (text_or empty s1) (text_or empty s2) m

pub compare_up_to : ℕ → (a b : ℕ) → Memory → ℤ
compare_up_to zero a b m = pos 0
compare_up_to (suc n) a b m =
    if not (m a == m b)
    then order_of (m a) (m b)
    else if m a == 0
    then pos 0
    else compare_up_to n (a + 1) (b + 1) m

pub strncmp : (empty n s1 s2 : ℕ) → Memory → ℤ
strncmp empty n s1 s2 m = compare_up_to n (text_or empty s1) (text_or empty s2) m

-- `while (n && (*d++ = *src++)) n--;`: what is left of `n`, the next place, and the memory.
pub copy_text : ℕ → (d src : ℕ) → Memory → ℕ × ℕ × Memory
copy_text zero d src m = (0, d, m)
copy_text (suc n) d src m =
    if m src == 0
    then (suc n, d + 1, update m d (m src))
    else copy_text n (d + 1) (src + 1) (update m d (m src))

pub strncpy : (dest src n : ℕ) → Memory → Memory
strncpy dest src n m =
    let c = copy_text n dest src m in if c.0 == 0 then c.2 else fill (c.0 - 1) c.1 0 c.2

-- The copy behind the text at `dest`, of length `len`.
pub append_text : (dest len src n : ℕ) → Memory → Memory
append_text dest len src n m =
    let c = copy_text n (dest + len) src m in if c.0 == 0 then c.2 else update c.2 c.1 0

pub strncat : (rounds dest src n : ℕ) → Memory → Option Memory
strncat rounds dest src n m = elim (strlen rounds dest m) [
  | none ↦ none
  | some len ↦ some (append_text dest len src n m)
]

-- `while ((*d++ = *src++));`
pub copy_all : ℕ → (d src : ℕ) → Memory → Option Memory
copy_all zero d src m = none
copy_all (suc rounds) d src m =
    if m src == 0
    then some (update m d (m src))
    else copy_all rounds (d + 1) (src + 1) (update m d (m src))

pub strcpy : (rounds dest src : ℕ) → Memory → Option Memory
strcpy rounds dest src m = copy_all rounds dest src m

pub strcat : (rounds dest src : ℕ) → Memory → Option Memory
strcat rounds dest src m = elim (strlen rounds dest m) [
  | none ↦ none
  | some len ↦ copy_all rounds (dest + len) src m
]

-- The address of the first `c` in front of the end, 0 for NULL.
pub strchr : (rounds str c : ℕ) → Memory → Option ℕ
strchr zero str c m = none
strchr (suc rounds) str c m =
    if m str == 0
    then some 0
    else if m str == c % 256
    then some str
    else strchr rounds (str + 1) c m

pub last_from : (rounds str c last : ℕ) → Memory → Option ℕ
last_from zero str c last m = none
last_from (suc rounds) str c last m =
    if m str == 0
    then some last
    else last_from rounds (str + 1) c (if m str == c % 256 then str else last) m

pub strrchr : (rounds str c : ℕ) → Memory → Option ℕ
strrchr rounds str c m = last_from rounds str c 0 m

-- A text of `k` bytes at `p`.
pub record IsText (m : Memory) (p k : ℕ) : Type 0 where
  pub inside : (i : ℕ) → i < k → m (p + i) ≢ 0
  pub ended : m (p + k) ≡ 0

-- The `k` bytes from `p` on.
pub chars : Memory → (p k : ℕ) → List ℕ
chars m p zero = []
chars m p (suc k) = m p ∷ chars m (p + 1) k
