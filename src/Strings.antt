-- ===== src/Strings.antt =====
-- Bytes in memory: lib/src/string.c of the kernel and user/src/string.c. A memory is a function from
-- addresses to bytes, and a `while (n--)` loop is recursion on `n`.
pub mod User
pub mod Moves
pub mod Fills
pub mod Text
mod Tests
use valerioedx.Base.{
  ℕ, zero, suc, ◌+◌, ◌-◌, ◌%◌, Bool, ◌&&◌, ltb, leb, ◌==◌, if◌then◌else◌, update, ℤ, pos, negsuc,
}

abbrev pub Memory : Type 0
Memory = ℕ → ℕ

-- `while (n--) *d++ = *s++;`
pub copy_up : ℕ → (d s : ℕ) → Memory → Memory
copy_up zero d s m = m
copy_up (suc n) d s m = copy_up n (d + 1) (s + 1) (update m d (m s))

-- `while (n--) *(--d) = *(--s);`, from the ends of both ranges.
pub copy_down : ℕ → (d s : ℕ) → Memory → Memory
copy_down zero d s m = m
copy_down (suc n) d s m = copy_down n d s (update m (d + n) (m (s + n)))

pub memmove : (dest src n : ℕ) → Memory → Memory
memmove dest src n m = if ltb dest src then copy_up n dest src m else copy_down n dest src m

pub memcpy : (dest src n : ℕ) → Memory → Memory
memcpy dest src n m = copy_up n dest src m

-- `while (n--) *d++ = c;`
pub fill : ℕ → (d c : ℕ) → Memory → Memory
fill zero d c m = m
fill (suc n) d c m = fill n (d + 1) c (update m d c)

pub memset : (dest c n : ℕ) → Memory → Memory
memset dest c n m = fill n dest (c % 256) m

-- `(x > y) - (x < y)`
abbrev pub order_of : ℕ → ℕ → ℤ
order_of x y = if ltb y x then pos 1 else if ltb x y then negsuc 0 else pos 0

pub memcmp : ℕ → (s1 s2 : ℕ) → Memory → ℤ
memcmp zero s1 s2 m = pos 0
memcmp (suc n) s1 s2 m =
    if m s1 == m s2 then memcmp n (s1 + 1) (s2 + 1) m else order_of (m s1) (m s2)
