-- ===== src/Strings/User.antt =====
-- The functions of user/src/string.c that differ from the kernel's: 16 bytes at a time.
use valerioedx.Base.{
  ℕ, zero, suc, ◌+◌, ◌-◌, ◌*◌, ◌/◌, ◌%◌, ◌&&◌, ltb, leb, ◌==◌, if◌then◌else◌, ℤ, pos, ◌-ℤ◌, Option,
  none, some,
}
use valerioedx.Strings.{Memory, copy_up, fill}

-- A vector of 16 bytes is loaded whole, and then stored.
unfoldable pub copy_chunk : (d s : ℕ) → Memory → Memory
copy_chunk d s m a = if leb d a && ltb a (d + 16) then m (s + (a - d)) else m a

-- `while (n >= 16)`, by the number of vectors.
unfoldable pub copy_chunks : ℕ → (d s : ℕ) → Memory → Memory
copy_chunks zero d s m = m
copy_chunks (suc k) d s m = copy_chunks k (d + 16) (s + 16) (copy_chunk d s m)

unfoldable pub memcpy : (s1 s2 n : ℕ) → Memory → Memory
memcpy s1 s2 n m =
    let k = n / 16 in copy_up (n % 16) (s1 + 16 * k) (s2 + 16 * k) (copy_chunks k s1 s2 m)

unfoldable pub set_chunk : (a c : ℕ) → Memory → Memory
set_chunk a c m x = if leb a x && ltb x (a + 16) then c else m x

unfoldable pub set_chunks : ℕ → (a c : ℕ) → Memory → Memory
set_chunks zero a c m = m
set_chunks (suc k) a c m = set_chunks k (a + 16) c (set_chunk a c m)

unfoldable pub memset : (s c n : ℕ) → Memory → Memory
memset s c n m = let k = n / 16 in fill (n % 16) (s + 16 * k) (c % 256) (set_chunks k s (c % 256) m)

-- `*a1 - *a2` at the first difference.
unfoldable pub memcmp : ℕ → (s1 s2 : ℕ) → Memory → ℤ
memcmp zero s1 s2 m = pos 0
memcmp (suc n) s1 s2 m =
    if m s1 == m s2 then memcmp n (s1 + 1) (s2 + 1) m else pos (m s1) -ℤ pos (m s2)

-- The first of `n` bytes that is `c`; NULL otherwise.
pub memchr : ℕ → (s c : ℕ) → Memory → Option ℕ
memchr zero s c m = none
memchr (suc n) s c m = if m s == c % 256 then some s else memchr n (s + 1) c m

-- The copy stops behind the first byte `c`, whose end is returned.
pub memccpy : ℕ → (s1 s2 c : ℕ) → Memory → Option ℕ × Memory
memccpy zero s1 s2 c m = (none, m)
memccpy (suc n) s1 s2 c m =
    let rest = memccpy n (s1 + 1) (s2 + 1) c (λ a. if a == s1 then m s2 else m a) in
    if m s2 == c % 256 then (some (s1 + 1), λ a. if a == s1 then m s2 else m a) else rest
