-- ===== src/Strings/Fills.antt =====
-- Filling of ranges, and comparison of ranges.
use valerioedx.Base.{
  ℕ, zero, suc, ◌+◌, ◌*◌, ◌/◌, ◌%◌, ◌≡◌, ◌&&◌, ltb, leb, if◌then◌else◌, update, arith, ◌∙◌, fun_ext,
}
use valerioedx.Strings.{Memory, fill, memset}
use valerioedx.Strings.User
use valerioedx.Strings.User.{set_chunk, set_chunks}

-- The memory where the `n` bytes from `d` on are `c`.
abbrev pub filled : (d c n : ℕ) → Memory → Memory
filled d c n m a = if leb d a && ltb a (d + n) then c else m a

pub fill-filled : (n d c : ℕ) (m : Memory) → fill n d c m ≡ filled d c n m
unfolding fill
fill-filled zero d c m = fun_ext (λ a. ground arith)
fill-filled (suc n) d c m = fill-filled n (d + 1) c (update m d c) ∙ fun_ext (λ a. ground arith)

set_chunks-filled : (k d c : ℕ) (m : Memory) → set_chunks k d c m ≡ filled d c (16 * k) m
unfolding set_chunks set_chunk
set_chunks-filled zero d c m = fun_ext (λ a. ground arith)
set_chunks-filled (suc k) d c m =
    set_chunks-filled k (d + 16) c (set_chunk d c m) ∙ fun_ext (λ a. ground arith)

-- Both versions of memset store the low byte of `c` in the `n` bytes from `d` on, and change no other
-- byte.
pub memset_lem :
    (d c n : ℕ) (m : Memory)
    → (memset d c n m ≡ filled d (c % 256) n m) × (User.memset d c n m ≡ filled d (c % 256) n m)
unfolding memset User.memset
memset_lem d c n m =
    let k = n / 16 in
    (
      fill-filled n d (c % 256) m,
      rw (set_chunks-filled k d (c % 256) m) (
          fill-filled (n % 16) (d + 16 * k) (c % 256) (filled d (c % 256) (16 * k) m)
          ∙ fun_ext (λ a. ground arith)),
    )
