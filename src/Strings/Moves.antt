-- ===== src/Strings/Moves.antt =====
-- Copying of ranges, also where source and destination overlap.
use valerioedx.Base.{
  ℕ, zero, suc, ◌+◌, ◌-◌, ◌*◌, ◌/◌, ◌%◌, ◌≤◌, ◌≡◌, ◌⊎◌, inl, inr, ◌&&◌, ltb, leb, if◌then◌else◌,
  update, arith, sym, ◌∙◌, fun_ext, Bool-cases,
}
use valerioedx.Strings.{Memory, copy_up, copy_down, memmove, memcpy}
use valerioedx.Strings.User
use valerioedx.Strings.User.{copy_chunk, copy_chunks}

-- The memory where the `n` bytes from `d` on are those that were at `s`.
abbrev pub moved : (d s n : ℕ) → Memory → Memory
moved d s n m a = if leb d a && ltb a (d + n) then m (s + (a - d)) else m a

-- A copy that goes up meets no byte that it has written.
abbrev pub Upwards : (d s n : ℕ) → Type 0
Upwards d s n = (d ≤ s) ⊎ (s + n ≤ d)

moved-moved :
    (p r d s : ℕ) (m : Memory) (a : ℕ)
    → Upwards d s (p + r)
    → moved (d + p) (s + p) r (moved d s p m) a ≡ moved d s (p + r) m a
moved-moved p r d s m a u = ground arith

-- The first byte, and then the others.
pub moved-update :
    (n d s : ℕ) (m : Memory)
    → Upwards d s (suc n)
    → moved (d + 1) (s + 1) n (update m d (m s)) ≡ moved d s (suc n) m
moved-update n d s m u = fun_ext (λ a. ground arith)

copy_up-moved : (n d s : ℕ) (m : Memory) → Upwards d s n → copy_up n d s m ≡ moved d s n m
unfolding copy_up
copy_up-moved zero d s m u = fun_ext (λ a. ground arith)
copy_up-moved (suc n) d s m u =
    copy_up-moved n (d + 1) (s + 1) (update m d (m s)) (ground arith) ∙ moved-update n d s m u

copy_down-moved : (n d s : ℕ) (m : Memory) → s ≤ d → copy_down n d s m ≡ moved d s n m
unfolding copy_down
copy_down-moved zero d s m h = fun_ext (λ a. ground arith)
copy_down-moved (suc n) d s m h =
    copy_down-moved n d s (update m (d + n) (m (s + n))) h ∙ fun_ext (λ a. ground arith)

-- However the ranges lie, memmove of n bytes makes the n bytes at the destination those that were at
-- the source before the call, and changes no other byte.
pub memmove_lem : (dest src n : ℕ) (m : Memory) → memmove dest src n m ≡ moved dest src n m
unfolding memmove
memmove_lem dest src n m = elim (Bool-cases (ltb dest src)) [
  | inl below ↦ rw below (copy_up-moved n dest src m (inl (ground (arith, below))))
  | inr above ↦ rw above (copy_down-moved n dest src m (ground (arith, above)))
]

copy_chunks-moved :
    (k d s : ℕ) (m : Memory) → Upwards d s (16 * k) → copy_chunks k d s m ≡ moved d s (16 * k) m
unfolding copy_chunks copy_chunk
copy_chunks-moved zero d s m u = fun_ext (λ a. ground arith)
copy_chunks-moved (suc k) d s m u =
    copy_chunks-moved k (d + 16) (s + 16) (copy_chunk d s m) (ground arith)
    ∙ fun_ext (λ a. ground (arith, moved-moved 16 (16 * k) d s m a))

user_memcpy-moved : (d s n : ℕ) (m : Memory) → Upwards d s n → User.memcpy d s n m ≡ moved d s n m
unfolding User.memcpy
user_memcpy-moved d s n m u =
    let k = n / 16 in
    rw (copy_chunks-moved k d s m (ground arith)) (
      copy_up-moved (n % 16) (d + 16 * k) (s + 16 * k) (moved d s (16 * k) m) (ground arith)
      ∙ fun_ext (λ a. moved-moved (16 * k) (n % 16) d s m a (ground arith) ∙ ground arith))

-- Where the destination does not begin inside the source, the memcpy of the user library, by vectors of
-- 16 bytes, and that of the kernel, byte by byte, leave the same memory, and it is that of memmove.
pub memcpy-eq :
    (d s n : ℕ) (m : Memory)
    → Upwards d s n
    → (User.memcpy d s n m ≡ memcpy d s n m) × (memcpy d s n m ≡ memmove d s n m)
unfolding memcpy
memcpy-eq d s n m u =
    let up = copy_up-moved n d s m u in
    (user_memcpy-moved d s n m u ∙ sym up, up ∙ sym (memmove_lem d s n m))
