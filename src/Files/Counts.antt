-- ===== src/Files/Counts.antt =====
-- Reference counts of open files against the entries of the descriptor table.
use valerioedx.Base.{
  ℕ, zero, suc, ◌+◌, ◌≤◌, ◌<◌, ◌≡◌, refl, ◌≢◌, ◌==◌, if◌then◌else◌, update, pos, arith,
}
use valerioedx.Files.{Files, max_fd}

-- How many of the first `n` entries refer to `f`.
pub refs : (ℕ → ℕ) → ℕ → ℕ → ℕ
refs table f zero = 0
refs table f (suc n) = refs table f n + (if table n == f then 1 else 0)

-- Every file has as many references as descriptors.
pub record IsCounted (s : Files) : Type 0 where
  pub agrees : (f : ℕ) → f ≢ 0 → (s.files f).ref_count ≡ pos (refs s.fd_table f max_fd)

refs-update_above :
    (table : ℕ → ℕ) (f i v n : ℕ) → n ≤ i → refs (update table i v) f n ≡ refs table f n
unfolding refs
refs-update_above table f i v zero h = refl
refs-update_above table f i v (suc n) h =
    ground (arith, refs-update_above table f i v n (omega arith))

-- One entry changed: the old value loses a reference and the new one gains it.
pub refs-update :
    (table : ℕ → ℕ) (f i v n : ℕ)
    → i < n
    → refs (update table i v) f n + (if table i == f then 1 else 0)
      ≡ refs table f n + (if v == f then 1 else 0)
unfolding refs
refs-update table f i v zero h = absurd (omega arith)
refs-update table f i v (suc n) h =
    ground (arith, refs-update table f i v n, refs-update_above table f i v n)

pub refs-pos : (table : ℕ → ℕ) (i n : ℕ) → i < n → 1 ≤ refs table (table i) n
unfolding refs
refs-pos table i zero h = absurd (omega arith)
refs-pos table i (suc n) h = ground (arith, refs-pos table i n)

pub refs-zero : (table : ℕ → ℕ) (f n : ℕ) → ((i : ℕ) → table i ≡ 0) → f ≢ 0 → refs table f n ≡ 0
unfolding refs
refs-zero table f zero empty ne = refl
refs-zero table f (suc n) empty ne = ground (arith, refs-zero table f n empty ne, empty n)
