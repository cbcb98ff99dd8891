-- ===== src/Sync/Mutexes.antt =====
-- Tasks that acquire and release one mutex, in any order.
use valerioedx.Base.{
  member, remove, ℕ, ◌≤◌, ◌<◌, ◌≡◌, refl, ◌⊎◌, inl, inr, true, false, List, [], ◌∷◌, if◌then◌else◌,
  arith,
}
use valerioedx.Sync.{
  Mutex, mutex_init, mutex_acquire, wake_one, mutex_release, size, with_woken, size-remove,
}

-- `trying` are the tasks about to pass, `inside` those that mutex_acquire has returned to and that have not
-- released the mutex.
pub record Users : Type 0 where
  pub mutex : Mutex
  pub trying : List ℕ
  pub inside : List ℕ

unfoldable pub users : Users
users = record { mutex = mutex_init; trying = []; inside = [] }

unfoldable pub call : (task : ℕ) → Users → Users
call task u = record u { trying = task ∷ u.trying }

unfoldable pub pass : (task : ℕ) → Users → Users
pass task u =
    let (done, mutex) = mutex_acquire task u.mutex in
    record u {
      mutex = mutex;
      trying = remove task u.trying;
      inside = if done then task ∷ u.inside else u.inside;
    }

unfoldable pub leave : (task : ℕ) → Users → Users
leave task u =
    let (woken, mutex) = mutex_release u.mutex in
    record { mutex = mutex; trying = with_woken woken u.trying; inside = remove task u.inside }

-- What may come of a mutex that only tasks inside release.
pub data Reached : Users → Type 0 where
  start : Reached users
  called : {u : Users} (task : ℕ) → Reached u → Reached (call task u)
  passed : {u : Users} (task : ℕ) → member task u.trying ≡ true → Reached u → Reached (pass task u)
  left : {u : Users} (task : ℕ) → member task u.inside ≡ true → Reached u → Reached (leave task u)

-- The mutex is locked where one task is inside; where it is not locked, no task is, and if any sleep,
-- one is about to pass.
abbrev IsExclusive : Users → Type 0
IsExclusive u =
    ((u.mutex.locked ≡ true) × (size u.inside ≡ 1))
    ⊎ ((u.mutex.locked ≡ false)
        × (size u.inside ≡ 0)
        × ((u.mutex.wait_list ≡ []) ⊎ (0 < size u.trying)))

pass-IsExclusive :
    (task : ℕ) (u : Users) → member task u.trying ≡ true → IsExclusive u → IsExclusive (pass task u)
unfolding pass mutex_acquire size
pass-IsExclusive task u here (inl (locked, one)) = ground (arith, locked, one)
pass-IsExclusive task u here (inr (unlocked, nobody, s)) = ground (arith, unlocked, nobody)

woken_tries :
    (sleepers trying : List ℕ)
    → ((wake_one sleepers).1 ≡ []) ⊎ (0 < size (with_woken (wake_one sleepers).0 trying))
unfolding wake_one size
woken_tries [] trying = inl refl
woken_tries (t ∷ ts) trying = inr (omega arith)

leave-IsExclusive :
    (task : ℕ) (u : Users)
    → member task u.inside ≡ true
    → IsExclusive u
    → IsExclusive (leave task u)
unfolding leave mutex_release
leave-IsExclusive task u here (inl (locked, one)) = inr (
  refl,
  omega (arith, size-remove task u.inside here, one),
  woken_tries u.mutex.wait_list u.trying,
)
leave-IsExclusive task u here (inr (unlocked, nobody, s)) =
    absurd (omega (arith, size-remove task u.inside here, nobody))

Reached-IsExclusive : {u : Users} → Reached u → IsExclusive u
unfolding users mutex_init call size
Reached-IsExclusive start = inr (refl, refl, inl refl)
Reached-IsExclusive (called task r) = ground (arith, Reached-IsExclusive r)
Reached-IsExclusive (passed task here r) = pass-IsExclusive task _ here (Reached-IsExclusive r)
Reached-IsExclusive (left task here r) = leave-IsExclusive task _ here (Reached-IsExclusive r)

-- However tasks acquire a mutex, and those inside release it, at most one task is inside, and the mutex is
-- locked exactly where one is; where it is not locked and tasks sleep, one is about to pass.
pub exclusive_lem :
    (u : Users)
    → Reached u
    → (size u.inside ≤ 1)
      × (size u.inside ≡ (if u.mutex.locked then 1 else 0))
      × ((u.mutex.locked ≡ true) ⊎ (u.mutex.wait_list ≡ []) ⊎ (0 < size u.trying))
exclusive_lem u r = elim (Reached-IsExclusive r) [
  | inl (locked, one) ↦ (omega (arith, one), ground (arith, locked, one), inl locked)
  | inr (unlocked, nobody, s) ↦ (omega (arith, nobody), ground (arith, unlocked, nobody), inr s)
]
