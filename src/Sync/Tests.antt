-- ===== src/Sync/Tests.antt =====
-- Two tasks on a semaphore with one permit, and on a mutex.
use valerioedx.Base.{member, remove, ◌≤◌, ◌<◌, ◌≡◌, refl, ◌⊎◌, true, [], ◌∷◌, if◌then◌else◌}
use valerioedx.Sync.{sem_init, sem_wait, mutex_init, mutex_acquire, mutex_release, wake_one, size}
use valerioedx.Sync.Semaphores
use valerioedx.Sync.Semaphores.{Waiters, waiters, signal, settle, returns_balanced, settle_lem}
use valerioedx.Sync.Mutexes
use valerioedx.Sync.Mutexes.{Users, users, leave, exclusive_lem}

-- The second task sleeps, and the first signals.
abbrev two_waiters : Waiters
two_waiters =
    signal
      (Semaphores.pass 2 (Semaphores.call 2 (Semaphores.pass 1 (Semaphores.call 1 (waiters 1)))))

two_waiters-Reached : Semaphores.Reached 1 two_waiters
unfolding member Semaphores.call Semaphores.pass waiters sem_init sem_wait remove
two_waiters-Reached = Semaphores.signalled (
    Semaphores.passed 2 refl
      (Semaphores.called 2 (Semaphores.passed 1 refl (Semaphores.called 1 Semaphores.start))))

settle_example :
    let w = settle two_waiters.trying two_waiters in
    (w.trying ≡ []) × ((w.sem.wait_list ≡ []) ⊎ (w.sem.count ≡ 0))
settle_example = settle_lem 1 two_waiters two_waiters-Reached

-- The second task sleeps, and the first releases.
abbrev two_users : Users
two_users = leave 1 (Mutexes.pass 2 (Mutexes.call 2 (Mutexes.pass 1 (Mutexes.call 1 users))))

two_users-Reached : Mutexes.Reached two_users
unfolding member Mutexes.call Mutexes.pass users mutex_init mutex_acquire remove
two_users-Reached = Mutexes.left 1 refl (
    Mutexes.passed 2 refl
      (Mutexes.called 2 (Mutexes.passed 1 refl (Mutexes.called 1 Mutexes.start))))

exclusive_example :
    (size two_users.inside ≤ 1)
    × (size two_users.inside ≡ (if two_users.mutex.locked then 1 else 0))
    × ((two_users.mutex.locked ≡ true)
        ⊎ (two_users.mutex.wait_list ≡ [])
        ⊎ (0 < size two_users.trying))
exclusive_example = exclusive_lem two_users two_users-Reached

second_woken : two_users.trying ≡ 2 ∷ []
unfolding Mutexes.call Mutexes.pass users mutex_init mutex_acquire remove leave mutex_release
    wake_one
second_woken = refl
