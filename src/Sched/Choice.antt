-- ===== src/Sched/Choice.antt =====
-- Which task `schedule` chooses.
use valerioedx.Base.{
  ℕ, zero, suc, ◌<◌, ◌≡◌, refl, ◌≢◌, inl, inr, Bool, true, false, List, [], ◌∷◌, ◌++◌, some, leb,
  ◌==◌, if◌then◌else◌, arith, ap, ◌∙◌, Bool-cases,
}
use valerioedx.Sched.{
  Sched, priorities, running, ready, has_task, remove_task, head_of, highest_bit, candidate,
  next_task, sched_enqueue_task, sched_dequeue_task, rotate_list, rotate_queue, rotated, set_state,
  switch_to, schedule,
}
use valerioedx.Sched.Active.{IsValid, enqueue-IsValid, dequeue-IsValid}

highest_bit_lem :
    (n p : ℕ) (bits : ℕ → Bool)
    → p < n
    → bits p ≡ true
    → ((q : ℕ) → p < q → bits q ≡ false)
    → highest_bit n bits ≡ some p
unfolding highest_bit
highest_bit_lem zero p bits l set above = absurd (omega arith)
highest_bit_lem (suc n) p bits l set above = elim (Bool-cases (p == n)) [
  | inl same ↦ let e : n ≡ p = ground (arith, same) in rw (e, set) refl
  | inr other ↦
      let less : p < n = ground (arith, other) in
      rw (above n less) (highest_bit_lem n p bits less set above)
]

-- The head of the queue with the highest priority of those that have a task is next.
next_task_lem :
    (s : Sched) (p t : ℕ) (ts : List ℕ)
    → IsValid s
    → p < priorities
    → s.runqueues p ≡ t ∷ ts
    → t ≢ 0
    → ((q : ℕ) → p < q → s.runqueues q ≡ [])
    → next_task s ≡ t
unfolding next_task candidate head_of has_task
next_task_lem s p t ts v l q ne above =
    let set : s.active p ≡ true = v.agrees p ∙ ap has_task q in
    let clear : (k : ℕ) → p < k → s.active k ≡ false =
      λ k h. v.agrees k ∙ ap has_task (above k h) in
    let best = highest_bit_lem 32 p s.active (omega (arith, l)) set clear in
    let below : leb priorities p ≡ false = ground (arith, l) in
    rw (best, below, q) (ground (arith, ne))

-- The queue of a task's priority after it is put in, and after it is taken out, and the others.
runqueues-enqueue :
    (t q : ℕ) (s : Sched)
    → (sched_enqueue_task t s).runqueues q
      ≡ (if q == (s.tasks t).priority then s.runqueues q ++ (t ∷ []) else s.runqueues q)
unfolding sched_enqueue_task
runqueues-enqueue t q s = ground arith

runqueues-dequeue :
    (t q : ℕ) (s : Sched)
    → (sched_dequeue_task t s).runqueues q
      ≡ (if q == (s.tasks t).priority then remove_task t (s.runqueues q) else s.runqueues q)
unfolding sched_dequeue_task
runqueues-dequeue t q s = ground arith

remove_task-head : (t : ℕ) (ts : List ℕ) → remove_task t (t ∷ ts) ≡ ts
unfolding remove_task
remove_task-head t ts = ground arith

abbrev turned : Sched → Sched
turned s = sched_enqueue_task s.current (sched_dequeue_task s.current s)

tasks-dequeue : (t : ℕ) (s : Sched) → (sched_dequeue_task t s).tasks ≡ s.tasks
unfolding sched_dequeue_task
tasks-dequeue t s = refl

current-turned : (s : Sched) → (turned s).current ≡ s.current
unfolding sched_enqueue_task sched_dequeue_task
current-turned s = refl

same_queue : (p : ℕ) → (p == p) ≡ true
same_queue p = ground arith

runqueues-turned :
    (s : Sched) (ts : List ℕ)
    → s.runqueues (s.tasks s.current).priority ≡ s.current ∷ ts
    → (turned s).runqueues (s.tasks s.current).priority ≡ ts ++ (s.current ∷ [])
runqueues-turned s ts q =
    let p = (s.tasks s.current).priority in
    rw
      (
        runqueues-enqueue s.current p (sched_dequeue_task s.current s),
        tasks-dequeue s.current s,
        same_queue p,
        runqueues-dequeue s.current p s,
        same_queue p,
        q,
        remove_task-head s.current ts,
      )
      refl

above-turned :
    (s : Sched) (q : ℕ)
    → (s.tasks s.current).priority < q
    → s.runqueues q ≡ []
    → (turned s).runqueues q ≡ []
above-turned s q h e =
    let other : (q == (s.tasks s.current).priority) ≡ false = ground (arith, h) in
    rw
      (
        runqueues-enqueue s.current q (sched_dequeue_task s.current s),
        tasks-dequeue s.current s,
        other,
        runqueues-dequeue s.current q s,
        other,
      )
      e

rotated_lem :
    (s : Sched) (u : ℕ) (us : List ℕ)
    → s.current ≢ 0
    → (s.tasks s.current).state ≡ running
    → s.runqueues (s.tasks s.current).priority ≡ s.current ∷ u ∷ us
    → rotated s ≡ turned s
unfolding rotated rotate_queue rotate_list
rotated_lem s u us busy runs q =
    let idle : (s.current == 0) ≡ false = ground (arith, busy) in
    let going : ((s.tasks s.current).state == running) ≡ true = ground (arith, runs) in
    rw (idle, going, q) refl

switch_to_lem :
    (u : ℕ) (s : Sched)
    → u ≢ s.current
    → ((switch_to u s).current ≡ u) × ((switch_to u s).runqueues ≡ s.runqueues)
unfolding switch_to set_state
switch_to_lem u s other =
    let moved : (u == s.current) ≡ false = ground (arith, other) in
    rw moved (elim (Bool-cases ((s.tasks u).state == ready)) [
      | inl rested ↦ rw rested (refl, refl)
      | inr goes ↦ rw goes (refl, refl)
    ])

-- Where priorities are below COUNT, no queue from COUNT on has a task, and the bits of active_priorities
-- are set exactly for the queues with a task: if the current task runs at the head of the queue of its
-- priority, another task follows it, and no queue of a higher priority has a task, then schedule makes
-- the task that follows the current one, and the former one is now the last of the queue.
pub round_robin :
    (s : Sched) (u : ℕ) (us : List ℕ)
    → IsValid s
    → s.current ≢ 0
    → u ≢ 0
    → u ≢ s.current
    → (s.tasks s.current).state ≡ running
    → s.runqueues (s.tasks s.current).priority ≡ s.current ∷ u ∷ us
    → ((q : ℕ) → (s.tasks s.current).priority < q → s.runqueues q ≡ [])
    → let t = schedule s in
      (t.current ≡ u) × (t.runqueues (s.tasks s.current).priority ≡ u ∷ us ++ (s.current ∷ []))
unfolding schedule
round_robin s u us v busy ne other runs q above =
    let p = (s.tasks s.current).priority in
    let valid_turn = enqueue-IsValid s.current _ (dequeue-IsValid s.current s v) in
    let order = runqueues-turned s (u ∷ us) q in
    let next : next_task (turned s) ≡ u =
      next_task_lem (turned s) p u (us ++ (s.current ∷ [])) valid_turn (v.small s.current) order ne
        (λ k h. above-turned s k h (above k h)) in
    let (chosen, kept) = switch_to_lem u (turned s) (rw (current-turned s) other) in
    rw (rotated_lem s u us busy runs q, next) (chosen, ap (λ f. f p) kept ∙ order)
