-- ===== src/Pmm/Region.antt =====
-- `pmm_mark_used_region` of kernel/mm/pmm.c: taking reserved frames off the stack.
use valerioedx.Base.{
  ℕ, zero, suc, ◌+◌, ◌-◌, ◌^◌, ◌%◌, ◌≤◌, ◌<◌, ◌≡◌, ◌≢◌, inl, inr, false, ◌==◌, update, arith,
  Bool-cases, subst,
}
use valerioedx.Pmm.{
  Pmm, page_size, no_index, phys_to_index, pmm_mark_used_region, mark_loop, remove_target,
}
use valerioedx.Pmm.Valid.{IsValid}

-- `x` is an entry of the stack.
abbrev pub OnStack : Pmm → ℕ → Type 0
OnStack p x = (i : ℕ) × (i < p.stack_top) × (p.frame_stack i ≡ x)

-- The entry at `i` overwritten by the top one.
abbrev dropped : ℕ → Pmm → Pmm
dropped i p = record p {
  stack_top = p.stack_top - 1;
  frame_stack = update p.frame_stack i (p.frame_stack (p.stack_top - 1));
  used_frames = (p.used_frames + 1) % 2 ^ 32;
}

dropped-IsValid : {p : Pmm} (i : ℕ) → IsValid p → i < p.stack_top → IsValid (dropped i p)
dropped-IsValid {p} i v h =
    let last = p.stack_top - 1 in
    record {
      small = v.small;
      ram_end = v.ram_end;
      frames = v.frames;
      capacity = v.capacity;
      counts = omega (arith, v.counts, v.frames, v.small);
      in_range = λ j hj. ground (arith, v.in_range j, v.in_range last);
      unreferenced = λ j hj. ground (arith, v.unreferenced j, v.unreferenced last);
      distinct =
          λ j k hj hk e. ground (arith, v.distinct j k, v.distinct last k, v.distinct j last);
    }

remove_target-IsValid :
    (rest target i : ℕ) {p : Pmm}
    → IsValid p
    → i + rest ≤ p.stack_top
    → IsValid (remove_target rest target i p)
unfolding remove_target
remove_target-IsValid zero target i v h = v
remove_target-IsValid (suc rest) target i {p} v h = elim (Bool-cases (p.frame_stack i == target)) [
  | inl e ↦ rw e (dropped-IsValid i v (omega arith))
  | inr e ↦ rw e (remove_target-IsValid rest target (i + 1) v (omega arith))
]

-- Nothing is added to the stack.
remove_target-OnStack :
    (rest target i x : ℕ) (p : Pmm)
    → i + rest ≤ p.stack_top
    → OnStack (remove_target rest target i p) x
    → OnStack p x
unfolding remove_target
remove_target-OnStack zero target i x p h on = on
remove_target-OnStack (suc rest) target i x p h on = elim (Bool-cases (p.frame_stack i == target)) [
  | inl e ↦ was_on (rw e at on)
  | inr e ↦ remove_target-OnStack rest target (i + 1) x p (omega arith) (rw e at on)
]
  where
    was_on : OnStack (dropped i p) x → OnStack p x
    was_on (j, hj, e) = elim (Bool-cases (j == i)) [
      | inl same ↦ (p.stack_top - 1, omega arith, rw same at e)
      | inr other ↦ (j, omega arith, rw other at e)
    ]

-- The target is gone, if it did not stand below `i`.
remove_target-gone :
    (rest target i : ℕ) (p : Pmm)
    → IsValid p
    → i + rest ≡ p.stack_top
    → ((j : ℕ) → j < i → p.frame_stack j ≢ target)
    → ¬ OnStack (remove_target rest target i p) target
unfolding remove_target
remove_target-gone zero target i p v h below (j, hj, e) = below j (omega arith) e
remove_target-gone (suc rest) target i p v h below on =
    elim (Bool-cases (p.frame_stack i == target)) [
      | inl e ↦ gone (ground arith) (rw e at on)
      | inr e ↦
          remove_target-gone rest target (i + 1) p v (omega arith) (above (ground arith))
            (rw e at on)
    ]
  where
    above : p.frame_stack i ≢ target → (j : ℕ) → j < i + 1 → p.frame_stack j ≢ target
    above ne j hj = elim (Bool-cases (j == i)) [
      | inl same ↦ ground arith
      | inr other ↦ below j (ground arith)
    ]

    gone : p.frame_stack i ≡ target → ¬ OnStack (dropped i p) target
    gone at (j, hj, e) = ground (arith, v.distinct i j, v.distinct i (p.stack_top - 1))

mark_loop_lem :
    (rest target : ℕ) (p : Pmm)
    → IsValid p
    → IsValid (mark_loop rest target p)
      × ((x : ℕ) → OnStack (mark_loop rest target p) x → OnStack p x)
      × ((x : ℕ) → target ≤ x → x < target + rest → ¬ OnStack (mark_loop rest target p) x)
unfolding mark_loop
mark_loop_lem zero target p v = (v, λ x on. on, λ x l h. absurd (omega arith))
mark_loop_lem (suc rest) target p v =
    let q = remove_target p.stack_top target 0 p in
    let (w, keep, clear) =
      mark_loop_lem rest (target + 1) q
        (remove_target-IsValid p.stack_top target 0 v (omega arith)) in
    (
      w,
      λ x on. remove_target-OnStack p.stack_top target 0 x p (omega arith) (keep x on),
      λ x l h on. elim (Bool-cases (x == target)) [
        | inl same ↦
            remove_target-gone p.stack_top target 0 p v (omega arith) (λ j hj. absurd (omega arith))
              (subst (OnStack q) (ground arith) (keep x on))
        | inr other ↦ clear x (ground arith) (ground arith) on
      ],
    )

-- pmm_mark_used_region keeps the invariant.
pub mark-IsValid :
    (base size : ℕ) {p : Pmm} → IsValid p → IsValid (pmm_mark_used_region base size p)
unfolding pmm_mark_used_region
mark-IsValid base size {p} v =
    let first = phys_to_index p base in
    let past = phys_to_index p ((base + size + page_size - 1) % 2 ^ 64) in
    elim (Bool-cases (first == no_index)) [
      | inl out ↦ rw out v
      | inr inside ↦ rw inside (mark_loop_lem (past - first) first p v).0
    ]

-- After a region that begins in memory is marked, what is on the stack was there before and lies
-- outside the frames from the one of the region's first address up to, and without, the one of
-- its rounded end.
pub mark-OnStack :
    (base size x : ℕ) {p : Pmm}
    → IsValid p
    → phys_to_index p base ≢ no_index
    → OnStack (pmm_mark_used_region base size p) x
    → OnStack p x
      × ¬ (
          (phys_to_index p base ≤ x)
          × (x < phys_to_index p ((base + size + page_size - 1) % 2 ^ 64)))
unfolding pmm_mark_used_region
mark-OnStack base size x {p} v ne on =
    let first = phys_to_index p base in
    let past = phys_to_index p ((base + size + page_size - 1) % 2 ^ 64) in
    let inside : (first == no_index) ≡ false = ground arith in
    let (w, keep, clear) = mark_loop_lem (past - first) first p v in
    (
      keep x (rw inside at on),
      λ between. clear x between.0 (omega (arith, between.0, between.1)) (rw inside at on),
    )
