-- ===== src/Pmm/Release.antt =====
-- Dropping and adding references to frames: the invariant, and the ways back.
use valerioedx.Base.{
  ℕ, suc, ◌+◌, ◌-◌, ◌%◌, ◌^◌, ◌<◌, ◌≡◌, refl, ◌≢◌, inl, inr, true, fun_ext, ◌==◌, ◌||◌, ◌&&◌, not,
  ltb, leb, update, arith, Bool-cases, lt→ltb, pigeonhole,
}
use valerioedx.Pmm.{
  Pmm, no_index, phys_to_index, index_to_phys, pmm_alloc_frame, pmm_free_frame, pmm_inc_ref,
  push_frame,
}
use valerioedx.Pmm.Valid.{IsValid, popped, alloc-pop, phys_to_index-index_to_phys}

-- Fewer entries than frames: some frame is not on the stack.
pub top-lt-total :
    {p : Pmm} (idx : ℕ)
    → IsValid p
    → idx < p.total_frames
    → ((i : ℕ) → i < p.stack_top → p.frame_stack i ≢ idx)
    → p.stack_top < p.total_frames
top-lt-total {p} idx v h absent =
    pigeonhole (suc p.stack_top) p.total_frames (update p.frame_stack p.stack_top idx)
      (λ i hi. ground (arith, v.in_range i))
      (λ i j hi hj e. ground (arith, v.distinct i j, absent i, absent j))

-- Pushing a frame that is in range, unreferenced and not on the stack.
pub push-IsValid :
    {p : Pmm} (idx : ℕ)
    → IsValid p
    → idx < p.total_frames
    → p.ref_counts idx ≡ 0
    → ((i : ℕ) → i < p.stack_top → p.frame_stack i ≢ idx)
    → IsValid (push_frame idx p)
unfolding push_frame
push-IsValid {p} idx v h zero_ref absent =
    let room : p.stack_top < p.total_frames = top-lt-total idx v h absent in
    let top : (p.stack_top + 1) % 2 ^ 32 ≡ p.stack_top + 1 =
      omega (arith, v.frames, v.small, room) in
    record {
      small = v.small;
      ram_end = v.ram_end;
      frames = v.frames;
      capacity = v.capacity;
      counts = omega (arith, v.counts, v.frames, v.small, room);
      in_range = λ i hi. ground (arith, top, v.in_range i);
      unreferenced = λ i hi. ground (arith, top, v.unreferenced i);
      distinct = λ i j hi hj e. ground (arith, top, v.distinct i j, absent i, absent j);
    }

-- A referenced frame is not on the stack, so its count can be changed.
recount-IsValid :
    {p : Pmm} (idx n : ℕ)
    → IsValid p
    → ((i : ℕ) → i < p.stack_top → p.frame_stack i ≢ idx)
    → IsValid (record p { ref_counts = update p.ref_counts idx n })
recount-IsValid idx n v absent = record {
  small = v.small;
  ram_end = v.ram_end;
  frames = v.frames;
  capacity = v.capacity;
  counts = v.counts;
  in_range = v.in_range;
  unreferenced = λ i hi. ground (arith, v.unreferenced i hi, absent i hi);
  distinct = v.distinct;
}

held-absent :
    {p : Pmm} (idx : ℕ)
    → IsValid p
    → p.ref_counts idx ≢ 0
    → (i : ℕ) → i < p.stack_top
    → p.frame_stack i ≢ idx
held-absent idx v held i hi e = held (rw (← e) (v.unreferenced i hi))

-- pmm_free_frame of a referenced frame keeps the invariant; the push that the last reference
-- causes cannot overflow the stack.
pub free-IsValid :
    {p : Pmm} (addr : ℕ)
    → IsValid p
    → p.ref_counts (phys_to_index p addr) ≢ 0
    → IsValid (pmm_free_frame addr p)
unfolding pmm_free_frame
free-IsValid {p} addr v held =
    let idx = phys_to_index p addr in
    let absent = held-absent idx v held in
    elim (Bool-cases ((idx == no_index) || leb p.total_frames idx)) [
      | inl out ↦ rw out v
      | inr inside ↦
          rw (inside, lt→ltb 0 (p.ref_counts idx) (omega arith))
            (elim (Bool-cases (p.ref_counts idx - 1 == 0)) [
              | inl last ↦ rw last (
                  push-IsValid idx (recount-IsValid idx (p.ref_counts idx - 1) v absent)
                    (ground arith) (ground arith) absent)
              | inr more ↦ rw more (recount-IsValid idx (p.ref_counts idx - 1) v absent)
            ])
    ]

pub inc_ref_lem :
    (p : Pmm) (addr : ℕ)
    → p.ref_counts_set ≡ true
    → phys_to_index p addr ≢ no_index
    → p.ref_counts (phys_to_index p addr) < 255
    → pmm_inc_ref p addr ≡ record p {
      ref_counts =
          update p.ref_counts (phys_to_index p addr) (p.ref_counts (phys_to_index p addr) + 1);
    }
unfolding pmm_inc_ref
inc_ref_lem p addr ready h small = ground arith

-- `pmm_inc_ref` of a held frame keeps the invariant.
pub inc-IsValid :
    {p : Pmm} (addr : ℕ)
    → IsValid p
    → p.ref_counts (phys_to_index p addr) ≢ 0
    → IsValid (pmm_inc_ref p addr)
unfolding pmm_inc_ref
inc-IsValid {p} addr v held =
    let idx = phys_to_index p addr in
    elim (Bool-cases (not (idx == no_index) && p.ref_counts_set && ltb (p.ref_counts idx) 255)) [
      | inl e ↦ rw e (recount-IsValid idx (p.ref_counts idx + 1) v (held-absent idx v held))
      | inr e ↦ rw e v
    ]

module _ (p : Pmm) (addr : ℕ) (h : phys_to_index p addr < p.total_frames)
    (small : p.total_frames < no_index) where
  free_last :
      p.ref_counts (phys_to_index p addr) ≡ 1
      → pmm_free_frame addr p
        ≡ push_frame
            (phys_to_index p addr)
            (record p { ref_counts = update p.ref_counts (phys_to_index p addr) 0 })
  unfolding pmm_free_frame
  free_last e = ground arith

  free_more :
      1 < p.ref_counts (phys_to_index p addr)
      → pmm_free_frame addr p ≡ record p {
        ref_counts =
            update p.ref_counts (phys_to_index p addr) (p.ref_counts (phys_to_index p addr) - 1);
      }
  unfolding pmm_free_frame
  free_more e = ground arith

  pub free_unreferenced :
      p.ref_counts (phys_to_index p addr) ≡ 0
      → p.stack_top < p.stack_capacity
      → pmm_free_frame addr p ≡ push_frame (phys_to_index p addr) p
  unfolding pmm_free_frame
  free_unreferenced e room = ground arith

-- A state whose changed fields have got their old values back.
restored :
    (p : Pmm) (fs rc : ℕ → ℕ) (top used : ℕ)
    → ((i : ℕ) → fs i ≡ p.frame_stack i)
    → ((i : ℕ) → rc i ≡ p.ref_counts i)
    → top ≡ p.stack_top
    → used ≡ p.used_frames
    → record p { frame_stack = fs; ref_counts = rc; stack_top = top; used_frames = used } ≡ p
restored p fs rc top used a b c d = λ i. record p {
  frame_stack = fun_ext a i;
  ref_counts = fun_ext b i;
  stack_top = c i;
  used_frames = d i;
}

-- Freeing the frame that was just allocated gives back exactly the state before.
pub free-alloc :
    {p : Pmm}
    → IsValid p
    → p.stack_top ≢ 0
    → pmm_free_frame (pmm_alloc_frame p).0 (pmm_alloc_frame p).1 ≡ p
unfolding push_frame
free-alloc {p} v h =
    let idx = p.frame_stack (p.stack_top - 1) in
    let addr = index_to_phys idx in
    let at : phys_to_index (popped p) addr ≡ idx =
      phys_to_index-index_to_phys (popped p) idx v.small v.ram_end
        (omega (arith, v.in_range (p.stack_top - 1) (omega arith), v.frames)) in
    let small : p.total_frames < no_index = omega (arith, v.frames, v.small) in
    let bound : idx < p.total_frames = v.in_range (p.stack_top - 1) (omega arith) in
    rw (alloc-pop p h, free_last (popped p) addr (rw at bound) small (rw at (ground arith)), at)
      (restored p _ _ _ _ (λ i. ground arith)
        (λ i. ground (arith, v.unreferenced (p.stack_top - 1))) (omega (arith, v.counts))
        (omega (arith, v.counts, v.frames, v.small)))

-- Taking and dropping one more reference to a held frame whose count is below 255 gives back
-- exactly the state before.
pub free-inc_ref :
    {p : Pmm} (addr : ℕ)
    → IsValid p
    → p.ref_counts_set ≡ true
    → phys_to_index p addr < p.total_frames
    → p.ref_counts (phys_to_index p addr) ≢ 0
    → p.ref_counts (phys_to_index p addr) < 255
    → pmm_free_frame addr (pmm_inc_ref p addr) ≡ p
unfolding phys_to_index
free-inc_ref {p} addr v ready h held small =
    let tall : p.total_frames < no_index = omega (arith, v.frames, v.small) in
    rw
      (
        inc_ref_lem p addr ready (omega arith) small,
        free_more
            (record p {
              ref_counts =
                  update p.ref_counts (phys_to_index p addr)
                    (p.ref_counts (phys_to_index p addr) + 1);
            })
            addr h tall (ground arith),
      )
      (restored p _ _ _ _ (λ i. refl) (λ i. ground arith) refl refl)
