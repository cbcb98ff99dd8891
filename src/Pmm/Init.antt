-- ===== src/Pmm/Init.antt =====
-- `pmm_init` of kernel/mm/pmm.c: the loop that fills the stack, and the state that it leaves.
use valerioedx.Base.{
  ℕ, zero, suc, ◌+◌, ◌*◌, ◌/◌, ◌%◌, ◌^◌, ◌≤◌, ◌<◌, ◌≡◌, inl, inr, ◌&&◌, leb, ltb, update, arith,
  Bool-cases, lt→ltb, subst, refl, sym, ◌∙◌, ◌==◌, not,
}
use valerioedx.Pmm.{
  Pmm, phy_ram_base, page_size, index_to_phys, init_frame, init_loop, reserved_end, stack_start,
  pmm_init,
}
use valerioedx.Pmm.Valid.{IsValid}

-- After `i` rounds: the invariant of the allocator, with the first `i` frames for all of them, and
-- no entry below the end of the reserved memory.
record Filled (reserved i : ℕ) (p : Pmm) : Type 0 where
  small : p.phy_ram_size ≤ 2 ^ 43
  ram_end : p.phy_ram_end ≡ phy_ram_base + p.phy_ram_size
  frames : p.total_frames ≡ p.phy_ram_size / page_size
  capacity : p.stack_capacity ≡ p.total_frames
  seen : i ≤ p.total_frames
  counts : p.used_frames + p.stack_top ≡ i
  in_range : (j : ℕ) → j < p.stack_top → p.frame_stack j < i
  unreferenced : (j : ℕ) → j < p.stack_top → p.ref_counts (p.frame_stack j) ≡ 0
  distinct :
      (j k : ℕ) → j < p.stack_top → k < p.stack_top → p.frame_stack j ≡ p.frame_stack k → j ≡ k
  clear : (j : ℕ) → j < p.stack_top → reserved ≤ index_to_phys (p.frame_stack j)

abbrev reserve : ℕ → Pmm → Pmm
reserve i p = record p {
  used_frames = (p.used_frames + 1) % 2 ^ 32;
  ref_counts = update (update p.ref_counts i 0) i 1;
}

abbrev release : ℕ → Pmm → Pmm
release i p = record p {
  ref_counts = update p.ref_counts i 0;
  frame_stack = update p.frame_stack p.stack_top i;
  stack_top = (p.stack_top + 1) % 2 ^ 32;
}

reserve-Filled :
    {reserved i : ℕ} {p : Pmm}
    → Filled reserved i p
    → i < p.total_frames
    → Filled reserved (i + 1) (reserve i p)
reserve-Filled {i} {p} f h = record {
  small = f.small;
  ram_end = f.ram_end;
  frames = f.frames;
  capacity = f.capacity;
  seen = omega arith;
  counts = omega (arith, f.counts, f.frames, f.small);
  in_range = λ j hj. omega (arith, f.in_range j hj);
  unreferenced = λ j hj. ground (arith, f.unreferenced j hj, f.in_range j hj);
  distinct = f.distinct;
  clear = f.clear;
}

release-Filled :
    {reserved i : ℕ} {p : Pmm}
    → Filled reserved i p
    → i < p.total_frames
    → reserved ≤ index_to_phys i
    → Filled reserved (i + 1) (release i p)
release-Filled {i} {p} f h above =
    let top : (p.stack_top + 1) % 2 ^ 32 ≡ p.stack_top + 1 =
      omega (arith, f.counts, f.frames, f.small) in
    record {
      small = f.small;
      ram_end = f.ram_end;
      frames = f.frames;
      capacity = f.capacity;
      seen = omega arith;
      counts = omega (arith, f.counts, top);
      in_range = λ j hj. ground (arith, top, f.in_range j);
      unreferenced = λ j hj. ground (arith, top, f.unreferenced j, f.in_range j);
      distinct = λ j k hj hk e. ground (arith, top, f.distinct j k, f.in_range j, f.in_range k);
      clear = λ j hj. ground (arith, top, f.clear j, above);
    }

init_frame-Filled :
    {reserved i : ℕ} {p : Pmm}
    → Filled reserved i p
    → i < p.total_frames
    → Filled reserved (i + 1) (init_frame reserved i p)
unfolding init_frame index_to_phys
init_frame-Filled {reserved} {i} {p} f h =
    let addr = index_to_phys i in
    elim (Bool-cases (leb phy_ram_base addr && ltb addr reserved)) [
      | inl e ↦ rw e (reserve-Filled f h)
      | inr e ↦
          rw (e, lt→ltb p.stack_top p.stack_capacity (omega (arith, f.counts, f.capacity)))
            (release-Filled f h
              (ground (arith, e, ram_base-le i (omega (arith, f.frames, f.small)))))
    ]
  where
    ram_base-le : (k : ℕ) → k < 2 ^ 32 → phy_ram_base ≤ index_to_phys k
    ram_base-le k hk = omega arith

total-init_frame :
    (reserved i : ℕ) (p : Pmm) → (init_frame reserved i p).total_frames ≡ p.total_frames
unfolding init_frame
total-init_frame reserved i p = ground arith

init_loop-Filled :
    (rounds i n : ℕ) {reserved : ℕ} {p : Pmm}
    → Filled reserved i p
    → i + rounds ≡ n
    → n ≤ p.total_frames
    → Filled reserved n (init_loop rounds reserved i p)
unfolding init_loop
init_loop-Filled zero i n {reserved} {p} f h le = subst (λ k. Filled reserved k p) (omega arith) f
init_loop-Filled (suc rounds) i n {reserved} {p} f h le =
    init_loop-Filled rounds (i + 1) n (init_frame-Filled f (omega arith)) (omega arith)
      (omega (arith, total-init_frame reserved i p))

-- With every frame seen the invariant of the allocator holds.
total-init_loop :
    (rounds reserved i : ℕ) (p : Pmm)
    → (init_loop rounds reserved i p).total_frames ≡ p.total_frames
unfolding init_loop
total-init_loop zero reserved i p = refl
total-init_loop (suc rounds) reserved i p =
    total-init_loop rounds reserved (i + 1) (init_frame reserved i p)
    ∙ total-init_frame reserved i p

Filled-IsValid : {reserved n : ℕ} {p : Pmm} → Filled reserved n p → n ≡ p.total_frames → IsValid p
Filled-IsValid f e = record {
  small = f.small;
  ram_end = f.ram_end;
  frames = f.frames;
  capacity = f.capacity;
  counts = f.counts ∙ e;
  in_range = λ j hj. omega (arith, f.in_range j hj);
  unreferenced = f.unreferenced;
  distinct = f.distinct;
}

-- The state in which the loop of `pmm_init` starts.
abbrev started : ℕ → ℕ → Pmm → Pmm
started kernel_end ram_size p =
    let frames = (ram_size / page_size) % 2 ^ 32 in
    record p {
      phy_ram_size = ram_size;
      phy_ram_end = (phy_ram_base + ram_size) % 2 ^ 64;
      total_frames = frames;
      ref_counts_set = not (((stack_start kernel_end + frames * 4) % 2 ^ 64) == 0);
      stack_capacity = frames;
      stack_top = 0;
    }

pmm_init-Filled :
    (kernel_end ram_size : ℕ) (p : Pmm)
    → p.used_frames ≡ 0
    → ram_size ≤ 2 ^ 43
    → let frames = (ram_size / page_size) % 2 ^ 32 in
      Filled (reserved_end kernel_end frames) frames (pmm_init kernel_end ram_size p)
unfolding pmm_init
pmm_init-Filled kernel_end ram_size p fresh small =
    let frames = (ram_size / page_size) % 2 ^ 32 in
    init_loop-Filled frames 0 frames {p = started kernel_end ram_size p}
      (record {
        small = small;
        ram_end = omega arith;
        frames = omega arith;
        capacity = refl;
        seen = omega arith;
        counts = omega arith;
        in_range = λ j hj. absurd (omega arith);
        unreferenced = λ j hj. absurd (omega arith);
        distinct = λ j k hj. absurd (omega arith);
        clear = λ j hj. absurd (omega arith);
      })
      (omega arith) (omega arith)

total-pmm_init :
    (kernel_end ram_size : ℕ) (p : Pmm)
    → (pmm_init kernel_end ram_size p).total_frames ≡ (ram_size / page_size) % 2 ^ 32
unfolding pmm_init
total-pmm_init kernel_end ram_size p =
    total-init_loop ((ram_size / page_size) % 2 ^ 32)
      (reserved_end kernel_end ((ram_size / page_size) % 2 ^ 32)) 0 (started kernel_end ram_size p)

-- From the zeroed statics, with at most 8 TiB of memory, `pmm_init` establishes the invariant and
-- counts every frame of the memory.
pub init-IsValid :
    (kernel_end ram_size : ℕ) (p : Pmm)
    → p.used_frames ≡ 0
    → ram_size ≤ 2 ^ 43
    → IsValid (pmm_init kernel_end ram_size p)
      × ((pmm_init kernel_end ram_size p).total_frames ≡ ram_size / page_size)
init-IsValid kernel_end ram_size p fresh small = (
  Filled-IsValid (pmm_init-Filled kernel_end ram_size p fresh small)
      (sym (total-pmm_init kernel_end ram_size p)),
  omega (arith, total-pmm_init kernel_end ram_size p),
)

-- After `pmm_init` no entry of the stack is a frame below the end of the kernel and of the tables
-- behind it, which take five bytes for each frame.
pub init_reserves :
    (kernel_end ram_size j : ℕ) (p : Pmm)
    → p.used_frames ≡ 0
    → ram_size ≤ 2 ^ 43
    → j < (pmm_init kernel_end ram_size p).stack_top
    → reserved_end kernel_end (pmm_init kernel_end ram_size p).total_frames
      ≤ index_to_phys ((pmm_init kernel_end ram_size p).frame_stack j)
init_reserves kernel_end ram_size j p fresh small h =
    rw (total-pmm_init kernel_end ram_size p)
      ((pmm_init-Filled kernel_end ram_size p fresh small).clear j h)
