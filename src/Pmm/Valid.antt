-- ===== src/Pmm/Valid.antt =====
-- The invariant of the frame allocator, and what allocation and release do under it.
use valerioedx.Base.{
  ℕ, ◌+◌, ◌-◌, ◌/◌, ◌%◌, ◌^◌, ◌≤◌, ◌<◌, ◌≡◌, ◌≢◌, inl, inr, ◌==◌, update, arith, Bool-cases,
}
use valerioedx.Pmm.{Pmm, phy_ram_base, page_size, phys_to_index, index_to_phys, pmm_alloc_frame}

-- The entries of the stack are distinct frames of memory that nobody refers to, and `used_frames`
-- counts the others. No address of memory wraps a 64-bit word, and no frame index is `(u32)-1`.
pub record IsValid (p : Pmm) : Type 0 where
  pub small : p.phy_ram_size ≤ 2 ^ 43
  pub ram_end : p.phy_ram_end ≡ phy_ram_base + p.phy_ram_size
  pub frames : p.total_frames ≡ p.phy_ram_size / page_size
  pub capacity : p.stack_capacity ≡ p.total_frames
  pub counts : p.used_frames + p.stack_top ≡ p.total_frames
  pub in_range : (i : ℕ) → i < p.stack_top → p.frame_stack i < p.total_frames
  pub unreferenced : (i : ℕ) → i < p.stack_top → p.ref_counts (p.frame_stack i) ≡ 0
  pub distinct :
      (i j : ℕ) → i < p.stack_top → j < p.stack_top → p.frame_stack i ≡ p.frame_stack j → i ≡ j

-- A frame index and its address determine one another.
pub phys_to_index-index_to_phys :
    (p : Pmm) (idx : ℕ)
    → p.phy_ram_size ≤ 2 ^ 43
    → p.phy_ram_end ≡ phy_ram_base + p.phy_ram_size
    → idx < p.phy_ram_size / page_size
    → phys_to_index p (index_to_phys idx) ≡ idx
unfolding phys_to_index index_to_phys
phys_to_index-index_to_phys p idx hs he h = ground arith

-- What `pmm_alloc_frame` does on a non-empty stack: it hands out a page-aligned address of memory
-- of a frame that had no reference and was on the stack, gives that frame one reference, takes it
-- off the stack, and leaves every other frame's count alone.
pub record Allocated (p : Pmm) (addr : ℕ) (q : Pmm) : Type 0 where
  pub aligned : addr % page_size ≡ 0
  pub in_ram : (phy_ram_base ≤ addr) × (addr < p.phy_ram_end)
  pub was_free : p.ref_counts (phys_to_index p addr) ≡ 0
  pub now_held : q.ref_counts (phys_to_index p addr) ≡ 1
  pub off_stack : (i : ℕ) → i < q.stack_top → q.frame_stack i ≢ phys_to_index p addr
  pub others : (k : ℕ) → k ≢ phys_to_index p addr → q.ref_counts k ≡ p.ref_counts k

-- The state after a frame is popped.
abbrev pub popped : Pmm → Pmm
popped p = record p {
  stack_top = p.stack_top - 1;
  used_frames = (p.used_frames + 1) % 2 ^ 32;
  ref_counts = update p.ref_counts (p.frame_stack (p.stack_top - 1)) 1;
}

pub alloc-pop :
    (p : Pmm)
    → p.stack_top ≢ 0
    → pmm_alloc_frame p ≡ (index_to_phys (p.frame_stack (p.stack_top - 1)), popped p)
unfolding pmm_alloc_frame
alloc-pop p h = ground arith

pub alloc_empty : (p : Pmm) → p.stack_top ≡ 0 → pmm_alloc_frame p ≡ (0, p)
unfolding pmm_alloc_frame
alloc_empty p h = ground arith

module _ {p : Pmm} (v : IsValid p) where
  pub top_index :
      p.stack_top ≢ 0
      → phys_to_index p (index_to_phys (p.frame_stack (p.stack_top - 1)))
        ≡ p.frame_stack (p.stack_top - 1)
  top_index h =
      phys_to_index-index_to_phys p (p.frame_stack (p.stack_top - 1)) v.small v.ram_end
        (omega (arith, v.in_range (p.stack_top - 1) (omega arith), v.frames))

  pub popped-IsValid : p.stack_top ≢ 0 → IsValid (popped p)
  popped-IsValid h = record {
    small = v.small;
    ram_end = v.ram_end;
    frames = v.frames;
    capacity = v.capacity;
    counts = omega (arith, v.counts, v.frames, v.small);
    in_range = λ i hi. v.in_range i (omega arith);
    unreferenced = λ i hi. ground (
      arith,
      v.unreferenced i (omega arith),
      v.distinct i (p.stack_top - 1) (omega arith) (omega arith),
    );
    distinct = λ i j hi hj. v.distinct i j (omega arith) (omega arith);
  }

  popped-Allocated :
      p.stack_top ≢ 0 → Allocated p (index_to_phys (p.frame_stack (p.stack_top - 1))) (popped p)
  unfolding index_to_phys
  popped-Allocated h =
      let idx = p.frame_stack (p.stack_top - 1) in
      let bound : idx < p.total_frames = v.in_range (p.stack_top - 1) (omega arith) in
      record {
        aligned = omega arith;
        in_ram = (
          omega (arith, bound, v.frames, v.small),
          omega (arith, bound, v.frames, v.small, v.ram_end),
        );
        was_free = rw (top_index h) (v.unreferenced (p.stack_top - 1) (omega arith));
        now_held = rw (top_index h) (ground arith);
        off_stack = λ i hi. rw (top_index h) (λ e.
            absurd (omega (arith, v.distinct i (p.stack_top - 1) (omega arith) (omega arith) e)));
        others = λ k. rw (top_index h) (λ ne. ground arith);
      }

  -- With a valid allocator and a frame left, pmm_alloc_frame returns a page-aligned address of
  -- memory, of a frame that had no reference and now has one, that is off the stack, and whose
  -- count is the only one that changes.
  pub alloc-Allocated : p.stack_top ≢ 0 → Allocated p (pmm_alloc_frame p).0 (pmm_alloc_frame p).1
  alloc-Allocated h = rw (alloc-pop p h) (popped-Allocated h)

  -- pmm_alloc_frame keeps the invariant of the allocator (distinct, in-range, unreferenced
  -- entries; used and free frames add up), also when no frame is left.
  pub alloc-IsValid : IsValid (pmm_alloc_frame p).1
  alloc-IsValid = elim (Bool-cases (p.stack_top == 0)) [
    | inl e ↦ rw (alloc_empty p (ground arith)) v
    | inr e ↦ rw (alloc-pop p (ground arith)) (popped-IsValid (ground arith))
  ]
