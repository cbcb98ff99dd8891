-- ===== src/Pmm.antt =====
-- The physical frame allocator of kernel/mm/pmm.c: a stack of free frame indices and a reference
-- count for each frame. The two arrays, which the code lays out in the memory that it manages,
-- are functions on indices. Each operation runs under `pmm_lock`, so it is one step.
mod Valid
mod Release
mod Init
mod Region
mod Sharing
mod Tests
use valerioedx.Base.{
  ℕ, zero, suc, ◌+◌, ◌-◌, ◌*◌, ◌/◌, ◌%◌, ◌^◌, Bool, ◌&&◌, ◌||◌, not, ltb, leb, ◌==◌, if◌then◌else◌,
  update,
}

abbrev pub phy_ram_base : ℕ
phy_ram_base = 0x40000000

abbrev pub page_size : ℕ
page_size = 4096

-- `(u32)-1`
abbrev pub no_index : ℕ
no_index = 2 ^ 32 - 1

-- The static variables. `ref_counts` is NULL until `pmm_init` has run: `ref_counts_set`.
pub record Pmm : Type 0 where
  pub frame_stack : ℕ → ℕ
  pub stack_top : ℕ
  pub stack_capacity : ℕ
  pub used_frames : ℕ
  pub phy_ram_size : ℕ
  pub phy_ram_end : ℕ
  pub total_frames : ℕ
  pub ref_counts : ℕ → ℕ
  pub ref_counts_set : Bool

unfoldable pub phys_to_index : Pmm → ℕ → ℕ
phys_to_index p addr =
    if ltb addr phy_ram_base || leb p.phy_ram_end addr
    then no_index
    else ((addr - phy_ram_base) / page_size) % 2 ^ 32

unfoldable pub index_to_phys : ℕ → ℕ
index_to_phys idx = (phy_ram_base + (idx * page_size) % 2 ^ 64) % 2 ^ 64

unfoldable pub pmm_inc_ref : Pmm → ℕ → Pmm
pmm_inc_ref p phys =
    let idx = phys_to_index p phys in
    if not (idx == no_index) && p.ref_counts_set && ltb (p.ref_counts idx) 255
    then record p { ref_counts = update p.ref_counts idx (p.ref_counts idx + 1) }
    else p

-- One round of the loop of `pmm_init`.
pub init_frame : ℕ → ℕ → Pmm → Pmm
init_frame reserved_end i p =
    let addr = index_to_phys i in
    if leb phy_ram_base addr && ltb addr reserved_end
    then record p {
      used_frames = (p.used_frames + 1) % 2 ^ 32;
      ref_counts = update (update p.ref_counts i 0) i 1;
    }
    else if ltb p.stack_top p.stack_capacity
    then record p {
      ref_counts = update p.ref_counts i 0;
      frame_stack = update p.frame_stack p.stack_top i;
      stack_top = (p.stack_top + 1) % 2 ^ 32;
    }
    else record p { ref_counts = update p.ref_counts i 0 }

-- `for (u32 i = 0; i < total_frames; i++)`, with the rounds left and the index
pub init_loop : ℕ → ℕ → ℕ → Pmm → Pmm
init_loop zero reserved_end i p = p
init_loop (suc rounds) reserved_end i p =
    init_loop rounds reserved_end (i + 1) (init_frame reserved_end i p)

-- The end of the kernel, rounded up to a page: where the frame stack is put.
pub stack_start : ℕ → ℕ
stack_start kernel_end = ((kernel_end + page_size - 1) % 2 ^ 64) / page_size * page_size

-- Four bytes of stack and one of count for each frame, behind the kernel.
pub reserved_end : ℕ → ℕ → ℕ
unfolding stack_start
reserved_end kernel_end frames = (stack_start kernel_end + frames * 4 + frames) % 2 ^ 64

pub pmm_init : ℕ → ℕ → Pmm → Pmm
unfolding init_loop init_frame reserved_end
pmm_init kernel_end ram_size p =
    let frames = (ram_size / page_size) % 2 ^ 32 in
    init_loop frames (reserved_end kernel_end frames) 0 (record p {
      phy_ram_size = ram_size;
      phy_ram_end = (phy_ram_base + ram_size) % 2 ^ 64;
      total_frames = frames;
      ref_counts_set = not (((stack_start kernel_end + frames * 4) % 2 ^ 64) == 0);
      stack_capacity = frames;
      stack_top = 0;
    })

-- The inner loop of `pmm_mark_used_region`: the first entry that holds `target` is overwritten by
-- the top one. The first argument is the number of entries from `i` on.
pub remove_target : ℕ → ℕ → ℕ → Pmm → Pmm
remove_target zero target i p = p
remove_target (suc rest) target i p =
    if p.frame_stack i == target
    then record p {
      stack_top = p.stack_top - 1;
      frame_stack = update p.frame_stack i (p.frame_stack (p.stack_top - 1));
      used_frames = (p.used_frames + 1) % 2 ^ 32;
    }
    else remove_target rest target (i + 1) p

-- The outer loop, with the number of targets left.
pub mark_loop : ℕ → ℕ → Pmm → Pmm
unfolding remove_target
mark_loop zero target p = p
mark_loop (suc rest) target p = mark_loop rest (target + 1) (remove_target p.stack_top target 0 p)

pub pmm_mark_used_region : ℕ → ℕ → Pmm → Pmm
unfolding mark_loop
pmm_mark_used_region base size p =
    let start_idx = phys_to_index p base in
    let end_idx = phys_to_index p ((base + size + page_size - 1) % 2 ^ 64) in
    if start_idx == no_index then p else mark_loop (end_idx - start_idx) start_idx p

-- The physical address, 0 when no frame is left.
unfoldable pub pmm_alloc_frame : Pmm → ℕ × Pmm
pmm_alloc_frame p =
    if p.stack_top == 0
    then (0, p)
    else let idx = p.frame_stack (p.stack_top - 1) in
      (
        index_to_phys idx,
        record p {
          stack_top = p.stack_top - 1;
          used_frames = (p.used_frames + 1) % 2 ^ 32;
          ref_counts = update p.ref_counts idx 1;
        },
      )

-- `frame_stack[stack_top++] = idx; used_frames--;`
pub push_frame : ℕ → Pmm → Pmm
push_frame idx p = record p {
  frame_stack = update p.frame_stack p.stack_top idx;
  stack_top = (p.stack_top + 1) % 2 ^ 32;
  used_frames = (p.used_frames + 2 ^ 32 - 1) % 2 ^ 32;
}

unfoldable pub pmm_free_frame : ℕ → Pmm → Pmm
unfolding push_frame
pmm_free_frame addr p =
    let idx = phys_to_index p addr in
    if (idx == no_index) || leb p.total_frames idx
    then p
    else if ltb 0 (p.ref_counts idx)
    then (let p' = record p { ref_counts = update p.ref_counts idx (p.ref_counts idx - 1) } in
        if p.ref_counts idx - 1 == 0 then push_frame idx p' else p')
    else (if leb p.stack_capacity p.stack_top then p else push_frame idx p)
