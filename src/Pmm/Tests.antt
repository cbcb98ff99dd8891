-- ===== src/Pmm/Tests.antt =====
-- The theorems on the frame allocator at a machine of five frames.
use valerioedx.Base.{ℕ, ◌<◌, ◌≡◌, ◌≢◌, refl, true, false, arith}
use valerioedx.Pmm.{
  Pmm, no_index, pmm_init, pmm_alloc_frame, pmm_free_frame, pmm_inc_ref, pmm_mark_used_region,
  phys_to_index, index_to_phys,
}
use valerioedx.Pmm.Valid.{IsValid, Allocated, alloc-Allocated}
use valerioedx.Pmm.Release.{free-IsValid, inc-IsValid}
use valerioedx.Pmm.Init.{init-IsValid}
use valerioedx.Pmm.Region.{OnStack}

abbrev blank : Pmm
blank = record {
  frame_stack = λ i. 0;
  stack_top = 0;
  stack_capacity = 0;
  used_frames = 0;
  phy_ram_size = 0;
  phy_ram_end = 0;
  total_frames = 0;
  ref_counts = λ i. 0;
  ref_counts_set = false;
}

-- Five frames of memory: the kernel ends inside the first, and the tables fill the second.
abbrev booted : Pmm
booted = pmm_init 0x40000800 0x5000 blank

boots : ◌≡◌ {A = ℕ × ℕ × ℕ} (booted.stack_top, booted.used_frames, booted.total_frames) (3, 2, 5)
unfolding pmm_init index_to_phys
boots = refl

booted-IsValid : IsValid booted
booted-IsValid = (init-IsValid 0x40000800 0x5000 blank refl (omega arith)).0

last_entry : 2 < booted.stack_top
unfolding pmm_init index_to_phys
last_entry = omega arith

booted_top : booted.stack_top ≢ 0
unfolding pmm_init index_to_phys
booted_top = omega arith

alloc_example : Allocated booted (pmm_alloc_frame booted).0 (pmm_alloc_frame booted).1
alloc_example = alloc-Allocated booted-IsValid booted_top

-- The first frame, which the kernel holds.
held : booted.ref_counts (phys_to_index booted 0x40000000) ≡ 1
unfolding pmm_init index_to_phys phys_to_index
held = refl

index : phys_to_index booted 0x40000000 ≡ 0
unfolding pmm_init index_to_phys phys_to_index
index = refl

total : booted.total_frames ≡ 5
unfolding pmm_init index_to_phys
total = refl

free_example : IsValid (pmm_free_frame 0x40000000 booted)
free_example = free-IsValid 0x40000000 booted-IsValid (omega (arith, held))

inc_example : IsValid (pmm_inc_ref booted 0x40000000)
inc_example = inc-IsValid 0x40000000 booted-IsValid (omega (arith, held))

counts_set : booted.ref_counts_set ≡ true
unfolding pmm_init index_to_phys
counts_set = refl

marked_entry : OnStack (pmm_mark_used_region 0x40003000 0x1000 booted) 4
unfolding pmm_mark_used_region pmm_init index_to_phys phys_to_index
marked_entry = (1, omega arith, refl)

in_memory : phys_to_index booted 0x40003000 ≢ no_index
unfolding pmm_init index_to_phys phys_to_index
in_memory = omega arith

top_entry : OnStack booted (phys_to_index booted 0x40004000)
unfolding pmm_init index_to_phys phys_to_index
top_entry = (2, omega arith, refl)

room : booted.stack_top < booted.total_frames
unfolding pmm_init index_to_phys
room = omega arith
