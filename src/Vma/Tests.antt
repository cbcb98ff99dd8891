-- ===== src/Vma/Tests.antt =====
-- The theorems on address spaces at a small one: a mapping of a file, one of memory, the stack.
use valerioedx.Base.{
  ℕ, ◌-◌, ◌≡◌, ◌⊎◌, ◌↔◌, ◌%◌, refl, true, none, some, List, [], ◌∷◌, if◌then◌else◌, ◌==◌, pos,
  negsuc, arith,
}
use valerioedx.Pmm.{Pmm}
use valerioedx.Vma.{
  Vma, Mm, Pages, holds, vma_find, vma_insert, unmap_list, unmap_vma, vma_unmap, vma_allocate,
  vma_allocate_file, user_mmap_base, user_stack_top, user_stack_size, stack_flags, vma_file,
  vma_anonymous, vma_create,
}
use valerioedx.Vma.Order.{Ordered, insert_lem}
use valerioedx.Vma.Find.{In, find-eq-some_iff}
use valerioedx.Vma.Unmap.{kind_at, in_range, unmap-Ordered, kind_at-unmap}
use valerioedx.Vma.Clear.{unmap-Cleared}
use valerioedx.Vma.Gap.{bounded, Sound, allocate-Sound}

abbrev file_area : Vma
file_area = bounded 0x10000 0x14000 1 vma_file 7 0x2000

abbrev memory : Vma
memory = bounded 0x20000 0x22000 3 vma_anonymous 0 0

abbrev stack : Vma
stack = bounded (user_stack_top - user_stack_size) user_stack_top stack_flags vma_anonymous 0 0

abbrev areas : List Vma
areas = file_area ∷ memory ∷ stack ∷ []

abbrev frames : Pmm
frames = record {
  frame_stack = λ i. 0;
  stack_top = 0;
  stack_capacity = 4;
  used_frames = 4;
  phy_ram_size = 0x4000;
  phy_ram_end = 0x40004000;
  total_frames = 4;
  ref_counts = λ i. 1;
  ref_counts_set = true;
}

-- Page 0x11 is mapped to the third frame.
abbrev pages : Pages
pages = record { ptes = λ k. if k == 0x11 then 0x40002003 else 0; frames = frames }

abbrev mm : Mm
mm = record {
  page_table = 0x40000000;
  vma_list = areas;
  heap_start = 0x10000000;
  heap_end = 0x10000000;
  stack_start = user_stack_top;
  mmap_base = user_mmap_base;
  ptes = λ k. 0;
}

areas-Ordered : Ordered 0 areas
areas-Ordered = omega arith

-- The middle two pages of the file mapping.
unmap_runs : vma_find 0x11000 (vma_unmap (λ v. true) 0x11000 0x13000 areas pages).1 ≡ none
unfolding vma_unmap vma_find unmap_list unmap_vma vma_create
unmap_runs = refl

between : Vma
between = bounded 0x18000 0x19000 3 vma_anonymous 0 0

insert_example :
    let (code, vs') = vma_insert between areas in
    ((code ≡ pos 0)
      × Ordered 0 vs'
      × ((addr : ℕ)
          → vma_find addr vs' ≡ (if holds addr between then some between else vma_find addr areas)))
    ⊎ ((code ≡ negsuc 0)
        × (vs' ≡ areas)
        × (addr : ℕ) × (holds addr between ≡ true)
        × (w : Vma) × (vma_find addr areas ≡ some w))
unfolding between
insert_example = insert_lem between areas (omega arith) (omega arith) areas-Ordered

find_example :
    (vma_find 0x21000 areas ≡ some memory) ↔ (In memory areas × (holds 0x21000 memory ≡ true))
find_example = find-eq-some_iff 0x21000 areas memory areas-Ordered

unmap_code : (vma_unmap (λ v. true) 0x11000 0x13000 areas pages).0 ≡ pos 0
unfolding vma_unmap unmap_list unmap_vma vma_create
unmap_code = refl

found : vma_find 0x11000 areas ≡ some file_area
unfolding vma_find
found = refl

unmap_keeps_example : Ordered 0 (vma_unmap (λ v. true) 0x11000 0x13000 areas pages).1
unmap_keeps_example = unmap-Ordered (λ v. true) 0x11000 0x13000 areas pages areas-Ordered

kind_example :
    kind_at 0x13008 (vma_unmap (λ v. true) 0x11000 0x13000 areas pages).1
    ≡ (if in_range 0x11000 0x13000 0x13008 then none else kind_at 0x13008 areas)
kind_example = kind_at-unmap (λ v. true) 0x11000 0x13000 areas pages 0x13008 unmap_code

clear_example : (vma_unmap (λ v. true) 0x11000 0x13000 areas pages).2.ptes 0x11 % 2 ≡ 0
clear_example =
    unmap-Cleared (λ v. true) 0x11000 0x13000 areas pages 0x11 file_area (omega arith) refl
      (omega arith) unmap_code found refl

allocate_any_example :
    Sound 3 vma_anonymous 0 0 mm (vma_allocate true mm 0x21000 4096 3)
    × Sound 3 vma_file 7 0 mm (vma_allocate_file true mm 0x21000 4096 3 7 0)
allocate_any_example = allocate-Sound true mm 0x21000 4096 3 7 0 areas-Ordered

-- A fault one page below the stack.
abbrev fault : ℕ
fault = user_stack_top - user_stack_size - 8
