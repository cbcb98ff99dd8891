-- ===== src/Vma.antt =====
-- The address spaces of kernel/mm/vma.c: the sorted list of memory areas of a process, and the
-- page table entries that unmapping clears. The list `vma_list` is a list of its nodes' contents.
-- The walk of the page tables is a map from page numbers to entries, 0 where there is none. Whether
-- `kmalloc` has room is an argument. `mm` and `new_vma` are not NULL, as at every call.
mod Order
mod Find
mod Unmap
mod Clear
mod Gap
mod Backing
mod Stack
mod Tests
use valerioedx.Base.{
  ℕ, zero, suc, ◌+◌, ◌-◌, ◌*◌, ◌/◌, ◌%◌, ◌^◌, Bool, true, false, ◌&&◌, ◌||◌, not, Option, none,
  some, List, [], ◌∷◌, ◌++◌, ltb, leb, ◌==◌, if◌then◌else◌, update, ℤ, pos, negsuc,
}
use valerioedx.Pmm.{Pmm, page_size, pmm_free_frame, pmm_alloc_frame}

pub record Vma : Type 0 where
  pub vm_start : ℕ
  pub vm_end : ℕ
  pub vm_flags : ℕ
  pub vm_type : ℕ
  pub vm_file : ℕ
  pub vm_pgoff : ℕ

-- `mm_struct_t`, and the entries of its page table by page number.
pub record Mm : Type 0 where
  pub page_table : ℕ
  pub vma_list : List Vma
  pub heap_start : ℕ
  pub heap_end : ℕ
  pub stack_start : ℕ
  pub mmap_base : ℕ
  pub ptes : ℕ → ℕ

abbrev pub user_space_end : ℕ
user_space_end = 0x4000000000

abbrev pub user_stack_top : ℕ
user_stack_top = 0x3FFFFF0000

abbrev pub user_stack_size : ℕ
user_stack_size = 8 * 1024 * 1024

abbrev pub user_heap_start : ℕ
user_heap_start = 0x10000000

abbrev pub user_mmap_base : ℕ
user_mmap_base = 0x2000000000

-- VMA_READ | VMA_WRITE | VMA_GROWSDN
abbrev pub stack_flags : ℕ
stack_flags = 1 + 2 + 64

abbrev pub vma_anonymous : ℕ
vma_anonymous = 0

abbrev pub vma_file : ℕ
vma_file = 1

abbrev pub vma_device : ℕ
vma_device = 2

-- `room` says whether `kmalloc` returns memory.
pub vma_create : (room : Bool) → ℕ → ℕ → ℕ → ℕ → Option Vma
vma_create room start end flags type =
    if leb end start || ltb user_space_end end
    then none
    else (if room
        then some (record {
          vm_start = start;
          vm_end = end;
          vm_flags = flags;
          vm_type = type;
          vm_file = 0;
          vm_pgoff = 0;
        })
        else none)

-- The test of the first loop of `vma_insert`.
abbrev pub disjoint : Vma → Vma → Bool
disjoint new v = leb new.vm_end v.vm_start || leb v.vm_end new.vm_start

pub overlaps : Vma → List Vma → Bool
overlaps new [] = false
overlaps new (v ∷ vs) = if not (disjoint new v) then true else overlaps new vs

-- The walk from `prev` to the first node that does not start below the new one.
pub insert_behind : Vma → List Vma → List Vma
insert_behind new [] = new ∷ []
insert_behind new (v ∷ vs) =
    if ltb v.vm_start new.vm_start then v ∷ insert_behind new vs else new ∷ v ∷ vs

pub insert_ordered : Vma → List Vma → List Vma
unfolding insert_behind
insert_ordered new [] = new ∷ []
insert_ordered new (v ∷ vs) =
    if ltb new.vm_start v.vm_start then new ∷ v ∷ vs else v ∷ insert_behind new vs

pub vma_insert : Vma → List Vma → ℤ × List Vma
unfolding insert_ordered overlaps
vma_insert new vs = if overlaps new vs then (negsuc 0, vs) else (pos 0, insert_ordered new vs)

abbrev pub holds : ℕ → Vma → Bool
holds addr v = leb v.vm_start addr && ltb addr v.vm_end

pub vma_find : ℕ → List Vma → Option Vma
vma_find addr [] = none
vma_find addr (v ∷ vs) = if holds addr v then some v else vma_find addr vs

-- What FREE_PAGES works on: the page table entries and the frame allocator.
pub record Pages : Type 0 where
  pub ptes : ℕ → ℕ
  pub frames : Pmm

-- One round of FREE_PAGES. Bit 0 of an entry is PT_VALID, bits 12 to 47 hold the frame's address.
pub free_page : ℕ → ℕ → Pages → Pages
free_page type addr g =
    let pte = g.ptes (addr / page_size) in
    if pte % 2 == 1
    then record g {
      ptes = update g.ptes (addr / page_size) 0;
      frames =
          if type == vma_device
          then g.frames
          else pmm_free_frame ((pte % 2 ^ 48) / page_size * page_size) g.frames;
    }
    else g

free_rounds : ℕ → ℕ → ℕ → Pages → Pages
unfolding free_page
free_rounds zero type addr g = g
free_rounds (suc rounds) type addr g =
    free_rounds rounds type (addr + page_size) (free_page type addr g)

-- FREE_PAGES(s, e): one round for each page from `s` on that starts below `e`.
pub free_pages : ℕ → ℕ → ℕ → Pages → Pages
unfolding free_rounds
free_pages type s e g = free_rounds ((e - s + page_size - 1) / page_size) type s g

-- The body of the loop of `vma_unmap` at one area: what the area is replaced by, `none` where the
-- split finds no memory.
pub unmap_vma : (Vma → Bool) → ℕ → ℕ → Vma → Pages → Option (List Vma) × Pages
unfolding vma_create
unmap_vma room start end v g =
    if leb v.vm_end start || leb end v.vm_start
    then (some (v ∷ []), g)
    else if leb start v.vm_start && leb v.vm_end end
    then (some [], free_pages v.vm_type v.vm_start v.vm_end g)
    else if leb start v.vm_start && ltb end v.vm_end
    then (some (record v { vm_start = end } ∷ []), free_pages v.vm_type v.vm_start end g)
    else if ltb v.vm_start start && leb v.vm_end end
    then (some (record v { vm_end = start } ∷ []), free_pages v.vm_type start v.vm_end g)
    else elim (vma_create (room v) end v.vm_end v.vm_flags v.vm_type) [
      | none ↦ (none, g)
      | some new ↦ (some (record v { vm_end = start } ∷ new ∷ []), free_pages v.vm_type start end g)
    ]

pub unmap_list : (Vma → Bool) → ℕ → ℕ → List Vma → Pages → ℤ × List Vma × Pages
unmap_list room start end [] g = (pos 0, [], g)
unmap_list room start end (v ∷ vs) g =
    let (pieces, g') = unmap_vma room start end v g in
    let (code, vs', g'') = unmap_list room start end vs g' in
    elim pieces [ none ↦ (negsuc 0, v ∷ vs, g') | some ps ↦ (code, ps ++ vs', g'') ]

pub vma_unmap : (Vma → Bool) → ℕ → ℕ → List Vma → Pages → ℤ × List Vma × Pages
unfolding unmap_list
vma_unmap room start end vs g =
    if leb end start then (negsuc 0, vs, g) else unmap_list room start end vs g

-- The search for free space: the first address from `addr` on at which `len` bytes fit.
pub find_gap : ℕ → ℕ → List Vma → ℕ
find_gap len addr [] = addr
find_gap len addr (v ∷ vs) =
    let rest = find_gap len (if ltb addr v.vm_end then v.vm_end else addr) vs in
    if leb ((addr + len) % 2 ^ 64) v.vm_start then addr else rest

abbrev pub page_align : ℕ → ℕ
page_align len = ((len + page_size - 1) % 2 ^ 64) / page_size * page_size

-- The part that `vma_allocate` and `vma_allocate_file` share, up to the new area: the address, and
-- whether there is space.
pub place : Mm → ℕ → ℕ → Option ℕ
unfolding find_gap
place mm addr len =
    if addr == 0
    then (let a = find_gap len mm.mmap_base mm.vma_list in
        if ltb user_space_end ((a + len) % 2 ^ 64) then none else some a)
    else some addr

-- `vma_create` at a place, the fields of a file mapping, and `vma_insert`.
pub map_area : Bool → Mm → ℕ → ℕ → ℕ → ℕ → ℕ → ℕ → ℕ × Mm
unfolding vma_create vma_insert
map_area room mm addr len flags type file offset =
    elim (vma_create room addr ((addr + len) % 2 ^ 64) flags type) [
      | none ↦ (0, mm)
      | some new ↦
          let (code, vs) =
            vma_insert (record new { vm_file = file; vm_pgoff = offset }) mm.vma_list in
          elim code [ pos n ↦ (addr, record mm { vma_list = vs }) | negsuc n ↦ (0, mm) ]
    ]

-- The body that `vma_allocate` and `vma_allocate_file` share.
pub allocate_area : Bool → Mm → ℕ → ℕ → ℕ → ℕ → ℕ → ℕ → ℕ × Mm
unfolding place map_area
allocate_area room mm addr length flags type file offset =
    if length == 0 then (0, mm) else elim (place mm addr (page_align length)) [
      | none ↦ (0, mm)
      | some a ↦ map_area room mm a (page_align length) flags type file offset
    ]

pub vma_allocate : Bool → Mm → ℕ → ℕ → ℕ → ℕ × Mm
unfolding allocate_area
vma_allocate room mm addr length flags = allocate_area room mm addr length flags vma_anonymous 0 0

pub vma_allocate_file : Bool → Mm → ℕ → ℕ → ℕ → ℕ → ℕ → ℕ × Mm
unfolding allocate_area
vma_allocate_file room mm addr length flags file offset =
    allocate_area room mm addr length flags vma_file file offset

-- Where a fault at `addr` reads the file of the area that holds it.
pub file_position : Vma → ℕ → ℕ
file_position v addr = v.vm_pgoff + (addr / page_size * page_size - v.vm_start)

-- Bit 6 of the flags is VMA_GROWSDN.
abbrev pub grows_down : Vma → Bool
grows_down v = (v.vm_flags / 64) % 2 == 1

-- The first area that grows down gets a new start; the code is -1 when there is none or the address
-- lies too low.
pub expand_first : ℕ → List Vma → ℤ × List Vma
expand_first new_start [] = (negsuc 0, [])
expand_first new_start (v ∷ vs) =
    let (code, vs') = expand_first new_start vs in
    if grows_down v
    then (if ltb new_start (user_stack_top - user_stack_size * 2)
        then (negsuc 0, v ∷ vs)
        else (pos 0, record v { vm_start = new_start } ∷ vs))
    else (code, v ∷ vs')

pub vma_expand_stack : ℕ → List Vma → ℤ × List Vma
unfolding expand_first
vma_expand_stack addr vs = expand_first (addr / page_size * page_size) vs

-- The frame allocator, the new address space if there was memory for it. `mm_room` and `vma_room`
-- say whether the two `kmalloc` calls return memory.
pub mm_create : Bool → Bool → Pmm → Option Mm × Pmm
unfolding vma_create vma_insert
mm_create mm_room vma_room p =
    if mm_room
    then (let (pt_phys, q) = pmm_alloc_frame p in
        if pt_phys == 0 then (none, q) else (
          some (record {
            page_table = pt_phys;
            vma_list =
                elim (vma_create vma_room (user_stack_top - user_stack_size) user_stack_top
                  stack_flags vma_anonymous) [ none ↦ [] | some stack ↦ (vma_insert stack []).1 ];
            heap_start = user_heap_start;
            heap_end = user_heap_start;
            stack_start = user_stack_top;
            mmap_base = user_mmap_base;
            ptes = λ page. 0;
          }),
          q,
        ))
    else (none, p)
