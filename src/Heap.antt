-- ===== src/Heap.antt =====
-- The pages of the kernel heap: kernel/mm/heap.c. `page_metadata` is a function from the index of a page; the
-- heap begins at an address other than NULL. The lock is held throughout each operation.
mod Runs
mod Pages
pub mod Slabs
mod Init
mod Realloc
mod Tests
use valerioedx.Base.{
  ℕ, zero, suc, ◌+◌, ◌-◌, ◌*◌, ◌/◌, ◌%◌, ◌^◌, Bool, true, false, ◌&&◌, ◌||◌, Option, none, some,
  ltb, leb, ◌==◌, if◌then◌else◌, update,
}

pub data PageType : Type 0 where
  free_page slab_page large_page : PageType

pub record PageInfo : Type 0 where
  pub kind : PageType
  pub count : ℕ

pub record Heap : Type 0 where
  pub start_addr : ℕ
  pub total_pages : ℕ
  pub metadata : ℕ → PageInfo

abbrev pub page : ℕ
page = 4096

abbrev pub is_free_kind : PageType → Bool
is_free_kind free_page = true
is_free_kind slab_page = false
is_free_kind large_page = false

abbrev pub is_free : PageInfo → Bool
is_free i = is_free_kind i.kind

-- `heap_end_addr`, as heap_init computes it: the product has 32 bits, the sum 64.
pub heap_end : Heap → ℕ
heap_end h = (h.start_addr + h.total_pages * page % 2 ^ 32) % 2 ^ 64

-- Nothing stands for -1.
pub virt_to_page_idx : ℕ → Heap → Option ℕ
virt_to_page_idx addr h =
    if ltb addr h.start_addr || leb (heap_end h) addr
    then none
    else some ((addr - h.start_addr) / page)

pub page_idx_to_virt : ℕ → Heap → ℕ
page_idx_to_virt idx h = h.start_addr + idx * page

-- The search from page `i` on, with `rounds` pages left, of which the last `free_run` were free.
pub find_run : (rounds i free_run start num_pages : ℕ) → (ℕ → PageInfo) → Option ℕ
find_run zero i free_run start num_pages md = none
find_run (suc rounds) i free_run start num_pages md =
    let here = is_free (md i) in
    let start' = if here && (free_run == 0) then i else start in
    let run = if here then free_run + 1 else 0 in
    let rest = find_run rounds (i + 1) run start' num_pages md in
    if here && (run == num_pages) then some start' else rest

-- The `count` of a page has 16 bits.
pub mark_pages : (rounds j start num_pages : ℕ) → PageType → (ℕ → PageInfo) → ℕ → PageInfo
mark_pages zero j start num_pages kind md = md
mark_pages (suc rounds) j start num_pages kind md =
    let count = if j == 0 then num_pages % 2 ^ 16 else 0 in
    mark_pages rounds (j + 1) start num_pages kind
      (update md (start + j) (record { kind = kind; count = count }))

-- The address, 0 for NULL, and the heap behind the call.
pub alloc_pages_backend : (num_pages : ℕ) → PageType → Heap → ℕ × Heap
alloc_pages_backend num_pages kind h = elim (find_run h.total_pages 0 0 0 num_pages h.metadata) [
  | none ↦ (0, h)
  | some start ↦ (
    page_idx_to_virt start h,
    record h { metadata = mark_pages num_pages 0 start num_pages kind h.metadata },
  )
]

pub clear_pages : (rounds i idx total : ℕ) → (ℕ → PageInfo) → ℕ → PageInfo
clear_pages zero i idx total md = md
clear_pages (suc rounds) i idx total md = clear_pages rounds (i + 1) idx total (
    if ltb (idx + i) total
    then update md (idx + i) (record { kind = free_page; count = 0 })
    else md)

-- Without a page at `ptr`, or where its count is 0, nothing is done: no round of the loop.
pub free_pages_backend : (ptr : ℕ) → Heap → Heap
free_pages_backend ptr h = elim (virt_to_page_idx ptr h) [
  | none ↦ h
  | some idx ↦ record h {
    metadata = clear_pages (h.metadata idx).count 0 idx h.total_pages h.metadata;
  }
]
