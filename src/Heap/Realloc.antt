-- ===== src/Heap/Realloc.antt =====
-- kcalloc and krealloc of kernel/mm/heap.c, with the bytes of the objects in use; what the heap itself
-- keeps in a page, the header and the links between free objects, is in the state of the slabs. krealloc holds
-- the lock in each of its calls, not between them; here nothing else runs between them.
mod Grow
mod Zeroed
mod Tests
use valerioedx.Base.{ℕ, ◌+◌, ◌*◌, ◌%◌, ◌^◌, Option, none, some, leb, ◌==◌, if◌then◌else◌}
use valerioedx.Strings.{Memory, memset, memcpy}
use valerioedx.Heap.{
  PageType, free_page, slab_page, large_page, PageInfo, Heap, page, virt_to_page_idx,
}
use valerioedx.Heap.Slabs.{Slabs, slab_size, page_of, kmalloc, kfree}

pub kcalloc : (num size : ℕ) → Slabs × Memory → ℕ × Slabs × Memory
kcalloc num size (k, m) =
    let total = num * size % 2 ^ 64 in
    let (ptr, k') = kmalloc total k in
    if ptr == 0 then (ptr, k', m) else (ptr, k', memset ptr 0 total m)

-- How many bytes the block at a pointer has.
pub old_size : (ptr : ℕ) → Slabs → ℕ
old_size ptr k = elim (virt_to_page_idx ptr k.heap) [
  | none ↦ 0
  | some idx ↦ elim ((k.heap.metadata idx).kind) [
    | slab_page ↦ slab_size (k.cache (page_of ptr))
    | large_page ↦ (k.heap.metadata idx).count * page
    | free_page ↦ 0
  ]
]

pub krealloc : (ptr new_size : ℕ) → Slabs × Memory → ℕ × Slabs × Memory
krealloc ptr new_size (k, m) =
    let (new_ptr, k') = kmalloc new_size k in
    if ptr == 0
    then (new_ptr, k', m)
    else if new_size == 0
    then (0, kfree ptr k, m)
    else if leb new_size (old_size ptr k)
    then (ptr, k, m)
    else if new_ptr == 0
    then (new_ptr, k', m)
    else (new_ptr, kfree ptr k', memcpy new_ptr ptr (old_size ptr k) m)
