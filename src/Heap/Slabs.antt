-- ===== src/Heap/Slabs.antt =====
-- The slabs of the kernel heap, kmalloc and kfree: kernel/mm/heap.c. The header of a slab is what functions
-- give at the address of its page; a list that is linked through the objects or the headers is the list of
-- their addresses. `cache` gives the place of a slab's cache in `caches`, and `magic` whether a page has the
-- number of slabs. Nothing clears a header when its page is given back. The test of kfree for a
-- slab without a cache is left out: slab_init_page gives each slab one.
pub mod Objects
pub mod Valid
pub mod Moves
pub mod Alloc
pub mod Take
pub mod Apart
pub mod Fresh
pub mod Ready
pub mod Given
pub mod Kmalloc
pub mod Put
pub mod Back
pub mod Last
pub mod Kfree
pub mod Tests
use valerioedx.Base.{
  ℕ, zero, suc, ◌+◌, ◌-◌, ◌*◌, ◌/◌, ◌%◌, ◌^◌, Bool, true, false, not, ◌&&◌, ◌||◌, Option, none,
  some, List, [], ◌∷◌, get_or, ltb, leb, ◌==◌, if◌then◌else◌, update, remove,
}
use valerioedx.Heap.{
  PageType, free_page, slab_page, large_page, PageInfo, Heap, page, virt_to_page_idx,
  alloc_pages_backend, free_pages_backend,
}

-- `slab_t` by the address of the page, and `kmem_cache_t` by its place in `caches`.
pub record Slabs : Type 0 where
  pub heap : Heap
  pub slabs_partial : ℕ → List ℕ
  pub slabs_full : ℕ → List ℕ
  pub slabs_free : ℕ → List ℕ
  pub cache : ℕ → ℕ
  pub free_list : ℕ → List ℕ
  pub in_use : ℕ → ℕ
  pub magic : ℕ → Bool

-- `slab_sizes`, and their number.
abbrev pub slab_size : ℕ → ℕ
slab_size i = get_or (16 ∷ 32 ∷ 64 ∷ 128 ∷ 256 ∷ 512 ∷ 1024 ∷ 2048 ∷ []) i 0

abbrev pub num_cache_sizes : ℕ
num_cache_sizes = 8

-- `sizeof(slab_t)`.
abbrev pub slab_header : ℕ
slab_header = 40

pub align_up : (n align : ℕ) → ℕ
align_up n align = (n + align - 1) / align * align

abbrev pub is_nil : List ℕ → Bool
is_nil [] = true
is_nil (x ∷ xs) = false

-- The list that the loop of slab_init_page links.
pub slab_objects : (count curr obj_size : ℕ) → List ℕ
slab_objects zero curr obj_size = []
slab_objects (suc count) curr obj_size = curr ∷ slab_objects count (curr + obj_size) obj_size

-- All objects of the slab at `base`.
abbrev pub objects_of : (base obj_size : ℕ) → List ℕ
objects_of base obj_size =
    let start = align_up (base + slab_header) 8 in
    slab_objects ((page - (start - base)) / obj_size) start obj_size

pub slab_init_page : (slab c : ℕ) → Slabs → Slabs
slab_init_page slab c k = record k {
  magic = update k.magic slab true;
  cache = update k.cache slab c;
  in_use = update k.in_use slab 0;
  free_list = update k.free_list slab (objects_of slab (slab_size c));
}

-- The first slab of `slabs_partial`, which is put there where there is none; nothing where no page can be had.
pub ready_slab : (c : ℕ) → Slabs → Option Slabs
ready_slab c k = elim (k.slabs_partial c) [
  | slab ∷ slabs ↦ some k
  | [] ↦ elim (k.slabs_free c) [
    | slab ∷ slabs ↦ some (record k {
      slabs_free = update k.slabs_free c slabs;
      slabs_partial = update k.slabs_partial c (slab ∷ []);
    })
    | [] ↦
        let (slab, heap') = alloc_pages_backend 1 slab_page k.heap in
        let k' = slab_init_page slab c (record k { heap = heap' }) in
        if slab == 0
        then none
        else some (record k' { slabs_partial = update k'.slabs_partial c (slab ∷ []) })
  ]
]

-- The first object of a slab. A partial slab has one: an empty list would be read at NULL.
pub take_object : (c : ℕ) → Slabs → ℕ × Slabs
take_object c k = elim (k.slabs_partial c) [
  | [] ↦ (0, k)
  | slab ∷ slabs ↦ elim (k.free_list slab) [
    | [] ↦ (0, k)
    | obj ∷ objs ↦
        let k' = record k {
          free_list = update k.free_list slab objs;
          in_use = update k.in_use slab (k.in_use slab + 1);
        } in
        (
          obj,
          if is_nil objs
              then record k' {
                slabs_partial = update k.slabs_partial c slabs;
                slabs_full = update k.slabs_full c (slab ∷ k.slabs_full c);
              }
              else k',
        )
  ]
]

pub cache_alloc : (c : ℕ) → Slabs → ℕ × Slabs
cache_alloc c k = elim (ready_slab c k) [ none ↦ (0, k) | some k' ↦ take_object c k' ]

-- `ptr & PAGE_MASK`.
abbrev pub page_of : ℕ → ℕ
page_of ptr = ptr / page * page

-- The slab with an object more on its list.
pub put_object : (slab ptr : ℕ) → Slabs → Slabs
put_object slab ptr k = record k {
  free_list = update k.free_list slab (ptr ∷ k.free_list slab);
  in_use = update k.in_use slab ((k.in_use slab + (2 ^ 32 - 1)) % 2 ^ 32);
}

pub cache_free : (c ptr : ℕ) → Slabs → Slabs
cache_free c ptr k =
    let slab = page_of ptr in
    let was_full = is_nil (k.free_list slab) in
    let k' = put_object slab ptr k in
    let heap' = free_pages_backend slab k.heap in
    if not (k.magic slab)
    then k
    else if k'.in_use slab == 0
    then (if was_full
        then record k' {
          heap = heap';
          slabs_full = update k.slabs_full c (remove slab (k.slabs_full c));
        }
        else record k' {
          heap = heap';
          slabs_partial = update k.slabs_partial c (remove slab (k.slabs_partial c));
        })
    else if was_full
    then record k' {
      slabs_full = update k.slabs_full c (remove slab (k.slabs_full c));
      slabs_partial = update k.slabs_partial c (slab ∷ k.slabs_partial c);
    }
    else k'

-- The first cache whose objects are large enough, with `rounds` of them left.
pub find_cache : (rounds c size : ℕ) → Option ℕ
find_cache zero c size = none
find_cache (suc rounds) c size =
    let rest = find_cache rounds (c + 1) size in if leb size (slab_size c) then some c else rest

pub kmalloc : (size : ℕ) → Slabs → ℕ × Slabs
kmalloc size k =
    let (large, heap') =
      alloc_pages_backend ((size + page - 1) % 2 ^ 64 / page) large_page k.heap in
    if size == 0
    then (0, k)
    else if leb size 2048
    then elim (find_cache num_cache_sizes 0 size) [ none ↦ (0, k) | some c ↦ cache_alloc c k ]
    else (large, record k { heap = heap' })

-- The index of a pointer outside the heap is not below `total_pages`.
pub kfree : (ptr : ℕ) → Slabs → Slabs
kfree ptr k = if ptr == 0 then k else elim (virt_to_page_idx ptr k.heap) [
  | none ↦ k
  | some idx ↦ elim ((k.heap.metadata idx).kind) [
    | slab_page ↦ cache_free (k.cache (page_of ptr)) ptr k
    | large_page ↦ record k { heap = free_pages_backend ptr k.heap }
    | free_page ↦ k
  ]
]
