-- ===== src/Heap/Init.antt =====
-- heap_init of kernel/mm/heap.c: the pages for `page_metadata` are taken, all others are free.
mod Loops
mod Start
mod Tests
use valerioedx.Base.{
  ℕ, zero, suc, ◌+◌, ◌-◌, ◌*◌, ◌/◌, ◌%◌, ◌^◌, ◌≤◌, ◌<◌, ◌≡◌, refl, ◌≢◌, ◌⊎◌, inl, inr, Bool, true,
  false, not, ◌&&◌, ◌||◌, List, [], ◌∷◌, ltb, leb, ◌==◌, if◌then◌else◌, update, member, Distinct,
  arith, ap, sym, ◌∙◌, Bool-cases, subst,
}
use valerioedx.Heap.{PageType, free_page, slab_page, large_page, PageInfo, Heap, page}
use valerioedx.Heap.Slabs.{Slabs, num_cache_sizes}

-- `aligned_start`.
pub round_start : ℕ → ℕ
round_start start = (start + page - 1) % 2 ^ 64 / page * page

-- A page_info_t has 4 bytes.
pub meta_pages : ℕ → ℕ
meta_pages total = (total * 4 + page - 1) / page

pub reserve_pages : (rounds i : ℕ) → (ℕ → PageInfo) → ℕ → PageInfo
reserve_pages zero i md = md
reserve_pages (suc rounds) i md =
    reserve_pages rounds (i + 1) (update md i (record { kind = large_page; count = 1 }))

pub clear_caches : (rounds i : ℕ) → Slabs → Slabs
clear_caches zero i k = k
clear_caches (suc rounds) i k = clear_caches rounds (i + 1) (record k {
  slabs_full = update k.slabs_full i [];
  slabs_partial = update k.slabs_partial i [];
  slabs_free = update k.slabs_free i [];
})

-- `heap_end_addr` and the state. The other operations compute heap_end_addr from the state.
pub heap_init : (start size : ℕ) → ℕ × Slabs → ℕ × Slabs
heap_init start size (heap_end, k) =
    let aligned_start = round_start start in
    let diff = (aligned_start + 2 ^ 64 - start) % 2 ^ 64 in
    let total = (size - diff) / page % 2 ^ 32 in
    let heap_end' = (aligned_start + total * page % 2 ^ 32) % 2 ^ 64 in
    let counted = record k { heap = record k.heap { total_pages = total } } in
    let placed = record k {
      heap = record k.heap { start_addr = aligned_start; total_pages = total };
    } in
    let zeros : ℕ → PageInfo =
      λ n. if ltb n total then record { kind = free_page; count = 0 } else k.heap.metadata n in
    let ready = record k {
      heap = record {
        start_addr = aligned_start;
        total_pages = total;
        metadata = reserve_pages (meta_pages total) 0 zeros;
      };
    } in
    if ltb size diff
    then (heap_end, k)
    else if total == 0
    then (heap_end, counted)
    else if leb total (meta_pages total)
    then (heap_end', placed)
    else (heap_end', clear_caches num_cache_sizes 0 ready)
