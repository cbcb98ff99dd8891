-- ===== src/Heap/Init/Loops.antt =====
-- The loops of heap_init of kernel/mm/heap.c.
use valerioedx.Base.{
  ℕ, zero, suc, ◌+◌, ◌≡◌, refl, ◌&&◌, List, [], ltb, leb, if◌then◌else◌, update, arith, ◌∙◌,
}
use valerioedx.Heap.{large_page, PageInfo}
use valerioedx.Heap.Slabs.{Slabs}
use valerioedx.Heap.Init.{reserve_pages, clear_caches}

pub reserve_pages_lem :
    (r i n : ℕ) (md : ℕ → PageInfo)
    → reserve_pages r i md n
      ≡ (if leb i n && ltb n (i + r) then record { kind = large_page; count = 1 } else md n)
unfolding reserve_pages
reserve_pages_lem zero i n md = ground arith
reserve_pages_lem (suc r) i n md = reserve_pages_lem r (i + 1) n _ ∙ ground arith

-- The lists of a state from `i` on for `r` caches are empty, the others as they were.
abbrev pub emptied : (r i : ℕ) → (ℕ → List ℕ) → ℕ → List ℕ
emptied r i f j = if leb i j && ltb j (i + r) then [] else f j

emptied_step :
    (r i j : ℕ) (f : ℕ → List ℕ) → emptied r (i + 1) (update f i []) j ≡ emptied (suc r) i f j
emptied_step r i j f = ground arith

pub clear_caches_lem :
    (r i : ℕ) (k : Slabs)
    → let k' = clear_caches r i k in
      (k'.heap ≡ k.heap)
      × ((j : ℕ) → k'.slabs_partial j ≡ emptied r i k.slabs_partial j)
      × ((j : ℕ) → k'.slabs_full j ≡ emptied r i k.slabs_full j)
      × ((j : ℕ) → k'.slabs_free j ≡ emptied r i k.slabs_free j)
unfolding clear_caches
clear_caches_lem zero i k = (refl, λ j. ground arith, λ j. ground arith, λ j. ground arith)
clear_caches_lem (suc r) i k =
    let (heap, part, full, free) = clear_caches_lem r (i + 1) _ in
    (
      heap,
      λ j. part j ∙ emptied_step r i j k.slabs_partial,
      λ j. full j ∙ emptied_step r i j k.slabs_full,
      λ j. free j ∙ emptied_step r i j k.slabs_free,
    )
