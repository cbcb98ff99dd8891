-- ===== src/Heap/Init/Start.antt =====
-- The state that heap_init of kernel/mm/heap.c makes.
use valerioedx.Base.{
  ℕ, ◌+◌, ◌-◌, ◌*◌, ◌/◌, ◌%◌, ◌^◌, ◌≤◌, ◌<◌, ◌≡◌, refl, inl, inr, false, List, [], ltb, leb, ◌==◌,
  if◌then◌else◌, member, Distinct, arith, ap, sym, ◌∙◌, Bool-cases, subst,
}
use valerioedx.Heap.{free_page, large_page, PageInfo, Heap, page}
use valerioedx.Heap.Slabs.{Slabs, num_cache_sizes}
use valerioedx.Heap.Init.{round_start, meta_pages, reserve_pages, clear_caches, heap_init}
use valerioedx.Heap.Init.Loops.{emptied, reserve_pages_lem, clear_caches_lem}
use valerioedx.Heap.Slabs.Valid.{IsValid, in_list, in_use_at}

-- There are eight caches.
abbrev pub EightCaches : Slabs → Type 0
EightCaches k =
    (i : ℕ) → 8 ≤ i → (k.slabs_partial i ≡ []) × (k.slabs_full i ≡ []) × (k.slabs_free i ≡ [])

emptied_all : (f : ℕ → List ℕ) → ((i : ℕ) → 8 ≤ i → f i ≡ []) → (j : ℕ) → emptied 8 0 f j ≡ []
emptied_all f h j = elim (Bool-cases (ltb j 8)) [
  | inl e ↦ ground (arith, e)
  | inr e ↦ ground (arith, e, h j (ground (arith, e)))
]

empty-IsValid :
    (k : Slabs)
    → k.heap.start_addr % 4096 ≡ 0
    → 0 < k.heap.start_addr
    → ((i : ℕ) → k.slabs_partial i ≡ [])
    → ((i : ℕ) → k.slabs_full i ≡ [])
    → ((i : ℕ) → k.slabs_free i ≡ [])
    → IsValid k × ((x : ℕ) → in_use_at k x ≡ false)
unfolding member in_use_at in_list
empty-IsValid k al pos part full free = (
  record {
    aligned = al;
    not_null = pos;
    none_free = free;
    partial_once = λ i. subst Distinct (sym (part i)) tt;
    full_once = λ i. subst Distinct (sym (full i)) tt;
    partial = λ i s h. cc (ap (member s) (part i), h);
    full = λ i s h. cc (ap (member s) (full i), h);
  },
  λ x. rw (part, full) refl,
)

start_bounds :
    (start : ℕ)
    → start + 4095 < 2 ^ 64
    → (round_start start % 4096 ≡ 0)
      × (start ≤ round_start start)
      × (round_start start < start + 4096)
unfolding round_start
start_bounds start h = (omega arith, omega (arith, h), omega (arith, h))

-- The numbers that heap_init computes, of the first page boundary `a`.
page_numbers :
    (start size a : ℕ)
    → start ≤ a
    → a < start + 4096
    → start + size + 4096 ≤ 2 ^ 64
    → size < 2 ^ 32
    → 12288 ≤ size
    → let diff = (a + 2 ^ 64 - start) % 2 ^ 64 in
      let total = (size - diff) / page % 2 ^ 32 in
      (diff ≡ a - start)
      × (2 ≤ total)
      × ((a + total * page % 2 ^ 32) % 2 ^ 64 ≡ a + total * page)
      × (a + total * page ≤ start + size)
      × (start + size < a + total * page + 4096)
page_numbers start size a lo hi fits small large =
    let d : (a + 2 ^ 64 - start) % 2 ^ 64 ≡ a - start = omega (arith, lo, hi, fits) in
    rw d (
      refl,
      omega (arith, lo, hi, small, large),
      omega (arith, lo, hi, fits, small, large),
      omega (arith, lo, hi, small, large),
      omega (arith, lo, hi, small, large),
    )

pages_left :
    (total : ℕ) → 2 ≤ total → (meta_pages total < total) × (total * 4 ≤ meta_pages total * 4096)
unfolding meta_pages
pages_left total h = (omega (arith, h), omega (arith, h))

-- The state of heap_init where the size allows for two pages or more.
started : (a total : ℕ) → Slabs → Slabs
started a total k = clear_caches num_cache_sizes 0 (record k {
  heap = record {
    start_addr = a;
    total_pages = total;
    metadata =
        reserve_pages (meta_pages total) 0
          (λ n. if ltb n total then record { kind = free_page; count = 0 } else k.heap.metadata n);
  };
})

started_equation :
    (start size heap_end total e : ℕ) (k : Slabs)
    → let a = round_start start in
      let diff = (a + 2 ^ 64 - start) % 2 ^ 64 in
      ltb size diff ≡ false
      → (size - diff) / page % 2 ^ 32 ≡ total
      → (total == 0) ≡ false
      → leb total (meta_pages total) ≡ false
      → (a + total * page % 2 ^ 32) % 2 ^ 64 ≡ e
      → heap_init start size (heap_end, k) ≡ (e, started a total k)
unfolding heap_init started
started_equation start size heap_end total e k d t z m q = rw (heap_init, d, t, z, m, q) refl

-- All pages are free but the first ones, which hold the four bytes of each page's metadata.
abbrev pub PagesReserved : (ℕ → PageInfo) → (total : ℕ) → Type 0
PagesReserved md total =
    (total * 4 ≤ meta_pages total * 4096)
    × (meta_pages total < total)
    × ((n : ℕ)
        → n < total
        → md n ≡ (
            if ltb n (meta_pages total)
            then record { kind = large_page; count = 1 }
            else record { kind = free_page; count = 0 }))

-- A valid heap between two addresses, less than a page from each, with nothing in use.
abbrev pub Initial : (start size heap_end : ℕ) → Slabs → Type 0
Initial start size heap_end k =
    IsValid k
    × ((x : ℕ) → in_use_at k x ≡ false)
    × (start ≤ k.heap.start_addr)
    × (k.heap.start_addr < start + 4096)
    × (heap_end ≡ k.heap.start_addr + k.heap.total_pages * page)
    × (heap_end ≤ start + size)
    × (start + size < heap_end + 4096)
    × PagesReserved k.heap.metadata k.heap.total_pages

started-Initial :
    (start size a total e : ℕ) (k : Slabs)
    → EightCaches k
    → a % 4096 ≡ 0
    → 0 < start
    → start ≤ a
    → a < start + 4096
    → e ≡ a + total * page
    → e ≤ start + size
    → start + size < e + 4096
    → 2 ≤ total
    → Initial start size e (started a total k)
unfolding started
started-Initial start size a total e k caches al pos lo hi at below above two =
    let k' = started a total k in
    let zeros : ℕ → PageInfo =
      λ n. if ltb n total then record { kind = free_page; count = 0 } else k.heap.metadata n in
    let h : Heap = record {
      start_addr = a;
      total_pages = total;
      metadata = reserve_pages (meta_pages total) 0 zeros;
    } in
    let (heap, part, full, free) = clear_caches_lem 8 0 (record k { heap = h }) in
    let start_is : k'.heap.start_addr ≡ a = ap (λ z. z.start_addr) heap in
    let total_is : k'.heap.total_pages ≡ total = ap (λ z. z.total_pages) heap in
    let (meta, bytes) = pages_left total two in
    let pages : PagesReserved k'.heap.metadata k'.heap.total_pages =
      subst (PagesReserved k'.heap.metadata) (sym total_is) (
        bytes,
        meta,
        λ n l.
            ap (λ z. z.metadata n) heap
            ∙ reserve_pages_lem (meta_pages total) 0 n zeros
            ∙ ground (arith, l),
      ) in
    let (valid, unused) =
      empty-IsValid k' (ap (λ z. z % 4096) start_is ∙ al) (omega (arith, start_is, pos, lo))
        (λ j. part j ∙ emptied_all k.slabs_partial (λ i l. (caches i l).0) j)
        (λ j. full j ∙ emptied_all k.slabs_full (λ i l. (caches i l).1) j)
        (λ j. free j ∙ emptied_all k.slabs_free (λ i l. (caches i l).2) j) in
    (
      valid,
      unused,
      omega (arith, start_is, lo),
      omega (arith, start_is, hi),
      omega (arith, start_is, total_is, at),
      below,
      above,
      pages,
    )

-- From static data, with eight caches, heap_init of 12288 bytes or more, below 2^32 and not to the end of
-- the addresses, makes a valid heap of all whole pages of the range, with no object in use, where
-- the first pages, enough for four bytes for each page, are taken and all others are free;
-- heap_end_addr is the end of the last page.
pub heap_init-Initial :
    (start size heap_end : ℕ) (k : Slabs)
    → EightCaches k
    → 0 < start
    → start + size + 4096 ≤ 2 ^ 64
    → size < 2 ^ 32
    → 12288 ≤ size
    → let (heap_end', k') = heap_init start size (heap_end, k) in Initial start size heap_end' k'
heap_init-Initial start size heap_end k caches pos fits small large =
    let a = round_start start in
    let (al, lo, hi) = start_bounds start (omega (arith, fits, large)) in
    let (d, two, e, below, above) = page_numbers start size a lo hi fits small large in
    let total = (size - (a + 2 ^ 64 - start) % 2 ^ 64) / page % 2 ^ 32 in
    let eq =
      started_equation start size heap_end total (a + total * page) k (ground (arith, d, hi, large))
        refl (ground (arith, two)) (ground (arith, (pages_left total two).0)) e in
    subst (λ r. Initial start size r.0 r.1) (sym eq)
      (started-Initial start size a total (a + total * page) k caches al pos lo hi refl below above
        two)
