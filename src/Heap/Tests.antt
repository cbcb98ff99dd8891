-- ===== src/Heap/Tests.antt =====
-- The theorems on pages at a heap of six pages.
use valerioedx.Base.{ℕ, ◌≡◌, refl, true, ◌||◌, ◌==◌, if◌then◌else◌, arith}
use valerioedx.Heap.{
  free_page, large_page, Heap, find_run, page_idx_to_virt, alloc_pages_backend, is_free,
}

-- Pages 0 and 2 are taken.
abbrev six_pages : Heap
six_pages = record {
  start_addr = 0x10000;
  total_pages = 6;
  metadata = λ a.
      if (a == 0) || (a == 2)
      then record { kind = large_page; count = 1 }
      else record { kind = free_page; count = 0 };
}

six_pages_blank : (a : ℕ) → is_free (six_pages.metadata a) ≡ true → (six_pages.metadata a).count ≡ 0
six_pages_blank a h = ground (arith, h)

third_page : (alloc_pages_backend 2 large_page six_pages).0 ≡ 0x13000
unfolding alloc_pages_backend find_run page_idx_to_virt
third_page = refl
