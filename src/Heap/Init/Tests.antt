-- ===== src/Heap/Init/Tests.antt =====
-- The heap of 8 MiB that the kernel starts with on AArch64.
use valerioedx.Base.{ℕ, ◌*◌, ◌≡◌, refl, [], false, arith}
use valerioedx.Heap.{free_page}
use valerioedx.Heap.Slabs.{Slabs}
use valerioedx.Heap.Init.{round_start, meta_pages, heap_init}
use valerioedx.Heap.Init.Start.{Initial, heap_init-Initial}

abbrev static_data : Slabs
static_data = record {
  heap = record {
    start_addr = 0;
    total_pages = 0;
    metadata = λ n. record { kind = free_page; count = 0 };
  };
  slabs_partial = λ i. [];
  slabs_full = λ i. [];
  slabs_free = λ i. [];
  cache = λ s. 0;
  free_list = λ s. [];
  in_use = λ s. 0;
  magic = λ s. false;
}

abbrev heap_start : ℕ
heap_start = 0xFFFFFF8050000000

eight_mib_end : (heap_init heap_start (8 * 1024 * 1024) (0, static_data)).0 ≡ 0xFFFFFF8050800000
unfolding heap_init round_start meta_pages
eight_mib_end = refl

init_example :
    let (heap_end, k) = heap_init heap_start (8 * 1024 * 1024) (0, static_data) in
    Initial heap_start (8 * 1024 * 1024) heap_end k
init_example =
    heap_init-Initial heap_start (8 * 1024 * 1024) 0 static_data (λ i l. (refl, refl, refl))
      (omega arith) (omega arith) (omega arith) (omega arith)
