-- ===== src/Heap/Realloc/Tests.antt =====
-- kcalloc and krealloc at a heap with two objects of 1024 bytes in use.
use valerioedx.Base.{arith}
use valerioedx.Heap.Slabs.Tests.{two_used, two_used-IsValid, first_used}
use valerioedx.Heap.Realloc.{krealloc, kcalloc}
use valerioedx.Heap.Realloc.Grow.{Resized, krealloc-Resized}
use valerioedx.Heap.Realloc.Zeroed.{Zeroed, kcalloc-Zeroed}

krealloc_example :
    let (q, k', m') = krealloc 0x10028 2000 (two_used, λ a. a) in
    Resized 0x10028 2000 two_used (λ a. a) q k' m'
krealloc_example =
    krealloc-Resized 0x10028 2000 two_used (λ a. a) two_used-IsValid (omega arith, omega arith)
      first_used (omega arith) (omega arith)

kcalloc_example :
    let (q, k', m') = kcalloc 10 100 (two_used, λ a. a) in Zeroed 1000 two_used (λ a. a) q k' m'
kcalloc_example =
    kcalloc-Zeroed 10 100 1000 two_used (λ a. a) two_used-IsValid (omega arith) (omega arith)
      (omega arith)
