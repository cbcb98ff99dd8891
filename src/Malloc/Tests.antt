-- ===== src/Malloc/Tests.antt =====
-- The theorems on the allocator at a list of three blocks.
use valerioedx.Base.{◌+◌, ◌≡◌, refl, inl, true, false, List, [], ◌∷◌, some, arith}
use valerioedx.Malloc.{
  header, map_failed, Block, malloc, free, align, place, split_block, free_block, join_next,
}
use valerioedx.Malloc.Live.{live, IsApart}
use valerioedx.Malloc.Release.{Removed, free_lem}

-- Two blocks of one page, the second free, and a block of another page.
abbrev three_blocks : List Block
three_blocks =
    record { addr = 0x10000; size = 64; free = false }
    ∷ record { addr = 0x10060; size = 3968; free = true }
    ∷ record { addr = 0x40000; size = 4064; free = false }
    ∷ []

abbrev three_apart : IsApart three_blocks
three_apart = ((inl (omega arith), (inl (omega arith), tt)), ((inl (omega arith), tt), (tt, tt)))

third_live : live three_blocks 0x10000 ≡ some 64
unfolding live
third_live = refl

malloc_free_example :
    (new : List Block) × (free (0x10000 + header) three_blocks ≡ some new)
    × Removed 0x10000 three_blocks new
malloc_free_example = free_lem three_blocks 0x10000 64 three_apart third_live

malloc_splits : (malloc (λ length. map_failed) 100 three_blocks).0 ≡ 0x10080
unfolding malloc place align split_block
malloc_splits = refl

free_joins :
    free 0x10020 three_blocks
    ≡ some (
        record { addr = 0x10000; size = 4064; free = true }
        ∷ record { addr = 0x40000; size = 4064; free = false }
        ∷ [])
unfolding free free_block join_next
free_joins = refl
