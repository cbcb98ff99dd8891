-- ===== src/Malloc/Allocate.antt =====
-- What malloc returns.
use valerioedx.Base.{ℕ, ◌-◌, ◌≢◌, true, List, Option, none, some}
use valerioedx.Malloc.{header, Block, request_length}
use valerioedx.Malloc.Live.{ApartFrom, IsApart, Added}

-- What place makes of a list.
record Placed (size : ℕ) (bs : List Block) (r : ℕ × List Block) : Type 0 where
  added : Added r.0 size bs r.1
  apart : IsApart r.1
  apart_from : (c : Block) → ApartFrom c bs → ApartFrom c r.1
  other : (c : Block) → ApartFrom c bs → r.0 ≢ c.addr

abbrev PlacedIf : ℕ → List Block → Option (ℕ × List Block) → Type 0
PlacedIf size bs none = Unit {0}
PlacedIf size bs (some r) = Placed size bs r

-- The block that mmap gives.
abbrev fresh_block : (ℕ → ℕ) → ℕ → Block
fresh_block mmap s = record {
  addr = mmap (request_length s);
  size = request_length s - header;
  free = true;
}
