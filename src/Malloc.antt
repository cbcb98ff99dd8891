-- ===== src/Malloc.antt =====
-- The allocator of the user library: malloc and free of user/src/stdlib.c. The list of blocks from
-- `global_base` on is a list; a block is known by the address of its header. `mmap` is an argument: what
-- it returns for a length.
mod Live
mod Allocate
mod Release
mod Tests
use valerioedx.Base.{
  ℕ, zero, suc, ◌+◌, ◌-◌, ◌*◌, ◌/◌, ◌%◌, ◌^◌, Bool, true, false, ◌&&◌, not, ltb, leb, ◌==◌,
  if◌then◌else◌, List, [], ◌∷◌, ◌++◌, Option, none, some,
}

-- BLOCK_HEADER_SIZE, ALIGNMENT and PAGE_SIZE.
abbrev pub header : ℕ
header = 32

abbrev pub alignment : ℕ
alignment = 16

abbrev pub page : ℕ
page = 4096

-- `block_meta_t`, with its address.
pub record Block : Type 0 where
  pub addr : ℕ
  pub size : ℕ
  pub free : Bool

-- ALIGN(size), in 64 bits.
pub align : ℕ → ℕ
align size = (size + (alignment - 1)) % 2 ^ 64 / alignment * alignment

-- `(void *)-1`.
abbrev pub map_failed : ℕ
map_failed = 2 ^ 64 - 1

-- The length that `request_space` asks for.
pub request_length : ℕ → ℕ
request_length size = (size + header + page - 1) / page * page

pub request_space : (mmap : ℕ → ℕ) → ℕ → Option Block
request_space mmap size =
    let at = mmap (request_length size) in
    if at == map_failed
    then none
    else some (record { addr = at; size = request_length size - header; free = true })

-- `split_block` and the mark `free = 0` on the first part.
pub split_block : Block → ℕ → List Block
split_block b size =
    if leb (size + header + alignment) b.size
    then record b { size = size; free = false }
      ∷ record { addr = b.addr + header + size; size = b.size - size - header; free = true }
      ∷ []
    else record b { free = false } ∷ []

-- `find_free_block`, and what malloc does with the block found. Nothing where none is found.
pub place : ℕ → List Block → Option (ℕ × List Block)
place size [] = none
place size (b ∷ bs) =
    if b.free && leb size b.size
    then some (b.addr, split_block b size ++ bs)
    else elim (place size bs) [ none ↦ none | some r ↦ some (r.0, b ∷ r.1) ]

-- A block of its own is put at the end of the list, and then split.
pub extend : (mmap : ℕ → ℕ) → ℕ → List Block → ℕ × List Block
extend mmap size bs = elim (request_space mmap size) [
  | none ↦ (0, bs)
  | some b ↦ (b.addr + header, bs ++ split_block b size)
]

-- The pointer is behind the header, or 0 for NULL.
pub malloc : (mmap : ℕ → ℕ) → ℕ → List Block → ℕ × List Block
malloc mmap size bs = if size == 0 then (0, bs) else elim (place (align size) bs) [
  | none ↦ extend mmap (align size) bs
  | some r ↦ (r.0 + header, r.1)
]

-- The two parts of `free` that join the block with a free neighbour in memory.
pub join_next : Block → List Block → List Block
join_next b [] = b ∷ []
join_next b (c ∷ cs) =
    if c.free && (b.addr + header + b.size == c.addr)
    then record b { size = b.size + (header + c.size) } ∷ cs
    else b ∷ c ∷ cs

pub join_prev : Block → List Block → List Block
join_prev a [] = a ∷ []
join_prev a (b ∷ bs) =
    if a.free && (a.addr + header + a.size == b.addr)
    then record a { size = a.size + (header + b.size) } ∷ bs
    else a ∷ b ∷ bs

-- The walk to the block at `p`, with the block in front of it at hand. Nothing where there is none.
pub free_behind : Block → ℕ → List Block → Option (List Block)
free_behind prev p [] = none
free_behind prev p (b ∷ bs) =
    if b.addr == p
    then some (join_prev prev (join_next (record b { free = true }) bs))
    else elim (free_behind b p bs) [ none ↦ none | some r ↦ some (prev ∷ r) ]

pub free_block : ℕ → List Block → Option (List Block)
free_block p [] = none
free_block p (b ∷ bs) =
    if b.addr == p then some (join_next (record b { free = true }) bs) else free_behind b p bs

-- `free` of a pointer that is NULL or that malloc has returned. Nothing for any other pointer: there the
-- source reads what lies in front of it as a header.
pub free : ℕ → List Block → Option (List Block)
free ptr bs = if ptr == 0 then some bs else free_block (ptr - header) bs
