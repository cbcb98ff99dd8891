-- ===== src/Malloc/Live.antt =====
-- What holds of the list of blocks: the blocks in use, and that no two blocks overlap in memory.
use valerioedx.Base.{
  ℕ, ◌+◌, ◌≤◌, ◌≡◌, refl, ◌⊎◌, ◌&&◌, not, ◌==◌, if◌then◌else◌, List, [], ◌∷◌, Option, none, some,
  arith,
}
use valerioedx.Malloc.{header, Block}

-- The size of the block in use whose header is at an address.
unfoldable pub live : List Block → ℕ → Option ℕ
live [] a = none
live (b ∷ bs) a = if not b.free && (b.addr == a) then some b.size else live bs a

-- One block, its header included, ends in front of the other.
abbrev pub Apart : Block → Block → Type 0
Apart b c = (b.addr + header + b.size ≤ c.addr) ⊎ (c.addr + header + c.size ≤ b.addr)

abbrev pub ApartFrom : Block → List Block → Type 0
ApartFrom b [] = Unit {0}
ApartFrom b (c ∷ cs) = Apart b c × ApartFrom b cs

abbrev pub IsApart : List Block → Type 0
IsApart [] = Unit {0}
IsApart (b ∷ bs) = ApartFrom b bs × IsApart bs

-- A block of at least `size` bytes at `p`, where none was in use, was put into use, and no other has
-- changed.
pub record Added (p size : ℕ) (old new : List Block) : Type 0 where
  pub unused : live old p ≡ none
  pub granted : ℕ
  pub enough : size ≤ granted
  pub only : (a : ℕ) → live new a ≡ (if p == a then some granted else live old a)

pub live-ApartFrom : (b : Block) (bs : List Block) → ApartFrom b bs → live bs b.addr ≡ none
unfolding live
live-ApartFrom b [] h = refl
live-ApartFrom b (c ∷ cs) h = ground (arith, live-ApartFrom b cs h.1)
