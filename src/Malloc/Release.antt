-- ===== src/Malloc/Release.antt =====
-- What free does.
use valerioedx.Base.{
  ℕ, ◌+◌, ◌-◌, ◌≡◌, refl, ◌≢◌, inl, inr, true, false, ◌&&◌, ◌==◌, if◌then◌else◌, List, [], ◌∷◌,
  Option, none, some, arith, ap, Bool-cases, subst,
}
use valerioedx.Malloc.{header, Block, join_next, join_prev, free_behind, free_block, free}
use valerioedx.Malloc.Live.{live, ApartFrom, IsApart, live-ApartFrom}

-- The block at `p` was taken out of use, and no other has changed.
pub record Removed (p : ℕ) (old new : List Block) : Type 0 where
  pub only : (a : ℕ) → live new a ≡ (if p == a then none else live old a)
  pub apart : IsApart new

abbrev HeadFree : List Block → Type 0
HeadFree [] = Unit {0}
HeadFree (b ∷ bs) = b.free ≡ true

-- A list that has the same blocks in use, lies where the old one lay, and begins with a free block.
record Joined (old new : List Block) : Type 0 where
  same : (a : ℕ) → live new a ≡ live old a
  apart : IsApart new
  apart_from : (d : Block) → ApartFrom d old → ApartFrom d new

join_from :
    (b c : Block) (ds : List Block)
    → b.addr + header + b.size ≡ c.addr
    → ApartFrom b ds
    → ApartFrom c ds
    → ApartFrom (record b { size = b.size + (header + c.size) }) ds
join_from b c [] e h k = tt
join_from b c (d ∷ ds) e h k = (ground (arith, h.0, k.0), join_from b c ds e h.1 k.1)

two-Joined :
    (b c : Block) (cs : List Block)
    → b.free ≡ true
    → c.free ≡ true
    → b.addr + header + b.size ≡ c.addr
    → IsApart (b ∷ c ∷ cs)
    → Joined (b ∷ c ∷ cs) (record b { size = b.size + (header + c.size) } ∷ cs)
unfolding live
two-Joined b c cs f g e i = record {
  same = λ a. ground arith;
  apart = (join_from b c cs e i.0.1 i.1.0, i.1.1);
  apart_from = λ d h. (ground (arith, h.0, h.1.0), h.1.1);
}

same-Joined : (bs : List Block) → IsApart bs → Joined bs bs
same-Joined bs i = record { same = λ a. refl; apart = i; apart_from = λ d h. h }

join_next-Joined :
    (b : Block) (bs : List Block)
    → b.free ≡ true
    → IsApart (b ∷ bs)
    → Joined (b ∷ bs) (join_next b bs) × HeadFree (join_next b bs)
unfolding join_next
join_next-Joined b [] f i = (same-Joined (b ∷ []) i, f)
join_next-Joined b (c ∷ cs) f i =
    elim (Bool-cases (c.free && (b.addr + header + b.size == c.addr))) [
      | inl meet ↦ rw meet (two-Joined b c cs f (ground (arith, meet)) (ground (arith, meet)) i, f)
      | inr gap ↦ rw gap (same-Joined (b ∷ c ∷ cs) i, f)
    ]

join_prev-Joined :
    (a : Block) (bs : List Block)
    → HeadFree bs
    → IsApart (a ∷ bs)
    → Joined (a ∷ bs) (join_prev a bs)
unfolding join_prev
join_prev-Joined a [] f i = same-Joined (a ∷ []) i
join_prev-Joined a (b ∷ bs) f i =
    elim (Bool-cases (a.free && (a.addr + header + a.size == b.addr))) [
      | inl meet ↦ rw meet (two-Joined a b bs (ground (arith, meet)) f (ground (arith, meet)) i)
      | inr gap ↦ rw gap (same-Joined (a ∷ b ∷ bs) i)
    ]

-- What the walk of free makes of a list.
record Freed (p : ℕ) (old : List Block) (new : List Block) : Type 0 where
  removed : Removed p old new
  apart_from : (d : Block) → ApartFrom d old → ApartFrom d new

marked : (b : Block) (bs : List Block) → ApartFrom b bs → ApartFrom (record b { free = true }) bs
marked b [] h = tt
marked b (c ∷ cs) h = (h.0, marked b cs h.1)

first-Freed :
    (b : Block) (bs : List Block)
    → IsApart (b ∷ bs)
    → Freed b.addr (b ∷ bs) (join_next (record b { free = true }) bs)
unfolding live
first-Freed b bs i =
    let b' = record b { free = true } in
    let j = (join_next-Joined b' bs refl (marked b bs i.0, i.1)).0 in
    record {
      removed = record {
        only = λ a. ground (arith, j.same a, live-ApartFrom b bs i.0);
        apart = j.apart;
      };
      apart_from = λ d h. j.apart_from d h;
    }

live-ne : (c : Block) (bs : List Block) (p n : ℕ) → ApartFrom c bs → live bs p ≡ some n → c.addr ≢ p
live-ne c bs p n h e same = cc (live-ApartFrom c bs h, e, ap (live bs) same)

FreedIf : ℕ → List Block → Option (List Block) → Type 0
FreedIf p old o = (new : List Block) × (o ≡ some new) × Freed p old new

prev-Freed :
    (prev b : Block) (bs : List Block)
    → IsApart (prev ∷ b ∷ bs)
    → Freed b.addr (prev ∷ b ∷ bs) (join_prev prev (join_next (record b { free = true }) bs))
unfolding live
prev-Freed prev b bs i =
    let b' = record b { free = true } in
    let f = first-Freed b bs i.1 in
    let head = (join_next-Joined b' bs refl (marked b bs i.1.0, i.1.1)).1 in
    let j = join_prev-Joined prev (join_next b' bs) head (f.apart_from prev i.0, f.removed.apart) in
    record {
      removed = record {
        only = λ a. ground (arith, j.same a, f.removed.only a, i.0.0);
        apart = j.apart;
      };
      apart_from = λ d h. j.apart_from d (h.0, f.apart_from d h.1);
    }

on-Freed :
    (prev : Block) (p : ℕ) (bs r : List Block)
    → prev.addr ≢ p
    → IsApart (prev ∷ bs)
    → Freed p bs r
    → Freed p (prev ∷ bs) (prev ∷ r)
unfolding live
on-Freed prev p bs r ne i f = record {
  removed = record {
    only = λ a. ground (arith, f.removed.only a, ne);
    apart = (f.apart_from prev i.0, f.removed.apart);
  };
  apart_from = λ d h. (h.0, f.apart_from d h.1);
}

-- The block in front is passed, or joined.
behind-FreedIf :
    (prev : Block) (p n : ℕ) (bs : List Block)
    → IsApart (prev ∷ bs)
    → live bs p ≡ some n
    → FreedIf p (prev ∷ bs) (free_behind prev p bs)
unfolding free_behind live FreedIf
behind-FreedIf prev p n [] i e = cc
behind-FreedIf prev p n (b ∷ bs) i e = elim (Bool-cases (b.addr == p)) [
  | inl here ↦
      let same : b.addr ≡ p = ground (arith, here) in
      let new = join_prev prev (join_next (record b { free = true }) bs) in
      rw here (new, refl, subst (λ x. Freed x (prev ∷ b ∷ bs) new) same (prev-Freed prev b bs i))
  | inr on ↦
      let further : live bs p ≡ some n = ground (arith, on, e) in
      let (r, er, f) = behind-FreedIf b p n bs i.1 further in
      rw on (prev ∷ r, rw er refl, on-Freed prev p (b ∷ bs) r (live-ne prev (b ∷ bs) p n i.0 e) i f)
]

-- Where no two blocks overlap, free of a pointer to a block in use takes just that block out of use,
-- every other block in use is what it was, and still no two blocks overlap.
pub free_lem :
    (bs : List Block) (p n : ℕ)
    → IsApart bs
    → live bs p ≡ some n
    → (new : List Block) × (free (p + header) bs ≡ some new) × Removed p bs new
unfolding free free_block live FreedIf
free_lem [] p n i e = cc
free_lem (b ∷ bs) p n i e =
    let back : p + header - header ≡ p = omega arith in
    let ptr : (p + header == 0) ≡ false = ground arith in
    rw (ptr, back)
      (elim (Bool-cases (b.addr == p)) [
        | inl here ↦
            let same : b.addr ≡ p = ground (arith, here) in
            let new = join_next (record b { free = true }) bs in
            rw here
              (new, refl, subst (λ x. Removed x (b ∷ bs) new) same (first-Freed b bs i).removed)
        | inr on ↦
            let further : live bs p ≡ some n = ground (arith, on, e) in
            let (r, er, f) = behind-FreedIf b p n bs i further in rw on (r, er, f.removed)
      ])
