-- ===== src/Vma/Gap.antt =====
-- `vma_allocate` of kernel/mm/vma.c: where the search puts a new area.
use valerioedx.Base.{
  ℕ, ◌+◌, ◌-◌, ◌%◌, ◌^◌, ◌≤◌, ◌<◌, ◌≡◌, refl, ◌⊎◌, inl, inr, Bool, true, false, ◌||◌, some, List,
  [], ◌∷◌, leb, ltb, ◌==◌, if◌then◌else◌, arith, Bool-cases, Option-cases,
}
use valerioedx.Vma.{
  Vma, Mm, user_space_end, vma_anonymous, holds, overlaps, vma_find, vma_create, vma_insert,
  insert_ordered, find_gap, page_align, place, map_area, allocate_area, vma_file, vma_allocate,
  vma_allocate_file,
}
use valerioedx.Vma.Order.{Ordered, insert_ordered-Ordered, find-insert_ordered}
use valerioedx.Vma.Unmap.{end-le}

-- An ordered list from `lo` on has nothing below `lo`.
overlaps_above :
    (new : Vma) (lo : ℕ) (vs : List Vma) → Ordered lo vs → new.vm_end ≤ lo → overlaps new vs ≡ false
unfolding overlaps
overlaps_above new lo [] o h = refl
overlaps_above new lo (v ∷ vs) o h = ground (arith, overlaps_above new v.vm_end vs o.2)

find_gap-ge : (len addr : ℕ) (vs : List Vma) → addr ≤ find_gap len addr vs
unfolding find_gap
find_gap-ge len addr [] = omega arith
find_gap-ge len addr (v ∷ vs) =
    ground (arith, find_gap-ge len (if ltb addr v.vm_end then v.vm_end else addr) vs)

-- The place that the search finds shares no address with an area. The length must not wrap.
find_gap-free :
    (len addr lo : ℕ) (vs : List Vma) (new : Vma)
    → Ordered lo vs
    → len ≤ 2 ^ 63
    → addr ≤ 2 ^ 63 - 1
    → new.vm_start ≡ find_gap len addr vs
    → new.vm_end ≡ find_gap len addr vs + len
    → overlaps new vs ≡ false
unfolding find_gap overlaps
find_gap-free len addr lo [] new o hl ha s e = refl
find_gap-free len addr lo (v ∷ vs) new o hl ha s e =
    let next : ℕ = if ltb addr v.vm_end then v.vm_end else addr in
    elim (Bool-cases (leb ((addr + len) % 2 ^ 64) v.vm_start)) [
      | inl fits ↦
          let at : new.vm_start ≡ addr = rw fits at s in
          let to : new.vm_end ≡ addr + len = rw fits at e in
          ground (arith, overlaps_above new v.vm_end vs o.2)
      | inr more ↦
          let at : new.vm_start ≡ find_gap len next vs = rw more at s in
          let to : new.vm_end ≡ find_gap len next vs + len = rw more at e in
          ground (
            arith,
            find_gap-free len next v.vm_end vs new o.2 hl (ground (arith, end-le v.vm_end vs o.2))
                at to,
            find_gap-ge len next vs,
          )
    ]

-- An area by its fields.
abbrev pub bounded : ℕ → ℕ → ℕ → ℕ → ℕ → ℕ → Vma
bounded start end flags type file offset = record {
  vm_start = start;
  vm_end = end;
  vm_flags = flags;
  vm_type = type;
  vm_file = file;
  vm_pgoff = offset;
}

-- `mm'` is `mm` with one more area: the list is ordered, and a search finds the new area at its
-- addresses and what it found before elsewhere.
abbrev pub Added : Vma → Mm → Mm → Type 0
Added new mm mm' =
    Ordered 0 mm'.vma_list
    × ((x : ℕ)
        → vma_find x mm'.vma_list ≡ (if holds x new then some new else vma_find x mm.vma_list))

-- The address space with one more area, whose end is written out.
abbrev extended : Mm → ℕ → ℕ → ℕ → ℕ → ℕ → ℕ → Mm
extended mm start end flags type file offset = record mm {
  vma_list = insert_ordered (bounded start end flags type file offset) mm.vma_list;
}

-- `map_area` either changes nothing or adds an area that is not empty, ends inside the user space
-- and shares no address with another.
map_area_cases :
    (room : Bool) (mm : Mm) (addr len flags type file offset : ℕ)
    → let e = (addr + len) % 2 ^ 64 in
      (map_area room mm addr len flags type file offset ≡ (0, mm))
      ⊎ ((addr < e)
          × (e ≤ user_space_end)
          × (overlaps (bounded addr e flags type file offset) mm.vma_list ≡ false)
          × (map_area room mm addr len flags type file offset
              ≡ (addr, extended mm addr e flags type file offset)))
unfolding map_area vma_create vma_insert
map_area_cases room mm addr len flags type file offset =
    let e : ℕ = (addr + len) % 2 ^ 64 in
    let new = bounded addr e flags type file offset in
    elim (Bool-cases (leb e addr || ltb user_space_end e)) [
      | inl bad ↦ inl (ground arith)
      | inr good ↦ elim (Bool-cases room) [
        | inr full ↦ inl (ground arith)
        | inl space ↦ elim (Bool-cases (overlaps new mm.vma_list)) [
          | inl meet ↦ inl (ground arith)
          | inr free ↦ inr (ground arith, ground arith, free, ground arith)
        ]
      ]
    ]

extended-Added :
    (mm : Mm) (addr e flags type file offset : ℕ)
    → addr < e
    → e ≤ user_space_end
    → overlaps (bounded addr e flags type file offset) mm.vma_list ≡ false
    → Ordered 0 mm.vma_list
    → Added (bounded addr e flags type file offset) mm (extended mm addr e flags type file offset)
extended-Added mm addr e flags type file offset h inside free o =
    let new = bounded addr e flags type file offset in
    (
      insert_ordered-Ordered new h inside mm.vma_list 0 (omega arith) free o,
      λ x. find-insert_ordered new h inside x mm.vma_list free,
    )

allocate_lem :
    (mm : Mm) (length flags : ℕ)
    → 0 < length
    → length ≤ 2 ^ 62
    → let len = page_align length in
      let a = find_gap len mm.mmap_base mm.vma_list in
      a + len ≤ user_space_end
      → overlaps (bounded a (a + len) flags vma_anonymous 0 0) mm.vma_list ≡ false
      → vma_allocate true mm 0 length flags ≡ (a, extended mm a (a + len) flags vma_anonymous 0 0)
unfolding vma_allocate allocate_area place map_area vma_create vma_insert
allocate_lem mm length flags pos_len small fits free = ground arith

allocate_cases :
    (room : Bool) (mm : Mm) (addr length flags type file offset : ℕ)
    → (allocate_area room mm addr length flags type file offset ≡ (0, mm))
      ⊎ ((a e : ℕ) × (a < e)
          × (e ≤ user_space_end)
          × (overlaps (bounded a e flags type file offset) mm.vma_list ≡ false)
          × (allocate_area room mm addr length flags type file offset
              ≡ (a, extended mm a e flags type file offset)))
unfolding allocate_area
allocate_cases room mm addr length flags type file offset = elim (Bool-cases (length == 0)) [
  | inl empty ↦ inl (rw empty)
  | inr some_bytes ↦ elim (Option-cases (place mm addr (page_align length))) [
    | inl nowhere ↦ inl (rw (some_bytes, nowhere, allocate_area))
    | inr (a, at) ↦ elim (map_area_cases room mm a (page_align length) flags type file offset) [
      | inl nothing ↦ inl (rw (some_bytes, at, allocate_area) nothing)
      | inr (h, inside, free, added) ↦ inr (
        a,
        (a + page_align length) % 2 ^ 64,
        h,
        inside,
        free,
        rw (some_bytes, at, allocate_area) added,
      )
    ]
  ]
]

-- What an allocation of either kind has done.
abbrev pub Sound : ℕ → ℕ → ℕ → ℕ → Mm → ℕ × Mm → Type 0
Sound flags type file offset mm (a, mm') =
    ((a ≡ 0) × (mm' ≡ mm))
    ⊎ ((e : ℕ) × (a < e) × (e ≤ user_space_end) × Added (bounded a e flags type file offset) mm mm')

allocate_area-Sound :
    (room : Bool) (mm : Mm) (addr length flags type file offset : ℕ)
    → Ordered 0 mm.vma_list
    → Sound flags type file offset mm (allocate_area room mm addr length flags type file offset)
allocate_area-Sound room mm addr length flags type file offset o =
    elim (allocate_cases room mm addr length flags type file offset) [
      | inl nothing ↦ rw nothing (inl (refl, refl))
      | inr (a, e, h, inside, free, added) ↦
          rw added
            (inr (e, h, inside, extended-Added mm a e flags type file offset h inside free o))
    ]

-- Without a hint the search decides alone: if the first place where the page-aligned length fits
-- ends inside the user space, then the allocation succeeds there, given memory for the node, since
-- the insertion cannot fail. The length is between 1 and 2^62 bytes.
allocate-Added :
    (mm : Mm) (length flags : ℕ)
    → Ordered 0 mm.vma_list
    → mm.mmap_base ≤ user_space_end
    → 0 < length
    → length ≤ 2 ^ 62
    → find_gap (page_align length) mm.mmap_base mm.vma_list + page_align length ≤ user_space_end
    → let (a, mm') = vma_allocate true mm 0 length flags in
      (a ≡ find_gap (page_align length) mm.mmap_base mm.vma_list)
      × Added (bounded a (a + page_align length) flags vma_anonymous 0 0) mm mm'
allocate-Added mm length flags o base pos_len small fits =
    let len : ℕ = page_align length in
    let a : ℕ = find_gap len mm.mmap_base mm.vma_list in
    let free : overlaps (bounded a (a + len) flags vma_anonymous 0 0) mm.vma_list ≡ false =
      find_gap-free len mm.mmap_base 0 mm.vma_list _ o (omega arith) (omega arith) refl refl in
    rw (allocate_lem mm length flags pos_len small fits free)
      (refl, extended-Added mm a (a + len) flags vma_anonymous 0 0 (omega arith) fits free o)

-- Whatever the address and the length, an allocation, anonymous or of a file, either returns 0 and
-- changes nothing, or adds an area of its flags, kind, file and offset, not empty and inside the
-- user space, that begins at the address returned, shares no address with another, and keeps the
-- order.
pub allocate-Sound :
    (room : Bool) (mm : Mm) (addr length flags file offset : ℕ)
    → Ordered 0 mm.vma_list
    → Sound flags vma_anonymous 0 0 mm (vma_allocate room mm addr length flags)
      × Sound flags vma_file file offset mm
          (vma_allocate_file room mm addr length flags file offset)
unfolding vma_allocate vma_allocate_file
allocate-Sound room mm addr length flags file offset o = (
  allocate_area-Sound room mm addr length flags vma_anonymous 0 0 o,
  allocate_area-Sound room mm addr length flags vma_file file offset o,
)
