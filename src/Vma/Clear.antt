-- ===== src/Vma/Clear.antt =====
-- The page table entries that `vma_unmap` of kernel/mm/vma.c clears.
use valerioedx.Base.{
  ℕ, zero, suc, ◌+◌, ◌-◌, ◌*◌, ◌/◌, ◌%◌, ◌≤◌, ◌<◌, ◌≡◌, inl, inr, Bool, true, false, some, List, [],
  ◌∷◌, leb, pos, arith, Bool-cases, Option-cases, subst,
}
use valerioedx.Pmm.{page_size}
use valerioedx.Vma.{
  Vma, Pages, holds, vma_find, vma_create, free_page, free_rounds, free_pages, unmap_vma,
  unmap_list, vma_unmap,
}
use valerioedx.Vma.Unmap.{in_range}

-- Page `k` has no valid entry.
abbrev pub Cleared : ℕ → Pages → Type 0
Cleared k g = g.ptes k % 2 ≡ 0

-- Every area begins at a page boundary.
abbrev pub AllAligned : List Vma → Type 0
AllAligned [] = Unit {0}
AllAligned (v ∷ vs) = (v.vm_start % page_size ≡ 0) × AllAligned vs

free_page-Cleared : (type addr : ℕ) (g : Pages) → Cleared (addr / page_size) (free_page type addr g)
unfolding free_page
free_page-Cleared type addr g = ground arith

free_page-keeps : (type addr k : ℕ) (g : Pages) → Cleared k g → Cleared k (free_page type addr g)
unfolding free_page
free_page-keeps type addr k g c = ground arith

free_rounds-keeps :
    (rounds type addr k : ℕ) (g : Pages) → Cleared k g → Cleared k (free_rounds rounds type addr g)
unfolding free_rounds
free_rounds-keeps zero type addr k g c = c
free_rounds-keeps (suc rounds) type addr k g c =
    free_rounds-keeps rounds type (addr + page_size) k _ (free_page-keeps type addr k g c)

free_rounds-Cleared :
    (rounds type addr k : ℕ) (g : Pages)
    → addr % page_size ≡ 0
    → addr ≤ k * page_size
    → k * page_size < addr + rounds * page_size
    → Cleared k (free_rounds rounds type addr g)
unfolding free_rounds
free_rounds-Cleared zero type addr k g al lo hi = absurd (omega arith)
free_rounds-Cleared (suc rounds) type addr k g al lo hi =
    elim (Bool-cases (leb (addr + page_size) (k * page_size))) [
      | inl later ↦
          free_rounds-Cleared rounds type (addr + page_size) k _ (omega arith) (ground arith)
            (omega arith)
      | inr now ↦ free_rounds-keeps rounds type (addr + page_size) k _ (
          let same : addr / page_size ≡ k = ground arith in
          subst (λ j. Cleared j (free_page type addr g)) same (free_page-Cleared type addr g))
    ]

free_pages-Cleared :
    (type s e k : ℕ) (g : Pages)
    → s % page_size ≡ 0
    → s ≤ k * page_size
    → k * page_size < e
    → Cleared k (free_pages type s e g)
unfolding free_pages
free_pages-Cleared type s e k g al lo hi =
    free_rounds-Cleared ((e - s + page_size - 1) / page_size) type s k g al lo (omega arith)

free_pages-keeps : (type s e k : ℕ) (g : Pages) → Cleared k g → Cleared k (free_pages type s e g)
unfolding free_pages
free_pages-keeps type s e k g = free_rounds-keeps ((e - s + page_size - 1) / page_size) type s k g

module _ (room : Vma → Bool) (start end : ℕ) where
  unmap_vma-keeps :
      (v : Vma) (g : Pages) (k : ℕ) → Cleared k g → Cleared k (unmap_vma room start end v g).1
  unfolding unmap_vma vma_create
  unmap_vma-keeps v g k c = ground (
    arith,
    free_pages-keeps v.vm_type v.vm_start v.vm_end k g,
    free_pages-keeps v.vm_type v.vm_start end k g,
    free_pages-keeps v.vm_type start v.vm_end k g,
    free_pages-keeps v.vm_type start end k g,
  )

  unmap_vma-Cleared :
      (v : Vma) (g : Pages) (k : ℕ) (ps : List Vma)
      → v.vm_start % page_size ≡ 0
      → start % page_size ≡ 0
      → holds (k * page_size) v ≡ true
      → in_range start end (k * page_size) ≡ true
      → (unmap_vma room start end v g).0 ≡ some ps
      → Cleared k (unmap_vma room start end v g).1
  unfolding unmap_vma vma_create
  unmap_vma-Cleared v g k ps al al' here inside done = ground (
    arith,
    free_pages-Cleared v.vm_type v.vm_start v.vm_end k g,
    free_pages-Cleared v.vm_type v.vm_start end k g,
    free_pages-Cleared v.vm_type start v.vm_end k g,
    free_pages-Cleared v.vm_type start end k g,
  )

  unmap_list-keeps :
      (vs : List Vma) (g : Pages) (k : ℕ)
      → Cleared k g
      → Cleared k (unmap_list room start end vs g).2
  unfolding unmap_list
  unmap_list-keeps [] g k c = c
  unmap_list-keeps (v ∷ vs) g k c = elim (Option-cases (unmap_vma room start end v g).0) [
    | inl fails ↦ rw (fails, unmap_list) (unmap_vma-keeps v g k c)
    | inr (ps, done) ↦ rw (done, unmap_list) (unmap_list-keeps vs _ k (unmap_vma-keeps v g k c))
  ]

  unmap_list-Cleared :
      (vs : List Vma) (g : Pages) (k : ℕ) (w : Vma)
      → AllAligned vs
      → start % page_size ≡ 0
      → vma_find (k * page_size) vs ≡ some w
      → in_range start end (k * page_size) ≡ true
      → (unmap_list room start end vs g).0 ≡ pos 0
      → Cleared k (unmap_list room start end vs g).2
  unfolding unmap_list vma_find
  unmap_list-Cleared [] g k w al al' found inside e = cc
  unmap_list-Cleared (v ∷ vs) g k w al al' found inside e =
      elim (Option-cases (unmap_vma room start end v g).0) [
        | inl fails ↦ cc (rw (fails, unmap_list) at e)
        | inr (ps, done) ↦
            rw (done, unmap_list)
              (elim (Bool-cases (holds (k * page_size) v)) [
                | inl here ↦
                    unmap_list-keeps vs _ k (unmap_vma-Cleared v g k ps al.0 al' here inside done)
                | inr elsewhere ↦
                    unmap_list-Cleared vs _ k w al.1 al' (rw elsewhere at found) inside
                      (rw (done, unmap_list) at e)
              ])
      ]

-- After a successful unmapping from a page boundary on, no page of the range that an area covered
-- has a valid page table entry, where all areas begin at page boundaries.
pub unmap-Cleared :
    (room : Vma → Bool) (start end : ℕ) (vs : List Vma) (g : Pages) (k : ℕ) (w : Vma)
    → start < end
    → start % page_size ≡ 0
    → AllAligned vs
    → (vma_unmap room start end vs g).0 ≡ pos 0
    → vma_find (k * page_size) vs ≡ some w
    → in_range start end (k * page_size) ≡ true
    → (vma_unmap room start end vs g).2.ptes k % 2 ≡ 0
unfolding vma_unmap
unmap-Cleared room start end vs g k w h al al' e found inside =
    let full : leb end start ≡ false = ground arith in
    rw full (unmap_list-Cleared room start end vs g k w al' al found inside (rw full at e))
