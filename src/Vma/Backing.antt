-- ===== src/Vma/Backing.antt =====
-- File mappings under `vma_unmap` of kernel/mm/vma.c: which file a page is read from, and where.
use valerioedx.Base.{ℕ, ◌+◌, ◌-◌, ◌%◌, ◌≤◌, ◌<◌, ◌≡◌, Bool, true, some, [], ◌∷◌, arith}
use valerioedx.Pmm.{page_size}
use valerioedx.Vma.{Vma, Pages, user_space_end, vma_create, unmap_vma, file_position}

-- Unmapping the front of a file mapping moves the rest of it in the file: every page that stays is
-- read from a position that is too low by the number of bytes unmapped.
pub unmap_front_shifts :
    (room : Vma → Bool) (start end addr : ℕ) (v : Vma) (g : Pages)
    → start ≤ v.vm_start
    → v.vm_start < end
    → end < v.vm_end
    → end % page_size ≡ 0
    → end ≤ addr
    → let w = record v { vm_start = end } in
      ((unmap_vma room start end v g).0 ≡ some (w ∷ []))
      × (file_position w addr + (end - v.vm_start) ≡ file_position v addr)
unfolding unmap_vma vma_create file_position
unmap_front_shifts room start end addr v g h1 h2 h3 al h4 = (ground arith, omega arith)

-- Unmapping the middle of a file mapping leaves the part behind the hole with no file and offset 0,
-- whatever they were, though it is still marked as a mapping of the same kind.
pub unmap_middle_forgets :
    (room : Vma → Bool) (start end : ℕ) (v : Vma) (g : Pages)
    → v.vm_start < start
    → start < end
    → end < v.vm_end
    → v.vm_end ≤ user_space_end
    → room v ≡ true
    → (unmap_vma room start end v g).0
      ≡ some (
          record v { vm_end = start } ∷ record v { vm_start = end; vm_file = 0; vm_pgoff = 0 } ∷ [])
unfolding unmap_vma vma_create
unmap_middle_forgets room start end v g h1 h2 h3 inside e = ground arith
