-- ===== src/Pmm/Sharing.antt =====
-- What goes wrong outside the contract of `pmm_free_frame` and `pmm_inc_ref`: a second release of
-- a free frame, and a count that can grow no further.
use valerioedx.Base.{ℕ, ◌+◌, ◌<◌, ◌≡◌, ◌^◌, ◌%◌, arith}
use valerioedx.Pmm.{Pmm, phys_to_index, index_to_phys, pmm_alloc_frame, pmm_free_frame, push_frame}
use valerioedx.Pmm.Valid.{IsValid, alloc-pop}
use valerioedx.Pmm.Release.{free_unreferenced}
use valerioedx.Pmm.Region.{OnStack}

-- Releasing a frame that is already free, while some frame is in use, is not refused: the frame is
-- pushed a second time, so that the next allocation hands it out while it is still on the stack.
pub double_free :
    {p : Pmm} (addr : ℕ)
    → IsValid p
    → OnStack p (phys_to_index p addr)
    → p.stack_top < p.total_frames
    → let (a, q) = pmm_alloc_frame (pmm_free_frame addr p) in
      (a ≡ index_to_phys (phys_to_index p addr))
      × OnStack q (phys_to_index p addr)
      × (q.ref_counts (phys_to_index p addr) ≡ 1)
unfolding push_frame
double_free {p} addr v (i, hi, e) room =
    let idx = phys_to_index p addr in
    let bound : idx < p.total_frames = rw (← e) (v.in_range i hi) in
    let unref : p.ref_counts idx ≡ 0 = rw (← e) (v.unreferenced i hi) in
    let top : (p.stack_top + 1) % 2 ^ 32 ≡ p.stack_top + 1 = omega (arith, v.frames, v.small) in
    rw
      (
        free_unreferenced p addr bound (omega (arith, v.frames, v.small)) unref
            (omega (arith, v.capacity)),
        alloc-pop (push_frame idx p) (omega arith),
      )
      (ground (arith, top), (i, omega arith, ground arith), ground (arith, top))
