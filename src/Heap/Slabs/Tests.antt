-- ===== src/Heap/Slabs/Tests.antt =====
-- The theorems on kmalloc and kfree at a heap of three pages with one slab of 1024-byte objects.
use valerioedx.Base.{
  ℕ, ◌+◌, ◌*◌, ◌<◌, ◌≤◌, ◌≡◌, refl, inl, inr, true, false, [], ◌∷◌, ◌==◌, if◌then◌else◌, member,
  arith, subst, Bool-cases,
}
use valerioedx.Heap.{
  free_page, slab_page, large_page, alloc_pages_backend, find_run, page_idx_to_virt,
}
use valerioedx.Heap.Pages.{FromFirstRun}
use valerioedx.Heap.Slabs.{
  Slabs, slab_size, slab_objects, align_up, is_nil, slab_init_page, ready_slab, take_object,
  cache_alloc, find_cache, kmalloc, kfree,
}
use valerioedx.Heap.Slabs.Valid.{IsSlab, IsValid, in_list, in_use_at}
use valerioedx.Heap.Slabs.Given.{AllocResult}
use valerioedx.Heap.Slabs.Kmalloc.{kmalloc_small, kmalloc_large}
use valerioedx.Heap.Slabs.Kfree.{FreeResult, kfree_lem}

-- Two of the three objects of the slab are in use.
abbrev pub two_used : Slabs
two_used = record {
  heap = record {
    start_addr = 0x10000;
    total_pages = 3;
    metadata = λ n.
        if n == 0
        then record { kind = slab_page; count = 1 }
        else record { kind = free_page; count = 0 };
  };
  slabs_partial = λ i. if i == 6 then 0x10000 ∷ [] else [];
  slabs_full = λ i. [];
  slabs_free = λ i. [];
  cache = λ s. 6;
  free_list = λ s. 0x10828 ∷ [];
  in_use = λ s. 2;
  magic = λ s. true;
}

two_used-IsSlab : IsSlab two_used 6 0x10000
unfolding slab_objects align_up member
two_used-IsSlab = record {
  index = omega arith;
  number = 0;
  at = refl;
  inside = omega arith;
  taken = refl;
  owner = refl;
  marked = refl;
  counted = refl;
  free_objects = λ x h. ground (arith, h);
  distinct = (refl, tt);
}

pub two_used-IsValid : IsValid two_used
unfolding member
two_used-IsValid = record {
  aligned = refl;
  not_null = omega arith;
  none_free = λ i. refl;
  partial_once = λ i. elim (Bool-cases (i == 6)) [ inl e ↦ rw e (refl, tt) | inr e ↦ rw e tt ];
  full_once = λ i. tt;
  partial = λ i s h.
      let index : 6 ≡ i = ground (arith, h) in
      let slab : 0x10000 ≡ s = ground (arith, h) in
      subst (λ j. IsSlab two_used j s × (is_nil (two_used.free_list s) ≡ false)) index
        (subst (λ t. IsSlab two_used 6 t × (is_nil (two_used.free_list t) ≡ false)) slab
          (two_used-IsSlab, refl));
  full = λ i s h. absurd (ground (arith, h));
}

pub first_used : in_use_at two_used 0x10028 ≡ true
unfolding in_use_at in_list member slab_objects align_up
first_used = refl

third_given : (kmalloc 1000 two_used).0 ≡ 0x10828
unfolding kmalloc find_cache cache_alloc ready_slab take_object
third_given = refl

-- Of a size for which there is no slab, a new one is made.
second_page_slab : (kmalloc 100 two_used).0 ≡ 0x11028
unfolding kmalloc find_cache cache_alloc ready_slab take_object alloc_pages_backend find_run
    page_idx_to_virt slab_init_page slab_objects align_up
second_page_slab = refl

small_example :
    let (p, k') = kmalloc 1000 two_used in
    (c : ℕ) × (c < 8)
    × (1000 ≤ slab_size c)
    × ((i : ℕ) → i < c → slab_size i < 1000)
    × AllocResult c two_used p k'
small_example = kmalloc_small 1000 two_used two_used-IsValid (omega arith) (omega arith)

large_example :
    let (p, k') = kmalloc 5000 two_used in
    (num : ℕ) × (5000 ≤ num * 4096)
    × (num * 4096 < 5000 + 4096)
    × FromFirstRun num large_page two_used.heap p k'.heap
    × IsValid k'
    × ((x : ℕ) → in_use_at k' x ≡ in_use_at two_used x)
large_example = kmalloc_large 5000 two_used two_used-IsValid (omega arith) (omega arith)

kfree_example : FreeResult two_used 0x10028 (kfree 0x10028 two_used)
kfree_example = kfree_lem 0x10028 two_used two_used-IsValid (omega arith, omega arith) first_used
