-- ===== src/Heap/Slabs/Fresh.antt =====
-- ready_slab, the part of heap.c's cache_alloc that sees to a partial slab, and slab_init_page.
use valerioedx.Base.{
  ℕ, ◌+◌, ◌*◌, ◌%◌, ◌<◌, ◌≡◌, refl, ◌≢◌, inl, inr, true, false, none, some, List, [], ◌∷◌, length,
  ◌==◌, if◌then◌else◌, update, member, Distinct, arith, ap, sym, ◌∙◌, Bool-cases, subst,
}
use valerioedx.Heap.{slab_page, Heap, page, is_free, alloc_pages_backend}
use valerioedx.Heap.Pages.{taken}
use valerioedx.Heap.Slabs.{Slabs, slab_size, objects_of, is_nil, slab_init_page, ready_slab}
use valerioedx.Heap.Slabs.Moves.{update_same, not_both, update-Distinct}
use valerioedx.Heap.Slabs.Objects.{
  objects_of-Distinct, length-objects_of, some_objects, size_bounds,
}
use valerioedx.Heap.Slabs.Valid.{IsSlab, IsValid, in_list, listed-IsSlab, same-IsSlab, Changes}

-- The state with a new slab at the address of page `n`.
unfoldable pub with_new : (c n : ℕ) → Slabs → Slabs
with_new c n k =
    let s = k.heap.start_addr + n * page in
    let heap' = record k.heap { metadata = taken n 1 slab_page k.heap.metadata } in
    record (slab_init_page s c (record k { heap = heap' })) {
      slabs_partial = update k.slabs_partial c (s ∷ []);
    }

pub ready_equation :
    (c s : ℕ) (h' : Heap) (k : Slabs)
    → k.slabs_partial c ≡ []
    → k.slabs_free c ≡ []
    → alloc_pages_backend 1 slab_page k.heap ≡ (s, h')
    → ready_slab c k ≡ (
        if s == 0
        then none
        else some (record (slab_init_page s c (record k { heap = h' })) {
          slabs_partial = update k.slabs_partial c (s ∷ []);
        }))
unfolding ready_slab slab_init_page
ready_equation c s h' k ep ef ea = rw (ready_slab, ep, ef, ea) refl

-- No slab stands on a page that is free.
pub not_free :
    (k : Slabs) (i n : ℕ)
    → is_free (k.heap.metadata n) ≡ true
    → IsSlab k i (k.heap.start_addr + n * page)
    → ⊥
not_free k i n free q =
    let same : q.number ≡ n = omega (arith, q.at) in
    let kind : is_free (k.heap.metadata n) ≡ false =
      ap (λ m. is_free (k.heap.metadata m)) (sym same) ∙ ap is_free q.taken in
    not_both free kind

pub unlisted :
    (k : Slabs) (i n : ℕ)
    → IsValid k
    → is_free (k.heap.metadata n) ≡ true
    → in_list k i (k.heap.start_addr + n * page) ≡ false
unlisted k i n v free = elim (Bool-cases (in_list k i (k.heap.start_addr + n * page))) [
  | inl e ↦ absurd (not_free k i n free (listed-IsSlab k i (k.heap.start_addr + n * page) v e))
  | inr e ↦ e
]

pub new-IsSlab :
    (c n : ℕ) (k : Slabs)
    → IsValid k
    → c < 8
    → n < k.heap.total_pages
    → IsSlab (with_new c n k) c (k.heap.start_addr + n * page)
unfolding with_new slab_init_page
new-IsSlab c n k v small inside =
    let s = k.heap.start_addr + n * page in
    let k' = with_new c n k in
    let al : s % 4096 ≡ 0 = omega (arith, v.aligned) in
    let list : k'.free_list s ≡ objects_of s (slab_size c) =
      update_same k.free_list s (objects_of s (slab_size c)) in
    let pos : 0 < slab_size c = omega (arith, (size_bounds c small).0) in
    let unused : k'.in_use s ≡ 0 = ground arith in
    record {
      index = small;
      number = n;
      at = refl;
      inside = inside;
      taken = ground arith;
      owner = ground arith;
      marked = ground arith;
      counted = omega (arith, ap length list, length-objects_of s (slab_size c) al, unused);
      free_objects = λ x h. ap (member x) (sym list) ∙ h;
      distinct = subst Distinct (sym list) (objects_of-Distinct s (slab_size c) al pos);
    }

not_empty : (xs : List ℕ) → 0 < length xs → is_nil xs ≡ false
not_empty [] h = absurd (omega (arith, h))
not_empty (x ∷ xs) h = refl

pub with_new-Changes :
    (c n : ℕ) (k : Slabs)
    → IsValid k
    → c < 8
    → n < k.heap.total_pages
    → is_free (k.heap.metadata n) ≡ true
    → k.slabs_partial c ≡ []
    → Changes k (with_new c n k) (k.heap.start_addr + n * page)
unfolding with_new slab_init_page member in_list
with_new-Changes c n k v small inside free ep =
    let s = k.heap.start_addr + n * page in
    let k' = with_new c n k in
    let q : IsSlab k' c s = new-IsSlab c n k v small inside in
    let al : s % 4096 ≡ 0 = omega (arith, v.aligned) in
    let list : k'.free_list s ≡ objects_of s (slab_size c) =
      update_same k.free_list s (objects_of s (slab_size c)) in
    let more : is_nil (k'.free_list s) ≡ false = not_empty (k'.free_list s) (
      omega
        (arith, ap length list, length-objects_of s (slab_size c) al, (some_objects c small).0)) in
    record {
      start = refl;
      none_free = v.none_free;
      partial_once = λ i. update-Distinct k.slabs_partial c i (s ∷ []) v.partial_once (refl, tt);
      full_once = v.full_once;
      others = λ i t ne old.
          same-IsSlab k k' i t refl refl
            (λ m e l.
              let other : m ≢ n = λ mn. ne (e ∙ ap (λ z. k.heap.start_addr + z * page) mn) in
              ground (arith, other))
            (ground (arith, ne)) (ground (arith, ne)) (ground (arith, ne)) (ground (arith, ne)) old;
      free_same = λ t ne. ground (arith, ne);
      cache_same = λ t ne. ground (arith, ne);
      partial_same = λ i t ne. elim (Bool-cases (i == c)) [
        | inl e ↦
            let ic : i ≡ c = ground (arith, e) in
            rw e (ground (arith, ne) ∙ sym (ap (member t) (ap (λ j. k.slabs_partial j) ic ∙ ep)))
        | inr e ↦ rw e refl
      ];
      full_same = λ i t ne. refl;
      partial_self = λ i h. elim (Bool-cases (i == c)) [
        | inl e ↦ let ci : c ≡ i = ground (arith, e) in (subst (λ j. IsSlab k' j s) ci q, more)
        | inr e ↦ absurd (not_free k i n free (v.partial i s (ground (arith, h, e))).0)
      ];
      full_self = λ i h. absurd (not_free k i n free (v.full i s h).0);
    }
