-- ===== src/Heap/Slabs/Kfree.antt =====
-- heap.c's cache_free and kfree of an object in use.
use valerioedx.Base.{
  ℕ, ◌+◌, ◌*◌, ◌<◌, ◌≡◌, refl, ◌⊎◌, inl, inr, true, false, List, ◌∷◌, ◌==◌, if◌then◌else◌, update,
  member, remove, Distinct, remove-Distinct, arith, ap, sym, ◌∙◌, Bool-cases, subst,
}
use valerioedx.Heap.{slab_page, page, free_pages_backend}
use valerioedx.Heap.Slabs.{Slabs, page_of, is_nil, put_object, cache_free, kfree}
use valerioedx.Heap.Slabs.Moves.{not_both, update-Distinct, member-removed, where_removed}
use valerioedx.Heap.Slabs.Valid.{IsValid, in_use_at, listed-IsSlab, slab_aligned}
use valerioedx.Heap.Slabs.Put.{Held, put_count}
use valerioedx.Heap.Slabs.Back.{TakenBack, put_back, reopened, reopened_back}
use valerioedx.Heap.Pages.{InReach}
use valerioedx.Heap.Slabs.Last.{
  page_back, page_index, slab_page_back, Without, drained, drained_back,
}

stay_equation :
    (k : Slabs) (c ptr : ℕ)
    → let s = page_of ptr in
      k.magic s ≡ true
      → ((put_object s ptr k).in_use s == 0) ≡ false
      → cache_free c ptr k ≡ (
          if is_nil (k.free_list s)
          then record (put_object s ptr k) {
            slabs_full = update k.slabs_full c (remove s (k.slabs_full c));
            slabs_partial = update k.slabs_partial c (s ∷ k.slabs_partial c);
          }
          else put_object s ptr k)
unfolding cache_free
stay_equation k c ptr m e = rw (cache_free, m, e) refl

last_equation :
    (k : Slabs) (c ptr : ℕ)
    → let s = page_of ptr in
      k.magic s ≡ true
      → ((put_object s ptr k).in_use s == 0) ≡ true
      → cache_free c ptr k ≡ (
          if is_nil (k.free_list s)
          then record (put_object s ptr k) {
            heap = free_pages_backend s k.heap;
            slabs_full = update k.slabs_full c (remove s (k.slabs_full c));
          }
          else record (put_object s ptr k) {
            heap = free_pages_backend s k.heap;
            slabs_partial = update k.slabs_partial c (remove s (k.slabs_partial c));
          })
unfolding cache_free
last_equation k c ptr m e = rw (cache_free, m, e) refl

-- A list without a slab, which was in no other.
removed-Without :
    (f : ℕ → List ℕ) (c s : ℕ)
    → ((i : ℕ) → Distinct (f i))
    → ((i : ℕ) → member s (f i) ≡ true → i ≡ c)
    → Without f (update f c (remove s (f c))) s
removed-Without f c s once only = record {
  once = λ i. update-Distinct f c i (remove s (f c)) once (remove-Distinct s (f c) (once c));
  same = λ i t ne. member-removed f c i s t ne;
  gone = λ i. elim (Bool-cases (member s (update f c (remove s (f c)) i))) [
    | inl e ↦ let (ne, old) = where_removed f c i s (once c) e in absurd (ne (only i old))
    | inr e ↦ e
  ];
}

absent-Without :
    (f : ℕ → List ℕ) (s : ℕ)
    → ((i : ℕ) → Distinct (f i))
    → ((i : ℕ) → member s (f i) ≡ true → ⊥)
    → Without f f s
absent-Without f s once none_in = record {
  once = once;
  same = λ i t ne. refl;
  gone = λ i. elim (Bool-cases (member s (f i))) [ inl e ↦ absurd (none_in i e) | inr e ↦ e ];
}

-- The page of the slab is given back where it was the last object of it in use, and no other page is.
abbrev pub PageBack : (k : Slabs) (p : ℕ) (k' : Slabs) → Type 0
PageBack k p k' =
    ((k'.heap ≡ k.heap) × (0 < k'.in_use (page_of p)))
    ⊎ ((n : ℕ) × (page_of p ≡ k.heap.start_addr + n * page)
        × (k'.heap ≡ page_back n k.heap)
        × ((x : ℕ) → page_of x ≡ page_of p → in_use_at k' x ≡ false))

abbrev pub FreeResult : (k : Slabs) (p : ℕ) (k' : Slabs) → Type 0
FreeResult k p k' = IsValid k' × TakenBack k p k' × PageBack k p k' × (k'.cache ≡ k.cache)

stay_result :
    (k : Slabs) (c ptr : ℕ)
    → IsValid k
    → Held k c (page_of ptr) ptr
    → ((put_object (page_of ptr) ptr k).in_use (page_of ptr) == 0) ≡ false
    → FreeResult k ptr (cache_free c ptr k)
unfolding reopened put_object
stay_result k c ptr v h e =
    let s = page_of ptr in
    let eq = stay_equation k c ptr h.slab.marked e in
    let more : 0 < (put_object s ptr k).in_use s = ground (arith, e) in
    elim (Bool-cases (is_nil (k.free_list s))) [
      | inl nil ↦
          let (valid, back) = reopened_back k c s ptr v h nil in
          rw (eq, nil) (valid, back, inl (refl, more), refl)
      | inr left ↦
          let (valid, back) = put_back k c s ptr v h left in
          rw (eq, left) (valid, back, inl (refl, more), refl)
    ]

last_result :
    (k : Slabs) (c ptr : ℕ)
    → IsValid k
    → InReach k.heap
    → Held k c (page_of ptr) ptr
    → ((put_object (page_of ptr) ptr k).in_use (page_of ptr) == 0) ≡ true
    → FreeResult k ptr (cache_free c ptr k)
unfolding drained put_object
last_result k c ptr v reach h e =
    let s = page_of ptr in
    let n = h.slab.number in
    let zero_left : (put_object s ptr k).in_use s ≡ 0 = ground (arith, e) in
    let one : k.in_use s ≡ 1 = omega (arith, zero_left, put_count k c s ptr v h) in
    let pages = slab_page_back n s k.heap h.slab.inside h.slab.at v.aligned h.slab.taken reach in
    let eq = last_equation k c ptr h.slab.marked e in
    elim (Bool-cases (is_nil (k.free_list s))) [
      | inl nil ↦
          let full' = update k.slabs_full c (remove s (k.slabs_full c)) in
          let (valid, back, none_left) =
            drained_back k c n s ptr k.slabs_partial full' v h one h.slab.at
              (absent-Without k.slabs_partial s v.partial_once
                (λ i m. not_both nil (v.partial i s m).1))
              (removed-Without k.slabs_full c s v.full_once
                (λ i m. sym (v.full i s m).0.owner ∙ h.slab.owner)) in
          subst (FreeResult k ptr) (sym (eq ∙ rw (nil, pages) refl))
            (valid, back, inr (n, h.slab.at, refl, none_left), refl)
      | inr left ↦
          let part' = update k.slabs_partial c (remove s (k.slabs_partial c)) in
          let (valid, back, none_left) =
            drained_back k c n s ptr part' k.slabs_full v h one h.slab.at
              (removed-Without k.slabs_partial c s v.partial_once
                (λ i m. sym (v.partial i s m).0.owner ∙ h.slab.owner))
              (absent-Without k.slabs_full s v.full_once (λ i m. not_both (v.full i s m).1 left)) in
          subst (FreeResult k ptr) (sym (eq ∙ rw (left, pages) refl))
            (valid, back, inr (n, h.slab.at, refl, none_left), refl)
    ]

pub used-Held :
    (k : Slabs) (ptr : ℕ)
    → IsValid k
    → in_use_at k ptr ≡ true
    → Held k (k.cache (page_of ptr)) (page_of ptr) ptr
unfolding in_use_at
used-Held k ptr v h = record {
  slab = listed-IsSlab k (k.cache (page_of ptr)) (page_of ptr) v (ground (arith, h));
  listed = ground (arith, h);
  at = refl;
  inside = ground (arith, h);
  not_free = ground (arith, h);
}

kfree_equation :
    (k : Slabs) (ptr : ℕ)
    → IsValid k
    → InReach k.heap
    → Held k (k.cache (page_of ptr)) (page_of ptr) ptr
    → kfree ptr k ≡ cache_free (k.cache (page_of ptr)) ptr k
unfolding kfree
kfree_equation k ptr v reach h =
    let s = page_of ptr in
    let n = h.slab.number in
    let (_, pos) = slab_aligned k (k.cache s) s v h.slab in
    let not_null : (ptr == 0) ≡ false = ground (arith, pos) in
    let idx = page_index n ptr k.heap h.slab.inside h.slab.at v.aligned reach in
    let kind : (k.heap.metadata n).kind ≡ slab_page = ap (λ i. i.kind) h.slab.taken in
    rw (kfree, not_null, idx, kind) refl

-- In a valid state of a heap of less than 4 GiB that ends below 2^64, kfree of an object of a slab
-- that is in use takes this object and no other out of use. Either its page becomes free, and none
-- of its objects is in use any more, or no page changes, and the count of the objects in use of the
-- slab is not 0. The state is valid again, and no slab changes its cache.
pub kfree_lem :
    (ptr : ℕ) (k : Slabs)
    → IsValid k
    → InReach k.heap
    → in_use_at k ptr ≡ true
    → FreeResult k ptr (kfree ptr k)
kfree_lem ptr k v reach used =
    let s = page_of ptr in
    let c = k.cache s in
    let h = used-Held k ptr v used in
    subst (FreeResult k ptr) (sym (kfree_equation k ptr v reach h))
      (elim (Bool-cases ((put_object s ptr k).in_use s == 0)) [
        | inl e ↦ last_result k c ptr v reach h e
        | inr e ↦ stay_result k c ptr v h e
      ])
