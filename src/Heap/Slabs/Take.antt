-- ===== src/Heap/Slabs/Take.antt =====
-- take_object of heap.c's cache_alloc: what is in use after an object was taken.
use valerioedx.Base.{
  ℕ, ◌≡◌, refl, ◌≢◌, inl, inr, true, false, not, ◌&&◌, List, [], ◌∷◌, ◌==◌, if◌then◌else◌, member,
  Distinct, arith, ap, sym, ◌∙◌, Bool-cases, subst,
}
use valerioedx.Heap.Slabs.{Slabs, slab_size, objects_of, page_of, is_nil, take_object}
use valerioedx.Heap.Slabs.Moves.{update_same}
use valerioedx.Heap.Slabs.Objects.{object_page, size_bounds}
use valerioedx.Heap.Slabs.Valid.{
  IsSlab, IsValid, in_list, in_use_at, slab_aligned, Changes, after-IsValid, elsewhere_same,
}
use valerioedx.Heap.Slabs.Alloc.{
  in_use_on, opened, filled, take_equation, first_partial, opened-Changes, filled-Changes,
}

-- An object that was not in use, and is the only one that came into use.
abbrev pub GivenOut : (k : Slabs) (p : ℕ) (k' : Slabs) → Type 0
GivenOut k p k' =
    (in_use_at k p ≡ false) × ((x : ℕ) → in_use_at k' x ≡ (if x == p then true else in_use_at k x))

free_page_of :
    (k : Slabs) (c s x : ℕ)
    → IsValid k
    → IsSlab k c s
    → member x (k.free_list s) ≡ true
    → page_of x ≡ s
free_page_of k c s x v q m =
    object_page s (slab_size c) x (slab_aligned k c s v q).0
      (omega (arith, (size_bounds c q.index).0)) (q.free_objects x m)

pub first-GivenOut :
    (k k' : Slabs) (c s obj : ℕ) (objs : List ℕ)
    → IsValid k
    → Changes k k' s
    → IsSlab k c s
    → k'.cache s ≡ c
    → in_list k c s ≡ true
    → in_list k' c s ≡ true
    → k.free_list s ≡ obj ∷ objs
    → k'.free_list s ≡ objs
    → GivenOut k obj k'
unfolding member
first-GivenOut k k' c s obj objs v ch q owner listed listed' old new =
    let first : member obj (k.free_list s) ≡ true = ap (member obj) old ∙ ground arith in
    let inside = q.free_objects obj first in
    let at = free_page_of k c s obj v q first in
    let d : Distinct (obj ∷ objs) = subst Distinct old q.distinct in
    (
      in_use_on k c s obj q.owner listed at ∙ ground (arith, first),
      λ x. elim (Bool-cases (page_of x == s)) [
        | inl e ↦
            let here : page_of x ≡ s = ground (arith, e) in
            elim (Bool-cases (x == obj)) [
              | inl same ↦
                  let xo : x ≡ obj = ground (arith, same) in
                  let out : member x (k'.free_list s) ≡ false =
                    ap (member x) new ∙ ap (λ z. member z objs) xo ∙ d.0 in
                  let in_it : member x (objects_of s (slab_size c)) ≡ true =
                    ap (λ z. member z (objects_of s (slab_size c))) xo ∙ inside in
                  in_use_on k' c s x owner listed' here ∙ ground (arith, out, in_it, same)
              | inr other ↦
                  let before : member x (k.free_list s) ≡ member x objs =
                    ap (member x) old ∙ ground (arith, other) in
                  in_use_on k' c s x owner listed' here
                  ∙ ap (λ b. member x (objects_of s (slab_size c)) && not b)
                      (ap (member x) new ∙ sym before)
                  ∙ sym (in_use_on k c s x q.owner listed here)
                  ∙ ground (arith, other)
            ]
        | inr e ↦
            let away : page_of x ≢ s = λ h. ground (arith, e, h) in
            let ne : (x == obj) ≡ false = ground (arith, e, at) in
            elsewhere_same k k' s x ch away ∙ ground (arith, ne)
      ],
    )

opened_out :
    (c s obj : ℕ) (slabs objs : List ℕ) (k : Slabs)
    → IsValid k
    → k.slabs_partial c ≡ s ∷ slabs
    → k.free_list s ≡ obj ∷ objs
    → is_nil objs ≡ false
    → IsValid (opened s objs k) × GivenOut k obj (opened s objs k)
unfolding opened in_list member
opened_out c s obj slabs objs k v ep ef more =
    let k' = opened s objs k in
    let ch : Changes k k' s = opened-Changes c s obj slabs objs k v ep ef more in
    let q = (first_partial k c s slabs v ep).0 in
    let here : member s (k.slabs_partial c) ≡ true = ap (member s) ep ∙ ground arith in
    (
      after-IsValid k k' s v ch,
      first-GivenOut k k' c s obj objs v ch q q.owner (ground (arith, here)) (ground (arith, here))
          ef (update_same k.free_list s objs),
    )

filled_out :
    (c s obj : ℕ) (slabs objs : List ℕ) (k : Slabs)
    → IsValid k
    → k.slabs_partial c ≡ s ∷ slabs
    → k.free_list s ≡ obj ∷ objs
    → is_nil objs ≡ true
    → IsValid (filled c s slabs objs k) × GivenOut k obj (filled c s slabs objs k)
unfolding filled opened in_list member
filled_out c s obj slabs objs k v ep ef none_left =
    let k' = filled c s slabs objs k in
    let ch : Changes k k' s = filled-Changes c s obj slabs objs k v ep ef none_left in
    let q = (first_partial k c s slabs v ep).0 in
    let here : member s (k.slabs_partial c) ≡ true = ap (member s) ep ∙ ground arith in
    let there : member s (k'.slabs_full c) ≡ true =
      ap (member s) (update_same k.slabs_full c (s ∷ k.slabs_full c)) ∙ ground arith in
    (
      after-IsValid k k' s v ch,
      first-GivenOut k k' c s obj objs v ch q q.owner (ground (arith, here)) (ground (arith, there))
          ef (update_same k.free_list s objs),
    )

-- take_object where a partial slab is at hand.
pub take_out :
    (c s : ℕ) (slabs : List ℕ) (k : Slabs)
    → IsValid k
    → k.slabs_partial c ≡ s ∷ slabs
    → let (p, k') = take_object c k in
      IsValid k'
      × GivenOut k p k'
      × (page_of p ≡ s)
      × (member p (objects_of s (slab_size c)) ≡ true)
      × (k'.heap ≡ k.heap)
      × (k'.cache ≡ k.cache)
unfolding member opened filled
take_out c s slabs k v ep =
    let (q, some_left) = first_partial k c s slabs v ep in at_hand (k.free_list s) refl some_left q
  where
    at_hand :
        (l : List ℕ)
        → k.free_list s ≡ l
        → is_nil (k.free_list s) ≡ false
        → IsSlab k c s
        → let (p, k') = take_object c k in
          IsValid k'
          × GivenOut k p k'
          × (page_of p ≡ s)
          × (member p (objects_of s (slab_size c)) ≡ true)
          × (k'.heap ≡ k.heap)
          × (k'.cache ≡ k.cache)
    at_hand [] e more q = cc (ap is_nil e, more)
    at_hand (obj ∷ objs) e more q =
        let first : member obj (k.free_list s) ≡ true = ap (member obj) e ∙ ground arith in
        let at = free_page_of k c s obj v q first in
        let inside = q.free_objects obj first in
        let eq = take_equation c s obj slabs objs k ep e in
        elim (Bool-cases (is_nil objs)) [
          | inl nil ↦
              let out = filled_out c s obj slabs objs k v ep e nil in
              rw (eq, nil) (out.0, out.1, at, inside, refl, refl)
          | inr left ↦
              let out = opened_out c s obj slabs objs k v ep e left in
              rw (eq, left) (out.0, out.1, at, inside, refl, refl)
        ]
