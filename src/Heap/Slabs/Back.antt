-- ===== src/Heap/Slabs/Back.antt =====
-- heap.c's cache_free of an object in use, where others of its slab stay in use.
use valerioedx.Base.{
  ℕ, ◌+◌, ◌≡◌, refl, ◌≢◌, inl, inr, true, false, not, ◌&&◌, ◌∷◌, length, ◌==◌, if◌then◌else◌,
  update, member, remove, Distinct, remove-Distinct, member-cons, arith, ap, sym, ◌∙◌, Bool-cases,
  subst,
}
use valerioedx.Heap.Slabs.{Slabs, slab_size, objects_of, page_of, is_nil, put_object}
use valerioedx.Heap.Slabs.Moves.{
  update_same, not_both, update-Distinct, member-added, member-removed, where_added, where_removed,
}
use valerioedx.Heap.Slabs.Valid.{
  IsSlab, IsValid, in_list, in_use_at, same-IsSlab, Changes, after-IsValid, elsewhere_same,
}
use valerioedx.Heap.Slabs.Put.{Held, put-Distinct, put_inside, put_count}
use valerioedx.Heap.Slabs.Alloc.{listed_anew, in_use_on}

-- One object, and no other, has gone out of use.
abbrev pub TakenBack : (k : Slabs) (p : ℕ) (k' : Slabs) → Type 0
TakenBack k p k' = (x : ℕ) → in_use_at k' x ≡ (if x == p then false else in_use_at k x)

pub put-IsSlab :
    (k k' : Slabs) (c s ptr : ℕ)
    → k'.heap ≡ k.heap
    → k'.cache s ≡ k.cache s
    → k'.magic s ≡ k.magic s
    → k'.in_use s + 1 ≡ k.in_use s
    → k'.free_list s ≡ ptr ∷ k.free_list s
    → Held k c s ptr
    → IsSlab k' c s
put-IsSlab k k' c s ptr heap owner mark used list h =
    listed_anew k k' c s heap owner mark (omega (arith, used, ap length list, h.slab.counted))
      (λ x m. put_inside k c s ptr x h (ap (member x) (sym list) ∙ m))
      (subst Distinct (sym list) (put-Distinct k c s ptr h)) h.slab

put-TakenBack :
    (k k' : Slabs) (c s ptr : ℕ)
    → Changes k k' s
    → Held k c s ptr
    → k'.cache s ≡ c
    → in_list k' c s ≡ true
    → k'.free_list s ≡ ptr ∷ k.free_list s
    → TakenBack k ptr k'
put-TakenBack k k' c s ptr ch h owner listed list x = elim (Bool-cases (page_of x == s)) [
  | inl e ↦
      let here : page_of x ≡ s = ground (arith, e) in
      let before = in_use_on k c s x h.slab.owner h.listed here in
      let free : member x (k'.free_list s) ≡ (if ptr == x then true else member x (k.free_list s)) =
        ap (member x) list ∙ member-cons x ptr (k.free_list s) in
      in_use_on k' c s x owner listed here ∙ elim (Bool-cases (ptr == x)) [
        | inl q ↦ let same : (x == ptr) ≡ true = ground (arith, q) in ground (arith, free, q, same)
        | inr q ↦
            let other : (x == ptr) ≡ false = ground (arith, q) in
            rw other (
              ap (λ b. member x (objects_of s (slab_size c)) && not b) (free ∙ rw q refl)
              ∙ sym before)
      ]
  | inr e ↦
      let away : page_of x ≢ s = λ q. ground (arith, e, q) in
      let ne : (x == ptr) ≡ false = ground (arith, e, h.at) in
      elsewhere_same k k' s x ch away ∙ rw ne refl
]

in_partial :
    (k : Slabs) (c s ptr : ℕ)
    → IsValid k
    → Held k c s ptr
    → is_nil (k.free_list s) ≡ false
    → member s (k.slabs_partial c) ≡ true
unfolding in_list
in_partial k c s ptr v h more = elim (Bool-cases (member s (k.slabs_full c))) [
  | inl e ↦ absurd (not_both (v.full c s e).1 more)
  | inr e ↦ ground (arith, e, h.listed)
]

in_full :
    (k : Slabs) (c s ptr : ℕ)
    → IsValid k
    → Held k c s ptr
    → is_nil (k.free_list s) ≡ true
    → member s (k.slabs_full c) ≡ true
unfolding in_list
in_full k c s ptr v h none_left = elim (Bool-cases (member s (k.slabs_partial c))) [
  | inl e ↦ absurd (not_both none_left (v.partial c s e).1)
  | inr e ↦ ground (arith, e, h.listed)
]

put-Changes :
    (k : Slabs) (c s ptr : ℕ)
    → IsValid k
    → Held k c s ptr
    → is_nil (k.free_list s) ≡ false
    → Changes k (put_object s ptr k) s
unfolding put_object
put-Changes k c s ptr v h more =
    let k' = put_object s ptr k in
    let list : k'.free_list s ≡ ptr ∷ k.free_list s =
      update_same k.free_list s (ptr ∷ k.free_list s) in
    let slab' : IsSlab k' c s =
      put-IsSlab k k' c s ptr refl refl refl (put_count k c s ptr v h) list h in
    record {
      start = refl;
      none_free = v.none_free;
      partial_once = v.partial_once;
      full_once = v.full_once;
      others = λ i t ne old.
          same-IsSlab k k' i t refl refl (λ n e l. refl) refl refl (ground (arith, ne))
            (ground (arith, ne)) old;
      free_same = λ t ne. ground (arith, ne);
      cache_same = λ t ne. refl;
      partial_same = λ i t ne. refl;
      full_same = λ i t ne. refl;
      partial_self = λ i m.
          let own : c ≡ i = sym h.slab.owner ∙ (v.partial i s m).0.owner in
          (subst (λ j. IsSlab k' j s) own slab', ap is_nil list);
      full_self = λ i m. absurd (not_both (v.full i s m).1 more);
    }

-- The state after a slab moved from the full ones to the partial ones.
unfoldable pub reopened : (c s ptr : ℕ) → Slabs → Slabs
reopened c s ptr k = record (put_object s ptr k) {
  slabs_full = update k.slabs_full c (remove s (k.slabs_full c));
  slabs_partial = update k.slabs_partial c (s ∷ k.slabs_partial c);
}

not_partial :
    (k : Slabs) (i s : ℕ)
    → IsValid k
    → is_nil (k.free_list s) ≡ true
    → member s (k.slabs_partial i) ≡ false
not_partial k i s v h = elim (Bool-cases (member s (k.slabs_partial i))) [
  | inl e ↦ absurd (not_both h (v.partial i s e).1)
  | inr e ↦ e
]

reopened-Changes :
    (k : Slabs) (c s ptr : ℕ)
    → IsValid k
    → Held k c s ptr
    → is_nil (k.free_list s) ≡ true
    → Changes k (reopened c s ptr k) s
unfolding put_object reopened
reopened-Changes k c s ptr v h none_left =
    let k' = reopened c s ptr k in
    let list : k'.free_list s ≡ ptr ∷ k.free_list s =
      update_same k.free_list s (ptr ∷ k.free_list s) in
    let slab' : IsSlab k' c s =
      put-IsSlab k k' c s ptr refl refl refl (put_count k c s ptr v h) list h in
    record {
      start = refl;
      none_free = v.none_free;
      partial_once = λ i.
          update-Distinct k.slabs_partial c i (s ∷ k.slabs_partial c) v.partial_once
            (not_partial k c s v none_left, v.partial_once c);
      full_once = λ i.
          update-Distinct k.slabs_full c i (remove s (k.slabs_full c)) v.full_once
            (remove-Distinct s (k.slabs_full c) (v.full_once c));
      others = λ i t ne old.
          same-IsSlab k k' i t refl refl (λ n e l. refl) refl refl (ground (arith, ne))
            (ground (arith, ne)) old;
      free_same = λ t ne. ground (arith, ne);
      cache_same = λ t ne. refl;
      partial_same = λ i t ne. member-added k.slabs_partial c i s t ne;
      full_same = λ i t ne. member-removed k.slabs_full c i s t ne;
      partial_self = λ i m. elim (where_added k.slabs_partial c i s m) [
        | inl e ↦ (subst (λ j. IsSlab k' j s) (sym e) slab', ap is_nil list)
        | inr old ↦ absurd (not_both none_left (v.partial i s old).1)
      ];
      full_self = λ i m.
          let (ne, old) = where_removed k.slabs_full c i s (v.full_once c) m in
          absurd (ne (sym (v.full i s old).0.owner ∙ h.slab.owner));
    }

pub put_back :
    (k : Slabs) (c s ptr : ℕ)
    → IsValid k
    → Held k c s ptr
    → is_nil (k.free_list s) ≡ false
    → IsValid (put_object s ptr k) × TakenBack k ptr (put_object s ptr k)
unfolding put_object in_list
put_back k c s ptr v h more =
    let k' = put_object s ptr k in
    let ch = put-Changes k c s ptr v h more in
    let here = in_partial k c s ptr v h more in
    (
      after-IsValid k k' s v ch,
      put-TakenBack k k' c s ptr ch h h.slab.owner (ground (arith, here))
          (update_same k.free_list s (ptr ∷ k.free_list s)),
    )

pub reopened_back :
    (k : Slabs) (c s ptr : ℕ)
    → IsValid k
    → Held k c s ptr
    → is_nil (k.free_list s) ≡ true
    → IsValid (reopened c s ptr k) × TakenBack k ptr (reopened c s ptr k)
unfolding put_object reopened in_list
reopened_back k c s ptr v h none_left =
    let k' = reopened c s ptr k in
    let ch = reopened-Changes k c s ptr v h none_left in
    let here : member s (k'.slabs_partial c) ≡ true =
      ap (member s) (update_same k.slabs_partial c (s ∷ k.slabs_partial c))
      ∙ member-cons s s (k.slabs_partial c)
      ∙ ground arith in
    (
      after-IsValid k k' s v ch,
      put-TakenBack k k' c s ptr ch h h.slab.owner (ground (arith, here))
          (update_same k.free_list s (ptr ∷ k.free_list s)),
    )
