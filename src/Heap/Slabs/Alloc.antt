-- ===== src/Heap/Slabs/Alloc.antt =====
-- cache_alloc takes an object that is not in use from the first partial slab.
use valerioedx.Base.{
  ℕ, ◌+◌, ◌*◌, ◌<◌, ◌≡◌, refl, inl, inr, true, false, not, ◌&&◌, List, ◌∷◌, length, if◌then◌else◌,
  update, member, remove, Distinct, remove-Distinct, arith, ap, sym, ◌∙◌, Bool-cases, subst,
}
use valerioedx.Heap.{page}
use valerioedx.Heap.Slabs.{Slabs, slab_size, objects_of, page_of, is_nil, take_object}
use valerioedx.Heap.Slabs.Moves.{
  update_same, not_both, update-Distinct, member-added, member-removed, where_added, where_removed,
  remove_first,
}
use valerioedx.Heap.Slabs.Objects.{num_objects}
use valerioedx.Heap.Slabs.Valid.{IsSlab, IsValid, in_list, in_use_at, same-IsSlab, Changes}

-- A slab with another list of free objects.
pub listed_anew :
    (k k' : Slabs) (i s : ℕ)
    → k'.heap ≡ k.heap
    → k'.cache s ≡ k.cache s
    → k'.magic s ≡ k.magic s
    → k'.in_use s + length (k'.free_list s) ≡ num_objects (slab_size i)
    → ((x : ℕ) → member x (k'.free_list s) ≡ true → member x (objects_of s (slab_size i)) ≡ true)
    → Distinct (k'.free_list s)
    → IsSlab k i s
    → IsSlab k' i s
listed_anew k k' i s heap owner mark counted inside distinct q = record {
  index = q.index;
  number = q.number;
  at = q.at ∙ ap (λ h. h.start_addr + q.number * page) (sym heap);
  inside = subst (λ h. q.number < h.total_pages) (sym heap) q.inside;
  taken = ap (λ h. h.metadata q.number) heap ∙ q.taken;
  owner = owner ∙ q.owner;
  marked = mark ∙ q.marked;
  counted = counted;
  free_objects = inside;
  distinct = distinct;
}

-- What is in use in a slab of a list.
pub in_use_on :
    (k : Slabs) (i s x : ℕ)
    → k.cache s ≡ i
    → in_list k i s ≡ true
    → page_of x ≡ s
    → in_use_at k x ≡ (member x (objects_of s (slab_size i)) && not (member x (k.free_list s)))
unfolding in_use_at
in_use_on k i s x owner listed e = rw (e, owner, listed) refl

-- The state after an object was taken from `s`, the first of the partial slabs, and that after the move
-- of `s` to the full ones.
unfoldable pub opened : (s : ℕ) (objs : List ℕ) → Slabs → Slabs
opened s objs k = record k {
  free_list = update k.free_list s objs;
  in_use = update k.in_use s (k.in_use s + 1);
}

unfoldable pub filled : (c s : ℕ) (slabs objs : List ℕ) → Slabs → Slabs
filled c s slabs objs k = record (opened s objs k) {
  slabs_partial = update k.slabs_partial c slabs;
  slabs_full = update k.slabs_full c (s ∷ k.slabs_full c);
}

pub take_equation :
    (c s obj : ℕ) (slabs objs : List ℕ) (k : Slabs)
    → k.slabs_partial c ≡ s ∷ slabs
    → k.free_list s ≡ obj ∷ objs
    → take_object c k ≡ (obj, if is_nil objs then filled c s slabs objs k else opened s objs k)
unfolding take_object filled opened
take_equation c s obj slabs objs k ep ef = rw (take_object, ep, ef) refl

-- The list of a slab without its first object.
pub rest-IsSlab :
    (k k' : Slabs) (c s obj : ℕ) (objs : List ℕ)
    → k'.heap ≡ k.heap
    → k'.cache s ≡ k.cache s
    → k'.magic s ≡ k.magic s
    → k'.in_use s ≡ k.in_use s + 1
    → k'.free_list s ≡ objs
    → k.free_list s ≡ obj ∷ objs
    → IsSlab k c s
    → IsSlab k' c s
unfolding member
rest-IsSlab k k' c s obj objs heap owner mark used new old q =
    let d : Distinct (obj ∷ objs) = subst Distinct old q.distinct in
    listed_anew k k' c s heap owner mark
      (omega (arith, used, ap length new, ap length old, q.counted))
      (λ x h.
        let before : member x (k.free_list s) ≡ true =
          ap (member x) old ∙ ground (arith, ap (member x) (sym new) ∙ h) in
        q.free_objects x before)
      (subst Distinct (sym new) d.1) q

pub first_partial :
    (k : Slabs) (c s : ℕ) (slabs : List ℕ)
    → IsValid k
    → k.slabs_partial c ≡ s ∷ slabs
    → IsSlab k c s × (is_nil (k.free_list s) ≡ false)
unfolding member
first_partial k c s slabs v e = v.partial c s (ap (member s) e ∙ ground arith)

not_full :
    (k : Slabs) (c i s : ℕ)
    → IsValid k
    → is_nil (k.free_list s) ≡ false
    → member s (k.slabs_full i) ≡ false
not_full k c i s v h = elim (Bool-cases (member s (k.slabs_full i))) [
  | inl e ↦ absurd (not_both (v.full i s e).1 h)
  | inr e ↦ e
]

pub opened-Changes :
    (c s obj : ℕ) (slabs objs : List ℕ) (k : Slabs)
    → IsValid k
    → k.slabs_partial c ≡ s ∷ slabs
    → k.free_list s ≡ obj ∷ objs
    → is_nil objs ≡ false
    → Changes k (opened s objs k) s
unfolding opened
opened-Changes c s obj slabs objs k v ep ef more =
    let q = first_partial k c s slabs v ep in
    let k' = opened s objs k in
    let slab' : IsSlab k' c s =
      rest-IsSlab k k' c s obj objs refl refl refl (ground arith) (ground arith) ef q.0 in
    record {
      start = refl;
      none_free = v.none_free;
      partial_once = v.partial_once;
      full_once = v.full_once;
      others = λ i t ne old.
          same-IsSlab k k' i t refl refl (λ n e l. refl) refl refl (ground (arith, ne))
            (ground (arith, ne)) old;
      free_same = λ t ne. ground (arith, ne);
      cache_same = λ t ne. refl;
      partial_same = λ i t ne. refl;
      full_same = λ i t ne. refl;
      partial_self = λ i h.
          let own : c ≡ i = sym q.0.owner ∙ (v.partial i s h).0.owner in
          (subst (λ j. IsSlab k' j s) own slab', ap is_nil (update_same k.free_list s objs) ∙ more);
      full_self = λ i h. absurd (not_both (v.full i s h).1 q.1);
    }

pub filled-Changes :
    (c s obj : ℕ) (slabs objs : List ℕ) (k : Slabs)
    → IsValid k
    → k.slabs_partial c ≡ s ∷ slabs
    → k.free_list s ≡ obj ∷ objs
    → is_nil objs ≡ true
    → Changes k (filled c s slabs objs k) s
unfolding filled opened
filled-Changes c s obj slabs objs k v ep ef none_left =
    let q = first_partial k c s slabs v ep in
    let k' = filled c s slabs objs k in
    let tail : remove s (k.slabs_partial c) ≡ slabs = remove_first s slabs (k.slabs_partial c) ep in
    let slab' : IsSlab k' c s =
      rest-IsSlab k k' c s obj objs refl refl refl (ground arith) (ground arith) ef q.0 in
    let absent : member s (k.slabs_full c) ≡ false = not_full k c c s v q.1 in
    record {
      start = refl;
      none_free = v.none_free;
      partial_once = λ i.
          update-Distinct k.slabs_partial c i slabs v.partial_once
            (subst Distinct tail (remove-Distinct s (k.slabs_partial c) (v.partial_once c)));
      full_once = λ i.
          update-Distinct k.slabs_full c i (s ∷ k.slabs_full c) v.full_once (absent, v.full_once c);
      others = λ i t ne old.
          same-IsSlab k k' i t refl refl (λ n e l. refl) refl refl (ground (arith, ne))
            (ground (arith, ne)) old;
      free_same = λ t ne. ground (arith, ne);
      cache_same = λ t ne. refl;
      partial_same = λ i t ne.
          ap (λ xs. member t (update k.slabs_partial c xs i)) (sym tail)
          ∙ member-removed k.slabs_partial c i s t ne;
      full_same = λ i t ne. member-added k.slabs_full c i s t ne;
      partial_self = λ i h.
          let (ne, old) =
            where_removed k.slabs_partial c i s (v.partial_once c)
              (ap (λ xs. member s (update k.slabs_partial c xs i)) tail ∙ h) in
          absurd (ne (sym (v.partial i s old).0.owner ∙ q.0.owner));
      full_self = λ i h. elim (where_added k.slabs_full c i s h) [
        | inl e ↦ (
          subst (λ j. IsSlab k' j s) (sym e) slab',
          ap is_nil (update_same k.free_list s objs) ∙ none_left,
        )
        | inr old ↦ absurd (not_both (v.full i s old).1 q.1)
      ];
    }
