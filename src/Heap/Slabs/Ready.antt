-- ===== src/Heap/Slabs/Ready.antt =====
-- ready_slab, the part of heap.c's cache_alloc that sees to a partial slab: a new slab or no page.
use valerioedx.Base.{
  ℕ, ◌+◌, ◌*◌, ◌≤◌, ◌<◌, ◌≡◌, refl, ◌≢◌, ◌⊎◌, inl, inr, true, false, not, ◌&&◌, none, some, [],
  ◌==◌, member, arith, ap, sym, ◌∙◌, Bool-cases,
}
use valerioedx.Heap.{slab_page, Heap, page, is_free, alloc_pages_backend}
use valerioedx.Heap.Runs.{AllFree}
use valerioedx.Heap.Pages.{taken, alloc_pages_lem}
use valerioedx.Heap.Slabs.{Slabs, slab_size, objects_of, page_of, slab_init_page, ready_slab}
use valerioedx.Heap.Slabs.Moves.{update_same}
use valerioedx.Heap.Slabs.Valid.{IsValid, in_list, in_use_at, elsewhere_same}
use valerioedx.Heap.Slabs.Alloc.{in_use_on}
use valerioedx.Heap.Slabs.Fresh.{with_new, ready_equation, unlisted, new-IsSlab, with_new-Changes}

abbrev pub NoPageFree : Heap → Type 0
NoPageFree h = (n : ℕ) → n < h.total_pages → is_free (h.metadata n) ≡ false

pair_path : {A B : Type 0} (x : A × B) (a : A) (b : B) → x.0 ≡ a → x.1 ≡ b → x ≡ (a, b)
pair_path x a b e f = ap (λ z. (z, x.1)) e ∙ ap (λ z. (a, z)) f

-- Nothing is in use on a page that is free.
pub new_unused :
    (n x : ℕ) (k : Slabs)
    → IsValid k
    → is_free (k.heap.metadata n) ≡ true
    → page_of x ≡ k.heap.start_addr + n * page
    → in_use_at k x ≡ false
unfolding in_use_at
new_unused n x k v free here =
    let s = k.heap.start_addr + n * page in
    let out : in_list k (k.cache s) s ≡ false = unlisted k (k.cache s) n v free in
    ap
      (λ z.
        in_list k (k.cache z) z
        && member x (objects_of z (slab_size (k.cache z)))
        && not (member x (k.free_list z)))
      here
    ∙ ground (arith, out)

-- A new slab has no object in use.
pub with_new_same :
    (c n x : ℕ) (k : Slabs)
    → IsValid k
    → c < 8
    → n < k.heap.total_pages
    → is_free (k.heap.metadata n) ≡ true
    → k.slabs_partial c ≡ []
    → in_use_at (with_new c n k) x ≡ in_use_at k x
unfolding in_use_at with_new in_list member slab_init_page
with_new_same c n x k v small inside free ep =
    let s = k.heap.start_addr + n * page in
    let k' = with_new c n k in
    elim (Bool-cases (page_of x == s)) [
      | inl e ↦
          let here : page_of x ≡ s = ground (arith, e) in
          let old : in_use_at k x ≡ false = new_unused n x k v free here in
          let q = new-IsSlab c n k v small inside in
          let listed : in_list k' c s ≡ true = ground arith in
          let list : k'.free_list s ≡ objects_of s (slab_size c) =
            update_same k.free_list s (objects_of s (slab_size c)) in
          let new : in_use_at k' x
              ≡ (member x (objects_of s (slab_size c)) && not (member x (k'.free_list s))) =
            in_use_on k' c s x q.owner listed here in
          new
          ∙ ap (λ l. member x (objects_of s (slab_size c)) && not (member x l)) list
          ∙ ground arith
          ∙ sym old
      | inr e ↦
          let away : page_of x ≢ s = λ h. ground (arith, e, h) in
          elsewhere_same k k' s x (with_new-Changes c n k v small inside free ep) away
    ]

-- What ready_slab comes to where there is no partial slab.
abbrev pub NewOrNone : (c : ℕ) (k : Slabs) → Type 0
NewOrNone c k =
    ((ready_slab c k ≡ none) × NoPageFree k.heap)
    ⊎ ((n : ℕ) × (n < k.heap.total_pages)
        × (is_free (k.heap.metadata n) ≡ true)
        × (ready_slab c k ≡ some (with_new c n k)))

no_page : (h : Heap) → ((n : ℕ) → n + 1 ≤ h.total_pages → AllFree h.metadata n 1 → ⊥) → NoPageFree h
no_page h none_long n l = elim (Bool-cases (is_free (h.metadata n))) [
  | inl e ↦ absurd (
      none_long n (omega (arith, l)) (λ a lo hi.
        let same : n ≡ a = omega (arith, lo, hi) in
        ap (λ z. is_free (h.metadata z)) (sym same) ∙ e))
  | inr e ↦ e
]

pub ready_out : (c : ℕ) (k : Slabs) → IsValid k → k.slabs_partial c ≡ [] → NewOrNone c k
unfolding with_new slab_init_page
ready_out c k v ep =
    let r = alloc_pages_backend 1 slab_page k.heap in
    elim (alloc_pages_lem 1 slab_page k.heap (omega arith) v.not_null) [
      | inl (null, same, none_long) ↦
          let e = ready_equation c 0 k.heap k ep (v.none_free c) (pair_path r 0 k.heap null same) in
          inl (e, no_page k.heap none_long)
      | inr (n, at, inside, free, first, changed) ↦
          let s = k.heap.start_addr + n * page in
          let h' : Heap = record k.heap { metadata = taken n 1 slab_page k.heap.metadata } in
          let e = ready_equation c s h' k ep (v.none_free c) (pair_path r s h' at changed) in
          let pos : (s == 0) ≡ false = ground (arith, v.not_null) in
          inr (n, omega (arith, inside), free n (omega arith) (omega arith), e ∙ rw pos refl)
    ]
