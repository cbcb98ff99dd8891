-- ===== src/Heap/Slabs/Valid.antt =====
-- What holds of the slabs between the calls, and which objects are in use.
use valerioedx.Base.{
  ℕ, ◌+◌, ◌*◌, ◌%◌, ◌<◌, ◌≡◌, refl, ◌≢◌, inl, inr, Bool, true, false, not, ◌&&◌, ◌||◌, [], length,
  ◌==◌, member, Distinct, arith, ap, sym, ◌∙◌, Bool-cases, subst,
}
use valerioedx.Heap.{slab_page, page}
use valerioedx.Heap.Slabs.{Slabs, slab_size, objects_of, page_of, is_nil}
use valerioedx.Heap.Slabs.Objects.{num_objects}

-- The page of a slab of the cache `i`, with the objects that are free.
pub record IsSlab (k : Slabs) (i s : ℕ) : Type 0 where
  pub index : i < 8
  pub number : ℕ
  pub at : s ≡ k.heap.start_addr + number * page
  pub inside : number < k.heap.total_pages
  pub taken : k.heap.metadata number ≡ record { kind = slab_page; count = 1 }
  pub owner : k.cache s ≡ i
  pub marked : k.magic s ≡ true
  pub counted : k.in_use s + length (k.free_list s) ≡ num_objects (slab_size i)
  pub free_objects :
      (x : ℕ) → member x (k.free_list s) ≡ true → member x (objects_of s (slab_size i)) ≡ true
  pub distinct : Distinct (k.free_list s)

-- The slabs of each list, the partial ones with a free object, the full ones without.
pub record IsValid (k : Slabs) : Type 0 where
  pub aligned : k.heap.start_addr % 4096 ≡ 0
  pub not_null : 0 < k.heap.start_addr
  pub none_free : (i : ℕ) → k.slabs_free i ≡ []
  pub partial_once : (i : ℕ) → Distinct (k.slabs_partial i)
  pub full_once : (i : ℕ) → Distinct (k.slabs_full i)
  pub partial :
      (i s : ℕ)
      → member s (k.slabs_partial i) ≡ true
      → IsSlab k i s × (is_nil (k.free_list s) ≡ false)
  pub full :
      (i s : ℕ) → member s (k.slabs_full i) ≡ true → IsSlab k i s × (is_nil (k.free_list s) ≡ true)

unfoldable pub in_list : Slabs → (i s : ℕ) → Bool
in_list k i s = member s (k.slabs_partial i) || member s (k.slabs_full i)

-- An object that kmalloc has given out.
unfoldable pub in_use_at : Slabs → ℕ → Bool
in_use_at k x =
    let s = page_of x in
    in_list k (k.cache s) s
    && member x (objects_of s (slab_size (k.cache s)))
    && not (member x (k.free_list s))

pub listed-IsSlab : (k : Slabs) (i s : ℕ) → IsValid k → in_list k i s ≡ true → IsSlab k i s
unfolding in_list
listed-IsSlab k i s v h = elim (Bool-cases (member s (k.slabs_partial i))) [
  | inl p ↦ (v.partial i s p).0
  | inr np ↦ (v.full i s (ground (arith, h, np))).0
]

-- A slab stands on a page boundary, not at NULL.
pub slab_aligned : (k : Slabs) (i s : ℕ) → IsValid k → IsSlab k i s → (s % 4096 ≡ 0) × (0 < s)
slab_aligned k i s v q = (omega (arith, q.at, v.aligned), omega (arith, q.at, v.not_null))

-- A slab whose page and header are the same is one still.
pub same-IsSlab :
    (k k' : Slabs) (i s : ℕ)
    → k'.heap.start_addr ≡ k.heap.start_addr
    → k'.heap.total_pages ≡ k.heap.total_pages
    → ((n : ℕ)
        → s ≡ k.heap.start_addr + n * page
        → n < k.heap.total_pages
        → k'.heap.metadata n ≡ k.heap.metadata n)
    → k'.cache s ≡ k.cache s
    → k'.magic s ≡ k.magic s
    → k'.in_use s ≡ k.in_use s
    → k'.free_list s ≡ k.free_list s
    → IsSlab k i s
    → IsSlab k' i s
same-IsSlab k k' i s start total pages owner mark used free q = record {
  index = q.index;
  number = q.number;
  at = omega (arith, q.at, start);
  inside = omega (arith, q.inside, total);
  taken = pages q.number q.at q.inside ∙ q.taken;
  owner = owner ∙ q.owner;
  marked = mark ∙ q.marked;
  counted = omega (arith, used, ap length free, q.counted);
  free_objects = λ x h. q.free_objects x (ap (member x) (sym free) ∙ h);
  distinct = subst Distinct (sym free) q.distinct;
}

-- A change of one slab: the others stay as they are, and it is in its lists as it should.
pub record Changes (k k' : Slabs) (s : ℕ) : Type 0 where
  pub start : k'.heap.start_addr ≡ k.heap.start_addr
  pub none_free : (i : ℕ) → k'.slabs_free i ≡ []
  pub partial_once : (i : ℕ) → Distinct (k'.slabs_partial i)
  pub full_once : (i : ℕ) → Distinct (k'.slabs_full i)
  pub others : (i t : ℕ) → t ≢ s → IsSlab k i t → IsSlab k' i t
  pub free_same : (t : ℕ) → t ≢ s → k'.free_list t ≡ k.free_list t
  pub cache_same : (t : ℕ) → t ≢ s → k'.cache t ≡ k.cache t
  pub partial_same :
      (i t : ℕ) → t ≢ s → member t (k'.slabs_partial i) ≡ member t (k.slabs_partial i)
  pub full_same : (i t : ℕ) → t ≢ s → member t (k'.slabs_full i) ≡ member t (k.slabs_full i)
  pub partial_self :
      (i : ℕ)
      → member s (k'.slabs_partial i) ≡ true
      → IsSlab k' i s × (is_nil (k'.free_list s) ≡ false)
  pub full_self :
      (i : ℕ) → member s (k'.slabs_full i) ≡ true → IsSlab k' i s × (is_nil (k'.free_list s) ≡ true)

pub after-IsValid : (k k' : Slabs) (s : ℕ) → IsValid k → Changes k k' s → IsValid k'
after-IsValid k k' s v c = record {
  aligned = ap (λ x. x % 4096) c.start ∙ v.aligned;
  not_null = omega (arith, c.start, v.not_null);
  none_free = c.none_free;
  partial_once = c.partial_once;
  full_once = c.full_once;
  partial = λ i t h. elim (Bool-cases (t == s)) [
    | inl e ↦
        let q : s ≡ t = ground (arith, e) in
        subst (λ x. IsSlab k' i x × (is_nil (k'.free_list x) ≡ false)) q
          (c.partial_self i (ap (λ x. member x (k'.slabs_partial i)) q ∙ h))
    | inr ne ↦
        let d : t ≢ s = λ q. ground (arith, ne, q) in
        let old = v.partial i t (sym (c.partial_same i t d) ∙ h) in
        (c.others i t d old.0, ap is_nil (c.free_same t d) ∙ old.1)
  ];
  full = λ i t h. elim (Bool-cases (t == s)) [
    | inl e ↦
        let q : s ≡ t = ground (arith, e) in
        subst (λ x. IsSlab k' i x × (is_nil (k'.free_list x) ≡ true)) q
          (c.full_self i (ap (λ x. member x (k'.slabs_full i)) q ∙ h))
    | inr ne ↦
        let d : t ≢ s = λ q. ground (arith, ne, q) in
        let old = v.full i t (sym (c.full_same i t d) ∙ h) in
        (c.others i t d old.0, ap is_nil (c.free_same t d) ∙ old.1)
  ];
}

-- An object of another slab is in use as before.
pub elsewhere_same :
    (k k' : Slabs) (s x : ℕ) → Changes k k' s → page_of x ≢ s → in_use_at k' x ≡ in_use_at k x
unfolding in_use_at in_list
elsewhere_same k k' s x c ne =
    let t = page_of x in
    let i = k.cache t in
    rw (c.cache_same t ne, c.partial_same i t ne, c.full_same i t ne, c.free_same t ne) refl
