-- ===== src/Heap/Slabs/Objects.antt =====
-- The objects of a slab lie in its page and do not overlap.
use valerioedx.Base.{
  ℕ, zero, suc, ◌+◌, ◌-◌, ◌*◌, ◌/◌, ◌%◌, ◌≤◌, ◌<◌, ◌≡◌, refl, ◌≢◌, ◌⊎◌, inl, inr, true, length,
  ◌==◌, member, Distinct, arith, ap, sym, ◌∙◌, Bool-cases,
}
use valerioedx.Heap.{page}
use valerioedx.Heap.Slabs.{slab_size, slab_header, align_up, slab_objects, objects_of, page_of}
use native.Mathlib.Nat.{suc-mul, div-add-mod', mod-lt, mul-le-mul_left, mul-one}

length-slab_objects : (n c size : ℕ) → length (slab_objects n c size) ≡ n
unfolding slab_objects
length-slab_objects zero c size = refl
length-slab_objects (suc n) c size = ap suc (length-slab_objects n (c + size) size)

object_bounds :
    (n c size x : ℕ) → member x (slab_objects n c size) ≡ true → (c ≤ x) × (x + size ≤ c + n * size)
unfolding slab_objects member
object_bounds zero c size x h = cc h
object_bounds (suc n) c size x h = elim (Bool-cases (c == x)) [
  | inl e ↦ (ground (arith, e), ground (arith, e, suc-mul n size))
  | inr ne ↦
      let (lo, hi) = object_bounds n (c + size) size x (ground (arith, h, ne)) in
      (omega (arith, lo), omega (arith, hi, suc-mul n size))
]

first_bounds :
    (n c size x y : ℕ) → c ≡ x → member y (slab_objects n (c + size) size) ≡ true → x + size ≤ y
first_bounds n c size x y e h = omega (arith, object_bounds n (c + size) size y h, e)

objects_apart :
    (n c size x y : ℕ)
    → member x (slab_objects n c size) ≡ true
    → member y (slab_objects n c size) ≡ true
    → x ≢ y
    → (x + size ≤ y) ⊎ (y + size ≤ x)
unfolding slab_objects member
objects_apart zero c size x y h k ne = cc h
objects_apart (suc n) c size x y h k ne = elim (Bool-cases (c == x)) [
  | inl e ↦ inl (first_bounds n c size x y (ground (arith, e)) (ground (arith, k, ne, e)))
  | inr nx ↦ elim (Bool-cases (c == y)) [
    | inl e ↦ inr (first_bounds n c size y x (ground (arith, e)) (ground (arith, h, nx)))
    | inr ny ↦
        objects_apart n (c + size) size x y (ground (arith, h, nx)) (ground (arith, k, ny)) ne
  ]
]

slab_objects-Distinct : (n c size : ℕ) → 0 < size → Distinct (slab_objects n c size)
unfolding slab_objects
slab_objects-Distinct zero c size h = tt
slab_objects-Distinct (suc n) c size h = (
  elim (Bool-cases (member c (slab_objects n (c + size) size))) [
    | inl e ↦ absurd (omega (arith, h, object_bounds n (c + size) size c e))
    | inr e ↦ e
  ],
  slab_objects-Distinct n (c + size) size h,
)

-- Every size is one of the table.
pub size_bounds : (i : ℕ) → i < 8 → (16 ≤ slab_size i) × (slab_size i ≤ 2048)
size_bounds zero h = (omega arith, omega arith)
size_bounds (suc zero) h = (omega arith, omega arith)
size_bounds (suc (suc zero)) h = (omega arith, omega arith)
size_bounds (suc (suc (suc zero))) h = (omega arith, omega arith)
size_bounds (suc (suc (suc (suc zero)))) h = (omega arith, omega arith)
size_bounds (suc (suc (suc (suc (suc zero))))) h = (omega arith, omega arith)
size_bounds (suc (suc (suc (suc (suc (suc zero)))))) h = (omega arith, omega arith)
size_bounds (suc (suc (suc (suc (suc (suc (suc zero))))))) h = (omega arith, omega arith)
size_bounds (suc (suc (suc (suc (suc (suc (suc (suc i)))))))) h = absurd (omega (arith, h))

abbrev pub num_objects : ℕ → ℕ
num_objects size = 4056 / size

start_of : (base : ℕ) → base % 4096 ≡ 0 → align_up (base + slab_header) 8 ≡ base + 40
unfolding align_up
start_of base h = omega (arith, h)

pub objects_lem :
    (base size : ℕ)
    → base % 4096 ≡ 0
    → objects_of base size ≡ slab_objects (num_objects size) (base + 40) size
objects_lem base size h =
    let rest : page - (base + 40 - base) ≡ 4056 = omega arith in rw (start_of base h, rest) refl

fits : (size : ℕ) → num_objects size * size ≤ 4056
fits size = omega (arith, div-add-mod' 4056 size)

pub object_inside :
    (base size x : ℕ)
    → base % 4096 ≡ 0
    → member x (objects_of base size) ≡ true
    → (base + 40 ≤ x) × (x + size ≤ base + 4096)
object_inside base size x h m =
    let m' : member x (slab_objects (num_objects size) (base + 40) size) ≡ true =
      ap (member x) (sym (objects_lem base size h)) ∙ m in
    let (lo, hi) = object_bounds (num_objects size) (base + 40) size x m' in
    (lo, omega (arith, hi, fits size))

pub object_page :
    (base size x : ℕ)
    → base % 4096 ≡ 0
    → 0 < size
    → member x (objects_of base size) ≡ true
    → page_of x ≡ base
object_page base size x h p m =
    let (lo, hi) = object_inside base size x h m in omega (arith, h, lo, hi, p)

pub slab_apart :
    (base size x y : ℕ)
    → base % 4096 ≡ 0
    → member x (objects_of base size) ≡ true
    → member y (objects_of base size) ≡ true
    → x ≢ y
    → (x + size ≤ y) ⊎ (y + size ≤ x)
slab_apart base size x y h m m' ne =
    let e = objects_lem base size h in
    objects_apart (num_objects size) (base + 40) size x y (ap (member x) (sym e) ∙ m)
      (ap (member y) (sym e) ∙ m') ne

pub objects_of-Distinct :
    (base size : ℕ) → base % 4096 ≡ 0 → 0 < size → Distinct (objects_of base size)
objects_of-Distinct base size h p =
    rw (objects_lem base size h) (slab_objects-Distinct (num_objects size) (base + 40) size p)

pub length-objects_of :
    (base size : ℕ) → base % 4096 ≡ 0 → length (objects_of base size) ≡ num_objects size
length-objects_of base size h =
    ap length (objects_lem base size h) ∙ length-slab_objects (num_objects size) (base + 40) size

some_of : (q s r : ℕ) → q * s + r ≡ 4056 → r < s → 1 ≤ s → s ≤ 2048 → (0 < q) × (q ≤ 4056)
some_of zero s r e h l u = absurd (omega (arith, e, h, u))
some_of (suc q) s r e h l u =
    (omega arith, omega (arith, e, mul-le-mul_left (suc q) l, mul-one (suc q)))

-- A slab has an object at least.
pub some_objects :
    (i : ℕ) → i < 8 → (0 < num_objects (slab_size i)) × (num_objects (slab_size i) ≤ 4056)
some_objects i h =
    let size = slab_size i in
    let (lo, hi) = size_bounds i h in
    let pos : 0 < size = omega (arith, lo) in
    some_of (num_objects size) size (4056 % size) (div-add-mod' 4056 size) (mod-lt 4056 pos) pos hi
