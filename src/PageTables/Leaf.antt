-- ===== src/PageTables/Leaf.antt =====
-- The bits of the entry of a page, against a table of what each bit stands for.
use valerioedx.Base.{
  ℕ, zero, suc, ◌+◌, ◌*◌, ◌/◌, ◌%◌, ◌≡◌, refl, inl, inr, Bool, true, false, ◌&&◌, ◌||◌, not, ◌==◌,
  if◌then◌else◌, arith, ap, ◌∙◌, Bool-cases,
}
use valerioedx.PageTables.{has, with_bit, memory_kind, user_rights, kernel_rights, leaf_entry}

has-with_bit : (bit w j : ℕ) → has (with_bit bit w) j ≡ (has w j || (j == bit))
unfolding has with_bit
has-with_bit zero w zero = ground arith
has-with_bit zero w (suc j) =
    let half : with_bit 0 w / 2 ≡ w / 2 = ground arith in ap (λ x. has x j) half ∙ ground arith
has-with_bit (suc bit) w zero = ground arith
has-with_bit (suc bit) w (suc j) =
    let half : (with_bit bit (w / 2) * 2 + w % 2) / 2 ≡ with_bit bit (w / 2) = omega arith in
    ap (λ x. has x j) half ∙ has-with_bit bit (w / 2) j ∙ ground arith

-- What `flags` ask for.
abbrev pub is_device : ℕ → Bool
is_device flags = has flags 3

abbrev pub is_user : ℕ → Bool
is_user flags = has flags 1

abbrev pub is_cow : ℕ → Bool
is_cow flags = is_user flags && has flags 55

-- Which bits of an entry are set besides those of the address: it is valid, a page, accessed and inner
-- shareable, and of normal memory unless it is of a device. The user reaches it where VM_USER is given.
-- It is read-only without VM_WRITABLE, or for the user while it is shared by copy-on-write, which is
-- marked. The kernel does not execute the memory of a device; the user executes only its own pages,
-- those of devices and with VM_NO_EXEC left out.
abbrev pub leaf_bit : (flags j : ℕ) → Bool
leaf_bit flags j =
    ((j == 0) || ((j == 1) || ((j == 8) || ((j == 9) || (j == 10)))))
    || (((j == 2) && not (is_device flags))
        || (((j == 6) && is_user flags)
            || (((j == 7) && (not (has flags 0) || is_cow flags))
                || (((j == 53) && is_device flags)
                    || (((j == 54) && (is_device flags || (not (is_user flags) || has flags 2)))
                        || ((j == 55) && is_cow flags))))))

-- Every bit of an entry is that of the address or set for the flags.
abbrev pub IsLeaf : (phys flags e : ℕ) → Type 0
IsLeaf phys flags e = (j : ℕ) → has e j ≡ (has phys j || leaf_bit flags j)

kind_bit :
    (device : Bool) (w j : ℕ)
    → has (memory_kind device w) j
      ≡ (has w j || (((j == 2) && not device) || (((j == 53) && device) || ((j == 54) && device))))
unfolding memory_kind
kind_bit true w j = ground (arith, has-with_bit 54 (with_bit 53 w) j, has-with_bit 53 w j)
kind_bit false w j = ground (arith, has-with_bit 2 w j)

user_bit :
    (cow writable : Bool) (w j : ℕ)
    → has (user_rights cow writable w) j
      ≡ (has w j || ((j == 6) || (((j == 7) && (not writable || cow)) || ((j == 55) && cow))))
unfolding user_rights
user_bit true writable w j = ground (
  arith,
  has-with_bit 55 (with_bit 7 (with_bit 6 w)) j,
  has-with_bit 7 (with_bit 6 w) j,
  has-with_bit 6 w j,
)
user_bit false true w j = ground (arith, has-with_bit 6 w j)
user_bit false false w j = ground (arith, has-with_bit 7 (with_bit 6 w) j, has-with_bit 6 w j)

kernel_bit :
    (writable : Bool) (w j : ℕ)
    → has (kernel_rights writable w) j ≡ (has w j || ((j == 7) && not writable))
unfolding kernel_rights
kernel_bit true w j = ground arith
kernel_bit false w j = ground (arith, has-with_bit 7 w j)

page_bit :
    (w j : ℕ)
    → has (with_bit 9 (with_bit 8 (with_bit 10 (with_bit 0 (with_bit 1 w))))) j
      ≡ (has w j || ((j == 0) || ((j == 1) || ((j == 8) || ((j == 9) || (j == 10))))))
page_bit w j =
    has-with_bit 9 (with_bit 8 (with_bit 10 (with_bit 0 (with_bit 1 w)))) j
    ∙ ap (λ b. b || (j == 9))
        (has-with_bit 8 (with_bit 10 (with_bit 0 (with_bit 1 w))) j
          ∙ ap (λ b. b || (j == 8))
              (has-with_bit 10 (with_bit 0 (with_bit 1 w)) j
                ∙ ap (λ b. b || (j == 10))
                    (has-with_bit 0 (with_bit 1 w) j
                      ∙ ap (λ b. b || (j == 0)) (has-with_bit 1 w j))))
    ∙ order (has w j) (j == 0) (j == 1) (j == 8) (j == 9) (j == 10)
  where
    order :
        (w a b c d e : Bool)
        → (((((w || b) || a) || e) || c) || d) ≡ (w || (a || (b || (c || (d || e)))))
    order true a b c d e = refl
    order false true b c d e = ground arith
    order false false true c d e = ground arith
    order false false false c d e = ground arith

never_bit :
    (never : Bool) (w j : ℕ)
    → has (if never then with_bit 54 w else w) j ≡ (has w j || ((j == 54) && never))
never_bit true w j = ground (arith, has-with_bit 54 w j)
never_bit false w j = ground arith

user_order :
    (w p a2 a6 a7 a53 a54 a55 device never writable cow : Bool)
    → ((((w || p) || ((a2 && not device) || ((a53 && device) || (a54 && device))))
          || (a54 && never))
        || (a6 || ((a7 && (not writable || cow)) || (a55 && cow))))
      ≡ (w
          || (p
              || ((a2 && not device)
                  || ((a6 && true)
                      || ((a7 && (not writable || cow))
                          || ((a53 && device)
                              || ((a54 && (device || (false || never))) || (a55 && cow))))))))
user_order true p a2 a6 a7 a53 a54 a55 device never writable cow = refl
user_order false true a2 a6 a7 a53 a54 a55 device never writable cow = refl
user_order false false a2 a6 a7 a53 a54 a55 device never writable cow = ground arith

kernel_order :
    (w p a2 a6 a7 a53 a54 a55 device never writable : Bool)
    → ((((w || p) || ((a2 && not device) || ((a53 && device) || (a54 && device)))) || a54)
        || (a7 && not writable))
      ≡ (w
          || (p
              || ((a2 && not device)
                  || ((a6 && false)
                      || ((a7 && (not writable || false))
                          || ((a53 && device)
                              || ((a54 && (device || (true || never))) || (a55 && false))))))))
kernel_order true p a2 a6 a7 a53 a54 a55 device never writable = refl
kernel_order false true a2 a6 a7 a53 a54 a55 device never writable = refl
kernel_order false false a2 a6 a7 a53 a54 a55 device never writable = ground arith

-- The bits of `vmm_map_page`'s entry are those of the table, whatever the address.
pub leaf_entry-IsLeaf : (phys flags : ℕ) → IsLeaf phys flags (leaf_entry phys flags)
unfolding leaf_entry
leaf_entry-IsLeaf phys flags j =
    let page = with_bit 9 (with_bit 8 (with_bit 10 (with_bit 0 (with_bit 1 phys)))) in
    let entry = memory_kind (has flags 3) page in
    let pages = ((j == 0) || ((j == 1) || ((j == 8) || ((j == 9) || (j == 10))))) in
    let kinds =
      (((j == 2) && not (has flags 3))
        || (((j == 53) && has flags 3) || ((j == 54) && has flags 3))) in
    let users =
      ((j == 6)
        || (((j == 7) && (not (has flags 0) || has flags 55)) || ((j == 55) && has flags 55))) in
    let kind = kind_bit (has flags 3) page j ∙ ap (λ b. b || kinds) (page_bit phys j) in
    elim (Bool-cases (has flags 1)) [
      | inl user ↦ rw user (
          user_bit (has flags 55) (has flags 0) (if has flags 2 then with_bit 54 entry else entry) j
          ∙ ap (λ b. b || users)
              (never_bit (has flags 2) entry j ∙ ap (λ b. b || ((j == 54) && has flags 2)) kind)
          ∙ user_order (has phys j) pages (j == 2) (j == 6) (j == 7) (j == 53) (j == 54) (j == 55)
              (has flags 3) (has flags 2) (has flags 0) (has flags 55))
      | inr kernel ↦ rw kernel (
          kernel_bit (has flags 0) (with_bit 54 entry) j
          ∙ ap (λ b. b || ((j == 7) && not (has flags 0)))
              (has-with_bit 54 entry j ∙ ap (λ b. b || (j == 54)) kind)
          ∙ kernel_order (has phys j) pages (j == 2) (j == 6) (j == 7) (j == 53) (j == 54) (j == 55)
              (has flags 3) (has flags 2) (has flags 0))
    ]
