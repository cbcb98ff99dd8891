-- ===== src/PageTables/Walks.antt =====
-- What vmm_map_page and vmm_get_pte_from_table do to the translation of addresses.
use valerioedx.Base.{
  ℕ, ◌%◌, ◌^◌, ◌<◌, ◌≡◌, refl, ◌≢◌, ◌⊎◌, inl, inr, true, false, List, [], ◌∷◌, none, some, update,
  arith, ap, ◌∙◌, Bool-cases, subst,
}
use valerioedx.PageTables.{
  Tables, is_entry, address_in, index1, index2, index3, new_table, get_next_table,
  vmm_get_pte_from_table,
}
use valerioedx.PageTables.Tree.{
  walk, Place, middle, bottom, Fresh, IsTree, middle-IsTree, walk-middle, bottom-IsTree,
  walk-bottom, address_in-table_entry, is_entry-table_entry,
}

-- The entry that vmm_get_pte_from_table leads to, 0 where it returns NULL.
pub entry_of : (root virt : ℕ) → Tables → ℕ
entry_of root virt s = elim (vmm_get_pte_from_table root virt s) [
  | none ↦ 0
  | some place ↦ s.ram place.0 place.1
]

pub entry_of-walk :
    (root virt : ℕ) (s : Tables)
    → root ≢ 0
    → entry_of root virt s ≡ walk root (index1 virt) (index2 virt) (index3 virt) s.ram
unfolding entry_of vmm_get_pte_from_table walk
entry_of-walk root virt s ne = ground arith

-- A table was reached below another, and made if need be.
pub record Reached (root m i n : ℕ) (here : Place) (s s' : Tables) : Type 0 where
  pub place : ℕ → Place
  pub tree : IsTree root place s'
  pub there : place n ≡ here
  pub entry : is_entry (s'.ram m i) ≡ true
  pub leads : address_in (s'.ram m i) ≡ n
  pub same : (i' j k : ℕ) → walk root i' j k s'.ram ≡ walk root i' j k s.ram

abbrev pub OutOf : (n : ℕ) (s s' : Tables) → Type 0
OutOf n s s' = (n ≡ 0) × (s' ≡ s) × (s.frames ≡ [])

List-cases {ℓ} : {A : Type ℓ} (l : List A) → (l ≡ []) ⊎ ((x : A) × (xs : List A) × (l ≡ x ∷ xs))
List-cases [] = inl refl
List-cases (x ∷ xs) = inr (x, xs, refl)

pub next_cases :
    (m i : ℕ) (s : Tables)
    → ((is_entry (s.ram m i) ≡ true) × (get_next_table m i s ≡ (address_in (s.ram m i), s)))
      ⊎ ((s.frames ≡ []) × (get_next_table m i s ≡ (0, s)))
      ⊎ ((f : ℕ) × (fs : List ℕ) × (s.frames ≡ f ∷ fs)
          × (is_entry (s.ram m i) ≡ false)
          × (get_next_table m i s ≡ new_table m i (f ∷ fs) s))
unfolding get_next_table new_table
next_cases m i s = elim (Bool-cases (is_entry (s.ram m i))) [
  | inl old ↦ inl (old, rw old refl)
  | inr missing ↦ inr (elim (List-cases s.frames) [
    | inl e ↦ inl (e, rw missing (ap (λ l. new_table m i l s) e ∙ no_frame m i s))
    | inr (f, fs, e) ↦ inr (f, fs, e, missing, rw missing (ap (λ l. new_table m i l s) e))
  ])
]
  where
    no_frame : (m i : ℕ) (s : Tables) → new_table m i [] s ≡ (0, s)
    no_frame m i s = refl

made_entry :
    (m i f : ℕ) (fs : List ℕ) (s : Tables)
    → f % 4096 ≡ 0
    → f < 2 ^ 48
    → let (n, s') = new_table m i (f ∷ fs) s in
      (n ≡ f) × (is_entry (s'.ram m i) ≡ true) × (address_in (s'.ram m i) ≡ n)
unfolding new_table
made_entry m i f fs s h k =
    (refl, ground (arith, is_entry-table_entry f h), ground (arith, address_in-table_entry f h k))

pub first_level :
    (root i : ℕ) (place : ℕ → Place) (s : Tables)
    → IsTree root place s
    → let (n, s') = get_next_table root i s in OutOf n s s' ⊎ Reached root root i n (middle i) s s'
first_level root i place s t = elim (next_cases root i s) [
  | inl (old, q) ↦ rw q (
      inr (record {
        place = place;
        tree = t;
        there = t.below_top i old;
        entry = old;
        leads = refl;
        same = λ i' j k. refl;
      }))
  | inr (inl (e, q)) ↦ rw q (inl (refl, refl, e))
  | inr (inr (f, fs, e, missing, q)) ↦
      let fr : Fresh place (f ∷ fs) = subst (Fresh place) e t.fresh in
      let made = made_entry root i f fs s fr.2 fr.3 in
      rw q (
        inr (record {
          place = update place f (middle i);
          tree = middle-IsTree root i f fs place s t e missing;
          there = rw (made.0) (ground arith);
          entry = made.1;
          leads = made.2;
          same = λ i' j k. walk-middle root i f fs place s i' j k t e missing;
        }))
]

made_elsewhere :
    (root m j f : ℕ) (fs : List ℕ) (s : Tables) (k : ℕ)
    → root ≢ f
    → m ≢ root
    → (new_table m j (f ∷ fs) s).1.ram root k ≡ s.ram root k
unfolding new_table
made_elsewhere root m j f fs s k apart not_top = ground (arith, apart, not_top)

-- The second level, below a table that the first level leads to.
pub second_level :
    (root m i j : ℕ) (place : ℕ → Place) (s : Tables)
    → IsTree root place s
    → place m ≡ middle i
    → let (n, s') = get_next_table m j s in
      OutOf n s s'
      ⊎ (Reached root m j n (bottom i j) s s' × ((k : ℕ) → s'.ram root k ≡ s.ram root k))
second_level root m i j place s t pm = elim (next_cases m j s) [
  | inl (old, q) ↦ rw q (
      inr (
        record {
          place = place;
          tree = t;
          there = t.below_middle m i j pm old;
          entry = old;
          leads = refl;
          same = λ i' j' k. refl;
        },
        λ k. refl,
      ))
  | inr (inl (e, q)) ↦ rw q (inl (refl, refl, e))
  | inr (inr (f, fs, e, missing, q)) ↦
      let fr : Fresh place (f ∷ fs) = subst (Fresh place) e t.fresh in
      let made = made_entry m j f fs s fr.2 fr.3 in
      rw q (
        inr (
          record {
            place = update place f (bottom i j);
            tree = bottom-IsTree root m i j f fs place s t pm e missing;
            there = rw (made.0) (ground arith);
            entry = made.1;
            leads = made.2;
            same = λ i' j' k. walk-bottom root m i j f fs place s i' j' k t pm e missing;
          },
          λ k.
              made_elsewhere root m j f fs s k (λ h. cc (t.at_top, fr.0, ap place h))
                (λ h. cc (pm, t.at_top, ap place h)),
        ))
]
