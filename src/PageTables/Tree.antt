-- ===== src/PageTables/Tree.antt =====
-- The tables form a tree, and making a table changes no translation.
use valerioedx.Base.{
  ℕ, ◌%◌, ◌^◌, ◌<◌, ◌≡◌, ◌≢◌, true, false, not, List, [], ◌∷◌, if◌then◌else◌, update, arith, ap,
  subst,
}
use valerioedx.PageTables.{Tables, is_entry, address_in, table_entry, new_table}

-- The entry for a page in the walk by three indices, 0 where a table is missing.
unfoldable pub walk : (root i j k : ℕ) → (ℕ → ℕ → ℕ) → ℕ
walk root i j k ram =
    let e1 = ram root i in
    let e2 = ram (address_in e1) j in
    if not (is_entry e1) then 0 else if not (is_entry e2) then 0 else ram (address_in e2) k

-- Where a table hangs in the tree.
pub data Place : Type 0 where
  nowhere top : Place
  middle : ℕ → Place
  bottom : ℕ → ℕ → Place

abbrev pub ApartFrom : ℕ → List ℕ → Type 0
ApartFrom f [] = Unit {0}
ApartFrom f (g ∷ gs) = (f ≢ g) × ApartFrom f gs

-- Frames that hang nowhere, each once, that are pages of memory.
abbrev pub Fresh : (ℕ → Place) → List ℕ → Type 0
Fresh place [] = Unit {0}
Fresh place (f ∷ fs) =
    (place f ≡ nowhere) × (f ≢ 0) × (f % 4096 ≡ 0) × (f < 2 ^ 48) × ApartFrom f fs × Fresh place fs

-- Every table hangs at one place, and the frames to come hang nowhere.
pub record IsTree (root : ℕ) (place : ℕ → Place) (s : Tables) : Type 0 where
  pub at_top : place root ≡ top
  pub no_null : place 0 ≡ nowhere
  pub below_top :
      (i : ℕ) → is_entry (s.ram root i) ≡ true → place (address_in (s.ram root i)) ≡ middle i
  pub below_middle :
      (t i j : ℕ)
      → place t ≡ middle i
      → is_entry (s.ram t j) ≡ true
      → place (address_in (s.ram t j)) ≡ bottom i j
  pub fresh : Fresh place s.frames

pub address_in-table_entry : (f : ℕ) → f % 4096 ≡ 0 → f < 2 ^ 48 → address_in (table_entry f) ≡ f
address_in-table_entry f h k = omega arith

pub is_entry-table_entry : (f : ℕ) → f % 4096 ≡ 0 → is_entry (table_entry f) ≡ true
is_entry-table_entry f h = ground arith

-- The frames behind the first still hang nowhere when the first is hung up.
behind-Fresh :
    (place : ℕ → Place) (f : ℕ) (x : Place) (fs : List ℕ)
    → ApartFrom f fs
    → Fresh place fs
    → Fresh (update place f x) fs
behind-Fresh place f x [] a h = tt
behind-Fresh place f x (g ∷ gs) a h =
    (ground (arith, h.0, a.0), h.1, h.2, h.3, h.4, behind-Fresh place f x gs a.1 h.5)

-- A table is hung below the top, where no entry was.
pub middle-IsTree :
    (root i f : ℕ) (fs : List ℕ) (place : ℕ → Place) (s : Tables)
    → IsTree root place s
    → s.frames ≡ f ∷ fs
    → is_entry (s.ram root i) ≡ false
    → IsTree root (update place f (middle i)) (new_table root i (f ∷ fs) s).1
unfolding new_table
middle-IsTree root i f fs place s t e none_there =
    let fr : Fresh place (f ∷ fs) = subst (Fresh place) e t.fresh in
    let a = address_in-table_entry f fr.2 fr.3 in
    let apart : root ≢ f = λ h. cc (t.at_top, fr.0, ap place h) in
    record {
      at_top = ground (arith, fr.0, t.at_top);
      no_null = ground (arith, fr.1, t.no_null);
      below_top = λ k v. ground (arith, a, apart, t.below_top k, fr.0);
      below_middle = λ u k j h v. ground (arith, a, apart, t.below_middle u k j, fr.0);
      fresh = behind-Fresh place f (middle i) fs fr.4 fr.5;
    }

pub walk-middle :
    (root i f : ℕ) (fs : List ℕ) (place : ℕ → Place) (s : Tables) (i' j k : ℕ)
    → IsTree root place s
    → s.frames ≡ f ∷ fs
    → is_entry (s.ram root i) ≡ false
    → walk root i' j k (new_table root i (f ∷ fs) s).1.ram ≡ walk root i' j k s.ram
unfolding new_table walk
walk-middle root i f fs place s i' j k t e none_there =
    let fr : Fresh place (f ∷ fs) = subst (Fresh place) e t.fresh in
    let a = address_in-table_entry f fr.2 fr.3 in
    let apart : root ≢ f = λ h. cc (t.at_top, fr.0, ap place h) in
    ground (
      arith,
      a,
      apart,
      none_there,
      t.at_top,
      fr.0,
      t.below_top i',
      t.below_middle (address_in (s.ram root i')) i' j,
    )

-- A table is hung below a table of the middle, where no entry was.
pub bottom-IsTree :
    (root m i j f : ℕ) (fs : List ℕ) (place : ℕ → Place) (s : Tables)
    → IsTree root place s
    → place m ≡ middle i
    → s.frames ≡ f ∷ fs
    → is_entry (s.ram m j) ≡ false
    → IsTree root (update place f (bottom i j)) (new_table m j (f ∷ fs) s).1
unfolding new_table
bottom-IsTree root m i j f fs place s t pm e none_there =
    let fr : Fresh place (f ∷ fs) = subst (Fresh place) e t.fresh in
    let a = address_in-table_entry f fr.2 fr.3 in
    let apart : root ≢ f = λ h. cc (t.at_top, fr.0, ap place h) in
    let apart' : m ≢ f = λ h. cc (pm, fr.0, ap place h) in
    let not_top : m ≢ root = λ h. cc (pm, t.at_top, ap place h) in
    record {
      at_top = ground (arith, fr.0, t.at_top);
      no_null = ground (arith, fr.1, t.no_null);
      below_top = λ k v. ground (arith, a, apart, apart', not_top, t.below_top k, fr.0);
      below_middle = λ u k j' h v. ground (arith, a, apart', t.below_middle u k j', fr.0, pm);
      fresh = behind-Fresh place f (bottom i j) fs fr.4 fr.5;
    }

pub walk-bottom :
    (root m i j f : ℕ) (fs : List ℕ) (place : ℕ → Place) (s : Tables) (i' j' k : ℕ)
    → IsTree root place s
    → place m ≡ middle i
    → s.frames ≡ f ∷ fs
    → is_entry (s.ram m j) ≡ false
    → walk root i' j' k (new_table m j (f ∷ fs) s).1.ram ≡ walk root i' j' k s.ram
unfolding new_table walk
walk-bottom root m i j f fs place s i' j' k t pm e none_there =
    let fr : Fresh place (f ∷ fs) = subst (Fresh place) e t.fresh in
    let a = address_in-table_entry f fr.2 fr.3 in
    let apart : root ≢ f = λ h. cc (t.at_top, fr.0, ap place h) in
    let apart' : m ≢ f = λ h. cc (pm, fr.0, ap place h) in
    let not_top : m ≢ root = λ h. cc (pm, t.at_top, ap place h) in
    ground (
      arith,
      a,
      apart,
      apart',
      not_top,
      none_there,
      t.at_top,
      fr.0,
      t.below_top i',
      t.below_middle (address_in (s.ram root i')) i' j',
    )
