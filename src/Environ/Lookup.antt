-- ===== src/Environ/Lookup.antt =====
-- What a search finds in the lists that setenv and unsetenv make.
use valerioedx.Base.{
  ◌≡◌, refl, inl, inr, Bool, true, false, List, [], ◌∷◌, Option, none, some, ◌==◌, if◌then◌else◌, ℤ,
  pos, arith, ap, sym, ◌∙◌, Option-cases, subst,
}
use valerioedx.Environ.{Text, Entry, has_equals, create_entry, value_of, search, set_entry, set_in}

pub same : (a b : Text) → Bool
same [] [] = true
same [] (d ∷ b) = false
same (c ∷ a) [] = false
same (c ∷ a) (d ∷ b) = if c == d then same a b else false

-- An entry has only the name that it was made for.
pub value_of-create_entry :
    (name name' value : Text)
    → has_equals name ≡ false
    → has_equals name' ≡ false
    → value_of name' (create_entry name value) ≡ (if same name' name then some value else none)
unfolding value_of create_entry same has_equals
value_of-create_entry [] [] value h h' = refl
value_of-create_entry [] (c ∷ n') value h h' = ground (arith, h')
value_of-create_entry (c ∷ n) [] value h h' = ground (arith, h)
value_of-create_entry (c ∷ n) (d ∷ n') value h h' =
    ground (arith, h, h', value_of-create_entry n n' value)

entry_of_value : (name entry v : Text) → value_of name entry ≡ some v → entry ≡ create_entry name v
unfolding value_of create_entry
entry_of_value [] [] v h = cc h
entry_of_value [] (c ∷ cs) v h = ground (arith, h)
entry_of_value (n ∷ ns) [] v h = cc h
entry_of_value (n ∷ ns) (c ∷ cs) v h = ground (arith, h, entry_of_value ns cs v)

-- Two names of an entry are one.
pub value_of-same :
    (name name' entry v : Text)
    → has_equals name ≡ false
    → has_equals name' ≡ false
    → value_of name entry ≡ some v
    → value_of name' entry ≡ (if same name' name then some v else none)
value_of-same name name' entry v h h' e =
    ap (value_of name') (entry_of_value name entry v e) ∙ value_of-create_entry name name' v h h'

-- What a search for `name'` finds where `name` was given the value `new`.
abbrev pub found_after : (name' name : Text) → (new old : Option Text) → Option Text
found_after name' name new old = if same name' name then new else old

abbrev pub IsSetIn :
    (overwrite : Bool) (name name' value : Text) (es : List Entry)
    → Option (ℤ × List Entry)
    → Type 0
IsSetIn overwrite name name' value es none = search name es ≡ none
IsSetIn overwrite name name' value es (some r) =
    (r.0 ≡ pos 0)
    × ((old : Text) × (search name es ≡ some old)
        × (search name' r.1
            ≡ found_after name' name (some (if overwrite then value else old)) (search name' es)))

same_sym : (a b : Text) → same a b ≡ same b a
unfolding same
same_sym [] [] = refl
same_sym [] (d ∷ b) = refl
same_sym (c ∷ a) [] = refl
same_sym (c ∷ a) (d ∷ b) = ground (arith, same_sym a b)

pub search_found :
    (name : Text) (e : Entry) (es : List Entry) (v : Text)
    → value_of name e.text ≡ some v
    → search name (e ∷ es) ≡ some v
unfolding search
search_found name e es v q = rw (search, q) refl

pub search_missing :
    (name : Text) (e : Entry) (es : List Entry)
    → value_of name e.text ≡ none
    → search name (e ∷ es) ≡ search name es
unfolding search
search_missing name e es q = rw (search, q) refl

module _ (name name' value : Text) (h : has_equals name ≡ false)
    (h' : has_equals name' ≡ false) where
  -- An entry that has `name'` and not `name`.
  pub other_name :
      (entry v : Text)
      → value_of name entry ≡ none
      → value_of name' entry ≡ some v
      → same name' name ≡ false
  other_name entry v q q' =
      ground (arith, q, same_sym name' name, value_of-same name' name entry v h' h q')

  -- The first entry with the name is kept, or replaced.
  kept_entry :
      (e : Entry) (es : List Entry) (v : Text)
      → value_of name e.text ≡ some v
      → search name' (e ∷ es) ≡ found_after name' name (some v) (search name' (e ∷ es))
  unfolding search
  kept_entry e es v q = rw (search, value_of-same name name' e.text v h h' q) ground arith

  new_entry :
      (e new : Entry) (es : List Entry) (v : Text)
      → value_of name e.text ≡ some v
      → new.text ≡ create_entry name value
      → search name' (new ∷ es) ≡ found_after name' name (some value) (search name' (e ∷ es))
  unfolding search
  new_entry e new es v q made =
      rw
        (
          search,
          value_of-same name name' e.text v h h' q,
          made,
          value_of-create_entry name name' value h h',
        )
        ground arith

  set_here :
      (overwrite : Bool) (e : Entry) (es : List Entry) (v : Text) (rest : Option (ℤ × List Entry))
      → value_of name e.text ≡ some v
      → IsSetIn overwrite name name' value
          (e ∷ es)
          (set_entry true overwrite name value (some v) e es rest)
  unfolding set_entry
  set_here true e es v rest q = (
    refl,
    (
      v,
      search_found name e es v q,
      new_entry e (record { text = create_entry name value; owned = true }) es v q refl,
    ),
  )
  set_here false e es v rest q = (refl, (v, search_found name e es v q, kept_entry e es v q))

  pub behind :
      (e : Entry) (es es' : List Entry) (new : Option Text)
      → value_of name e.text ≡ none
      → search name' es' ≡ found_after name' name new (search name' es)
      → search name' (e ∷ es') ≡ found_after name' name new (search name' (e ∷ es))
  behind e es es' new q found = elim (Option-cases (value_of name' e.text)) [
    | inl q' ↦ rw (search_missing name' e es q', search_missing name' e es' q') found
    | inr (v, q') ↦
        rw (search_found name' e es v q', search_found name' e es' v q', other_name e.text v q q')
          refl
  ]

  later :
      (overwrite : Bool) (e : Entry) (es : List Entry) (rest : Option (ℤ × List Entry))
      → value_of name e.text ≡ none
      → IsSetIn overwrite name name' value es rest
      → IsSetIn overwrite name name' value
          (e ∷ es)
          (set_entry true overwrite name value none e es rest)
  unfolding set_entry
  later overwrite e es none q s = search_missing name e es q ∙ s
  later overwrite e es (some r) q (ok, (old, had, found)) = (
    ok,
    (
      old,
      search_missing name e es q ∙ had,
      behind e es r.1 (some (if overwrite then value else old)) q found,
    ),
  )

  pub set_in-search :
      (overwrite : Bool) (es : List Entry)
      → IsSetIn overwrite name name' value es (set_in true overwrite name value es)
  unfolding set_in search
  set_in-search overwrite [] = refl
  set_in-search overwrite (e ∷ es) =
      let rest = set_in true overwrite name value es in
      let by = λ (o : Option Text).
        IsSetIn overwrite name name' value (e ∷ es)
          (set_entry true overwrite name value o e es rest) in
      elim (Option-cases (value_of name e.text)) [
        | inr (v, q) ↦ subst by (sym q) (set_here overwrite e es v rest q)
        | inl q ↦ subst by (sym q) (later overwrite e es rest q (set_in-search overwrite es))
      ]
