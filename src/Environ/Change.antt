-- ===== src/Environ/Change.antt =====
-- getenv after setenv and unsetenv, for every name.
use valerioedx.Base.{
  ℕ, ◌+◌, ◌≡◌, refl, ◌⊎◌, inl, inr, Bool, true, false, List, [], ◌∷◌, ◌++◌, map, Option, none, some,
  ltb, if◌then◌else◌, ℤ, pos, arith, ap, sym, ◌∙◌, Bool-cases, Option-cases, subst,
}
use valerioedx.Environ.{
  Text, Entry, Env, count_of, entries, has_equals, create_entry, value_of, search, set_in, unset_in,
  ensure_environ_capacity, getenv, is_null, setenv, unsetenv,
}
use valerioedx.Environ.Lookup.{
  same, found_after, IsSetIn, set_in-search, behind, value_of-create_entry, search_found,
  search_missing, value_of-same,
}

search-map :
    (name : Text) (es : List Entry)
    → search name (map (λ (e : Entry). record e { owned = false }) es) ≡ search name es
unfolding search
search-map name [] = refl
search-map name (e ∷ es) =
    ap (λ r. elim (value_of name e.text) [ none ↦ r | some v ↦ some v ]) (search-map name es)

-- Where memory is given, the environment may be changed, and every name is found as before.
ensure_lem :
    (required : ℕ) (env : Env)
    → let (ok, env') = ensure_environ_capacity true required env in
      (ok ≡ true) × ((name : Text) → search name (entries env'.environ) ≡ getenv name env)
unfolding ensure_environ_capacity getenv
ensure_lem required env = elim (Bool-cases env.environ_malloced) [
  | inl mine ↦ elim (Bool-cases (ltb (count_of (entries env.environ)) required)) [
    | inl more ↦ rw (mine, more) (refl, λ name. refl)
    | inr enough ↦ rw (mine, enough) (refl, λ name. refl)
  ]
  | inr other ↦ rw other (refl, λ name. search-map name (entries env.environ))
]

search-append :
    (name name' value : Text) (owned : Bool) (es : List Entry)
    → has_equals name ≡ false
    → has_equals name' ≡ false
    → search name es ≡ none
    → search name' (es ++ (record { text = create_entry name value; owned = owned } ∷ []))
      ≡ found_after name' name (some value) (search name' es)
unfolding search
search-append name name' value owned [] h h' none_there =
    let new : Entry = record { text = create_entry name value; owned = owned } in
    let v = value_of-create_entry name name' value h h' in
    elim (Bool-cases (same name' name)) [
      | inl it ↦ search_found name' new [] value (v ∙ rw it refl) ∙ sym (rw it refl)
      | inr other ↦ search_missing name' new [] (v ∙ rw other refl) ∙ sym (rw other refl)
    ]
search-append name name' value owned (e ∷ es) h h' none_there =
    elim (Option-cases (value_of name e.text)) [
      | inr (v, q) ↦ cc (none_there, search_found name e es v q)
      | inl q ↦
          behind name name' value h h' e es
            (es ++ (record { text = create_entry name value; owned = owned } ∷ [])) (some value) q
            (search-append name name' value owned es h h'
              (sym (search_missing name e es q) ∙ none_there))
    ]

-- What setenv does where memory is given, by what its loop finds.
setenv_cases :
    (overwrite : Bool) (name value : Text) (env : Env)
    → has_equals name ≡ false
    → let es = entries (ensure_environ_capacity true 0 env).1.environ in
      ((set_in true overwrite name value es ≡ none)
        × ((setenv true true true overwrite name value env).0 ≡ pos 0)
        × (entries (setenv true true true overwrite name value env).1.environ
            ≡ es ++ (record { text = create_entry name value; owned = true } ∷ [])))
      ⊎ ((r : ℤ × List Entry) × (set_in true overwrite name value es ≡ some r)
          × ((setenv true true true overwrite name value env).0 ≡ r.0)
          × (entries (setenv true true true overwrite name value env).1.environ ≡ r.1))
unfolding setenv
setenv_cases overwrite name value env h =
    let (ok, env1) = ensure_environ_capacity true 0 env in
    let es = entries env1.environ in
    let fine = (ensure_lem 0 env).0 in
    let fine2 = (ensure_lem (count_of es + 1) env1).0 in
    elim (Option-cases (set_in true overwrite name value es)) [
      | inl q ↦ inl (q, rw (setenv, h, fine, q, fine2) refl, rw (setenv, h, fine, q, fine2) refl)
      | inr (r, q) ↦ inr (r, q, rw (setenv, h, fine, q) refl, rw (setenv, h, fine, q) refl)
    ]

-- The value in force: the one that was set unless it was kept.
abbrev pub in_force : (overwrite : Bool) (value : Text) → Option Text → Text
in_force overwrite value none = value
in_force overwrite value (some old) = if overwrite then value else old

forced :
    (overwrite : Bool) (name name' value new : Text) (known : Option Text) (env : Env)
    (es : List Entry)
    → ((n : Text) → search n es ≡ getenv n env)
    → search name es ≡ known
    → in_force overwrite value known ≡ new
    → found_after name' name (some new) (search name' es) ≡ (
        if same name' name
        then some (in_force overwrite value (getenv name env))
        else getenv name' env)
forced overwrite name name' value new known env es found had q =
    ap (λ x. found_after name' name (some x) (search name' es))
      (sym q ∙ ap (in_force overwrite value) (sym had ∙ found name))
    ∙ ap (λ x. found_after name' name (some (in_force overwrite value (getenv name env))) x)
        (found name')

-- Where memory is given and the names have no '=', setenv returns 0, and after it getenv of that name finds
-- the value, or the one that was there if `overwrite` is 0, and of any other name what it found before.
pub getenv-setenv :
    (overwrite : Bool) (name value : Text) (env : Env) (name' : Text)
    → has_equals name ≡ false
    → has_equals name' ≡ false
    → let (r, env') = setenv true true true overwrite name value env in
      (r ≡ pos 0)
      × (getenv name' env' ≡ (
          if same name' name
          then some (in_force overwrite value (getenv name env))
          else getenv name' env))
unfolding getenv
getenv-setenv overwrite name value env name' h h' =
    let es = entries (ensure_environ_capacity true 0 env).1.environ in
    let found = (ensure_lem 0 env).1 in
    let s = set_in-search name name' value h h' overwrite es in
    elim (setenv_cases overwrite name value env h) [
      | inl (q, zero_returned, list) ↦
          let missing : search name es ≡ none = subst (IsSetIn overwrite name name' value es) q s in
          (
            zero_returned,
            ap (search name') list
                ∙ search-append name name' value true es h h' missing
                ∙ forced overwrite name name' value value none env es found missing refl,
          )
      | inr (r, q, returned, list) ↦
          let (ok, (old, had, now)) = subst (IsSetIn overwrite name name' value es) q s in
          let new = if overwrite then value else old in
          (
            returned ∙ ok,
            ap (search name') list
                ∙ now
                ∙ forced overwrite name name' value new (some old) env es found had refl,
          )
    ]

-- Of a list without the entries of a name, a search for it finds nothing, and for others what it found.
search-unset_in :
    (name name' : Text) (es : List Entry)
    → has_equals name ≡ false
    → has_equals name' ≡ false
    → search name' (unset_in name es) ≡ (if same name' name then none else search name' es)
unfolding unset_in search
search-unset_in name name' [] h h' = ground arith
search-unset_in name name' (e ∷ es) h h' =
    let rest = search-unset_in name name' es h h' in
    elim (Option-cases (value_of name e.text)) [
      | inr (v, q) ↦
          rw (unset_in, q)
            (rest ∙ (elim (Bool-cases (same name' name)) [
              | inl it ↦ rw it refl
              | inr other ↦ rw other (
                  sym (
                    search_missing name' e es
                      (value_of-same name name' e.text v h h' q ∙ rw other refl)))
            ]))
      | inl q ↦ rw (unset_in, q) (behind name name' [] h h' e es (unset_in name es) none q rest)
    ]

not_null {ℓ} : {A : Type ℓ} (o : Option A) (x : A) → o ≡ some x → is_null o ≡ false
unfolding is_null
not_null o x q = ap is_null q

-- Where there is an environment, memory is given and the names have no '=', unsetenv returns 0, and after it
-- getenv of that name finds nothing, and of any other name what it found before.
pub getenv-unsetenv :
    (name : Text) (env : Env) (old : List Entry) (name' : Text)
    → env.environ ≡ some old
    → has_equals name ≡ false
    → has_equals name' ≡ false
    → let (r, env') = unsetenv true name env in
      (r ≡ pos 0) × (getenv name' env' ≡ (if same name' name then none else getenv name' env))
unfolding unsetenv getenv
getenv-unsetenv name env old name' given h h' =
    let es = entries (ensure_environ_capacity true 0 env).1.environ in
    let fine = (ensure_lem 0 env).0 in
    let found = (ensure_lem 0 env).1 in
    let there = not_null env.environ old given in
    let now =
      search-unset_in name name' es h h'
      ∙ ap (λ x. if same name' name then none else x) (found name') in
    (rw (unsetenv, there, h, fine) refl, rw (unsetenv, there, h, fine) now)
