-- ===== src/Environ/Tests.antt =====
-- The theorems on the environment at two entries that the program began with.
use valerioedx.Base.{◌≡◌, refl, true, false, [], ◌∷◌, some, if◌then◌else◌, pos}
use valerioedx.Environ.{
  Text, Env, getenv, setenv, has_equals, ensure_environ_capacity, value_of, set_entry, set_in,
}
use valerioedx.Environ.Lookup.{same}
use valerioedx.Environ.Change.{in_force, getenv-setenv}

-- "A=x" and "B=y".
abbrev two_entries : Env
two_entries = record {
  environ = some (
      record { text = b'A' ∷ b'=' ∷ b'x' ∷ []; owned = false }
      ∷ record { text = b'B' ∷ b'=' ∷ b'y' ∷ []; owned = false }
      ∷ []);
  environ_malloced = false;
}

abbrev a_name : Text
a_name = b'A' ∷ []

abbrev b_name : Text
b_name = b'B' ∷ []

a_plain : has_equals a_name ≡ false
unfolding has_equals
a_plain = refl

b_plain : has_equals b_name ≡ false
unfolding has_equals
b_plain = refl

setenv_example :
    let (r, env) = setenv true true true true a_name (b'z' ∷ []) two_entries in
    (r ≡ pos 0)
    × (getenv b_name env ≡ (
        if same b_name a_name
        then some (in_force true (b'z' ∷ []) (getenv a_name two_entries))
        else getenv b_name two_entries))
setenv_example = getenv-setenv true a_name (b'z' ∷ []) two_entries b_name a_plain b_plain

-- Without memory for the new entry, setenv loses the entries behind it too.
failed_setenv_cuts :
    (setenv true true false true a_name (b'z' ∷ []) two_entries).1.environ ≡ some []
unfolding setenv has_equals ensure_environ_capacity value_of set_entry set_in
failed_setenv_cuts = refl
