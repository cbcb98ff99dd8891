-- ===== src/Environ.antt =====
-- The environment of a user program: getenv, setenv and unsetenv of user/src/stdlib.c. A text is the list
-- of its bytes without the 0; `environ` is the list of its entries, each with its bit of `env_alloc_map`,
-- or nothing for NULL. Names and values are not NULL. Whether memory is given is an argument: `room` to
-- ensure_environ_capacity, `made` to create_entry.
mod Lookup
mod Change
mod Tests
use valerioedx.Base.{
  ℕ, zero, suc, ◌+◌, Bool, true, false, ◌&&◌, not, List, [], ◌∷◌, ◌++◌, map, Option, none, some,
  ltb, ◌==◌, if◌then◌else◌, ℤ, pos, negsuc,
}

abbrev pub Text : Type 0
Text = List ℕ

pub record Entry : Type 0 where
  pub text : Text
  pub owned : Bool

pub record Env : Type 0 where
  pub environ : Option (List Entry)
  pub environ_malloced : Bool

-- '='
abbrev pub equals : ℕ
equals = 61

-- `strchr(name, '=')`
pub has_equals : Text → Bool
has_equals [] = false
has_equals (c ∷ cs) = if c == equals then true else has_equals cs

pub create_entry : (name value : Text) → Text
create_entry name value = name ++ (equals ∷ value)

-- `strncmp(entry, name, len) == 0 && entry[len] == '='`: what stands behind then.
pub value_of : (name entry : Text) → Option Text
value_of [] [] = none
value_of [] (c ∷ cs) = if c == equals then some cs else none
value_of (n ∷ ns) [] = none
value_of (n ∷ ns) (c ∷ cs) = if n == c then value_of ns cs else none

pub count_of : List Entry → ℕ
count_of [] = 0
count_of (e ∷ es) = count_of es + 1

abbrev pub entries : Option (List Entry) → List Entry
entries none = []
entries (some es) = es

-- The entries that were there before the first call are not the library's to free.
pub ensure_environ_capacity : (room : Bool) (required_count : ℕ) → Env → Bool × Env
ensure_environ_capacity room required_count env =
    if not env.environ_malloced
    then if room
      then (
        true,
        record {
          environ = some (map (λ (e : Entry). record e { owned = false }) (entries env.environ));
          environ_malloced = true;
        },
      )
      else (false, env)
    else if ltb (count_of (entries env.environ)) required_count
    then (room, env)
    else (true, env)

pub search : (name : Text) → List Entry → Option Text
search name [] = none
search name (e ∷ es) = elim (value_of name e.text) [ none ↦ search name es | some v ↦ some v ]

pub getenv : (name : Text) → Env → Option Text
getenv name env = search name (entries env.environ)

-- What setenv does with an entry, where `found` is its value if it has the name, and `rest` what comes of
-- the entries behind it. A NULL in place of an entry ends the list.
pub set_entry :
    (made overwrite : Bool) (name value : Text)
    → (found : Option Text) (e : Entry) (es : List Entry) (rest : Option (ℤ × List Entry))
    → Option (ℤ × List Entry)
set_entry made overwrite name value (some v) e es rest =
    if not overwrite
    then some (pos 0, e ∷ es)
    else if made
    then some (pos 0, record { text = create_entry name value; owned = true } ∷ es)
    else some (negsuc 0, [])
set_entry made overwrite name value none e es none = none
set_entry made overwrite name value none e es (some r) = some (r.0, e ∷ r.1)

-- The loop of setenv: nothing where no entry has the name.
pub set_in : (made overwrite : Bool) (name value : Text) → List Entry → Option (ℤ × List Entry)
set_in made overwrite name value [] = none
set_in made overwrite name value (e ∷ es) =
    set_entry made overwrite name value (value_of name e.text) e es
      (set_in made overwrite name value es)

-- `room` for the first call of ensure_environ_capacity, `more` for the second.
pub setenv : (room more made overwrite : Bool) (name value : Text) → Env → ℤ × Env
setenv room more made overwrite name value env =
    let (ok, env1) = ensure_environ_capacity room 0 env in
    let es = entries env1.environ in
    let (ok2, env2) = ensure_environ_capacity more (count_of es + 1) env1 in
    if has_equals name
    then (negsuc 0, env)
    else if not ok
    then (negsuc 0, env1)
    else elim (set_in made overwrite name value es) [
      | some r ↦ (r.0, record env1 { environ = some r.1 })
      | none ↦
          if not ok2
          then (negsuc 0, env2)
          else if made
          then (
            pos 0,
            record env2 {
              environ = some (es ++ (record { text = create_entry name value; owned = true } ∷ []));
            },
          )
          else (negsuc 0, env2)
    ]

-- The loop of unsetenv: each entry with the name is taken out of the list.
pub unset_in : (name : Text) → List Entry → List Entry
unset_in name [] = []
unset_in name (e ∷ es) =
    let left = unset_in name es in elim (value_of name e.text) [ some v ↦ left | none ↦ e ∷ left ]

pub is_null {ℓ} : {A : Type ℓ} → Option A → Bool
is_null none = true
is_null (some x) = false

pub unsetenv : (room : Bool) (name : Text) → Env → ℤ × Env
unsetenv room name env =
    let (ok, env1) = ensure_environ_capacity room 0 env in
    if is_null env.environ
    then (negsuc 0, env)
    else if has_equals name
    then (negsuc 0, env)
    else if not ok
    then (negsuc 0, env1)
    else (pos 0, record env1 { environ = some (unset_in name (entries env1.environ)) })
