-- ===== src/Edit/Variables.antt =====
-- The environment variables of a workspace, as edit_verb.py changes them.
use ros_team_workspace.Base.{
  String, ◌<>◌, ◌≡◌, refl, Bool, true, false, Option, none, some, List, [], ◌∷◌, arith,
}
use ros_team_workspace.Base.{if◌then◌else◌, ◌==◌, eq_iff, contains, ◌||◌, Option-cases, inl, inr}
use text.Mathlib.TextLemmas.{nil-append, cons-append}
use ros_team_workspace.Base.Dict.{Dict, lookup, has_key, insert, erase, lookup-insert, lookup-erase}
use ros_team_workspace.Base.Result.{Result, ok, raised, exception, key_error}

abbrev pub Env : Type 0
Env = Dict (Option String)

abbrev put_first : String → Option (String × String) → Option (String × String)
put_first c none = none
put_first c (some (k, v)) = some (c <> k, v)

-- `"=" in text` and `text.split("=", 1)`: `none` where there is no equals sign.
unfoldable pub split_assignment : String → Option (String × String)
split_assignment String.[] = none
split_assignment (String.◌∷◌ c s) =
    let rest = split_assignment s in
    if String.◌∷◌ c "" == "=" then some ("", s) else put_first (String.◌∷◌ c "") rest

abbrev assign : Option (String × String) → Env → Env
assign none env = env
assign (some (k, v)) env = insert k (some v) env

abbrev is_assignment : Option (String × String) → Bool
is_assignment none = false
is_assignment (some a) = true

-- "Add/Update env vars"
unfoldable pub set_env_vars : List String → Env → Env × Bool
set_env_vars [] env = (env, false)
set_env_vars (text ∷ texts) env =
    let (env', more) = set_env_vars texts (assign (split_assignment text) env) in
    (env', is_assignment (split_assignment text) || more)

-- "Remove env vars"
unfoldable pub remove_env_vars : List String → Env → Env × Bool
remove_env_vars [] env = (env, false)
remove_env_vars (key ∷ ks) env =
    let (env', more) = remove_env_vars ks (if has_key key env then erase key env else env) in
    (env', has_key key env || more)

-- `for key in keys_to_remove: del env_vars[key]`
unfoldable pub delete_keys : List String → Env → Result Env
delete_keys [] env = ok env
delete_keys (key ∷ ks) env =
    let rest = delete_keys ks (erase key env) in
    if has_key key env then rest else raised (exception key_error key)

-- The value that a list of assignments gives to a key: that of the last one.
unfoldable pub assigned : String → List String → Option (Option String)
assigned key [] = none
assigned key (text ∷ texts) = elim (assigned key texts) [
  | some v ↦ some v
  | none ↦ elim (split_assignment text) [
    | none ↦ none
    | some (k, v) ↦ if k == key then some (some v) else none
  ]
]

abbrev pub or_else : Option (Option String) → Option (Option String) → Option (Option String)
or_else none d = d
or_else (some v) d = some v

-- After the assignments a key has the value of the last one that names it, and its old value if none
-- does.
pub lookup-set_env_vars :
    (key : String) (texts : List String) (env : Env)
    → lookup key (set_env_vars texts env).0 ≡ or_else (assigned key texts) (lookup key env)
unfolding set_env_vars assigned
lookup-set_env_vars key [] env = refl
lookup-set_env_vars key (text ∷ texts) env = elim (Option-cases (split_assignment text)) [
  | inl bad ↦ rw bad (ground (arith, lookup-set_env_vars key texts env))
  | inr ((k, v), good) ↦ rw good (
      ground (
        arith,
        lookup-set_env_vars key texts (insert k (some v) env),
        lookup-insert key k (some v) env,
      ))
]

-- After the removals exactly the listed keys are gone, and every other key is what it was.
pub lookup-remove_env_vars :
    (key : String) (ks : List String) (env : Env)
    → lookup key (remove_env_vars ks env).0 ≡ (if contains ks key then none else lookup key env)
unfolding remove_env_vars
lookup-remove_env_vars key [] env = refl
lookup-remove_env_vars key (k ∷ ks) env = ground (
  arith,
  lookup-remove_env_vars key ks (if has_key k env then erase k env else env),
  lookup-erase key k env,
  eq_iff k key,
)

-- No equals sign in the text.
abbrev pub IsKey : String → Type 0
IsKey s = split_assignment s ≡ none

-- `KEY=value`
abbrev pub assignment : String → String → String
assignment key value = key <> ("=" <> value)

put_first-none : (c : String) (r : Option (String × String)) → put_first c r ≡ none → r ≡ none
put_first-none c none h = refl
put_first-none c (some (k, v)) h = cc

unassigned :
    (b : Bool) (a : String × String) (c : String) (r : Option (String × String))
    → (if b then some a else put_first c r) ≡ none
    → (b ≡ false) × (r ≡ none)
unassigned true a c r h = cc
unassigned false a c r h = (refl, put_first-none c r h)

-- An assignment splits at its first equals sign, whatever the value holds.
pub split_assignment_lem :
    (key value : String) → IsKey key → split_assignment (assignment key value) ≡ some (key, value)
unfolding split_assignment
split_assignment_lem String.[] value h =
    rw (nil-append ("=" <> value)) (rw (cons-append "=" "" value) (rw (nil-append value) refl))
split_assignment_lem (String.◌∷◌ c s) value h =
    let (other, rest) = unassigned _ _ _ _ h in
    rw (cons-append c s ("=" <> value)) (
      rw other
        (rw (split_assignment_lem s value rest) (rw (cons-append c "" s) (rw (nil-append s) refl))))
