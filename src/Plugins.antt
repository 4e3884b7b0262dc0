-- ===== src/Plugins.antt =====
-- rtwcli/rtwcli/rtwcli/plugin_system.py and entry_points.py: loading the extensions and making one
-- instance of each. A class is a text here, and an instance a number.
pub mod Singletons
pub mod Exclusion
pub mod Version
pub mod Docs
pub mod Order
pub mod Installed
use ros_team_workspace.Base.{
  ℕ, String, Bool, true, false, not, ◌&&◌, Option, none, some, List, [], ◌∷◌, contains, is_empty,
  if◌then◌else◌,
}
use ros_team_workspace.Base.Dict.{Dict, lookup, insert}
use ros_team_workspace.Base.Result.{Result, ok, raised, Error, exception, ◌>>=◌}

-- An entry point of the installed packages: its name, and what `load` gives.
pub record EntryPoint : Type 0 where
  pub name : String
  pub load : Result String

-- `entry_points[entry_point.name] = entry_point`, for the entry points of a group.
unfoldable pub get_entry_points : List EntryPoint → Dict EntryPoint → Dict EntryPoint
get_entry_points [] d = d
get_entry_points (e ∷ es) d = get_entry_points es (insert e.name e d)

abbrev pub is_excluded : Option (List String) → String → Bool
is_excluded none name = false
is_excluded (some names) name = not (is_empty names) && contains names name

-- What the loading of one entry point adds. Only an `Exception` is passed over.
unfoldable pub add_loaded : String → Result String → Dict String → Result (Dict String)
add_loaded name (ok cls) types = ok (insert name cls types)
add_loaded name (raised (exception k m)) types = ok types
add_loaded name (raised e) types = raised e

unfoldable pub load_one : Option (List String) → EntryPoint → Dict String → Result (Dict String)
unfolding add_loaded
load_one exclude_names e types =
    if is_excluded exclude_names e.name then ok types else add_loaded e.name e.load types

unfoldable pub load_all :
    Option (List String) → Dict EntryPoint → Dict String → Result (Dict String)
unfolding load_one
load_all exclude_names [] types = ok types
load_all exclude_names ((key, e) ∷ rest) types =
    load_one exclude_names e types >>= λ types'. load_all exclude_names rest types'

unfoldable pub load_entry_points : List EntryPoint → Option (List String) → Result (Dict String)
unfolding get_entry_points load_all
load_entry_points group exclude_names = load_all exclude_names (get_entry_points group []) []

-- `_extension_instances`, and the classes that were called so far, the last one first.
pub record Registry : Type 0 where
  pub instances : Dict ℕ
  pub calls : List String

-- The construction of instances: what a call of a class gives, after the calls before.
abbrev pub Constructor : Type 0
Constructor = List String → String → Result ℕ

-- After the call of the class: the instance, which is kept unless it shall be unique.
unfoldable pub keep_instance : Bool → String → Result ℕ → Registry → Result (Option ℕ) × Registry
keep_instance unique cls (ok i) s =
    (ok (some i), if unique then s else record s { instances = insert cls i s.instances })
keep_instance unique cls (raised (exception k m)) s = (ok none, s)
keep_instance unique cls (raised e) s = (raised e, s)

abbrev pub called : String → Registry → Registry
called cls s = record s { calls = cls ∷ s.calls }

-- The instance that is reused, if there is one and a unique one is not asked for.
abbrev pub reused : Bool → String → Registry → Option ℕ
reused unique cls s = if unique then none else lookup cls s.instances

abbrev pub add_instance : String → Option ℕ → Dict ℕ → Dict ℕ
add_instance name none found = found
add_instance name (some i) found = insert name i found

-- An exception that is no `Exception` ends the loop.
abbrev pub and_then :
    (Option ℕ → Registry → Result (Dict ℕ) × Registry)
    → Result (Option ℕ) × Registry
    → Result (Dict ℕ) × Registry
and_then k (ok made, s) = k made s
and_then k (raised e, s) = (raised e, s)

module _ (construct : Constructor) where
  unfoldable pub instantiate_from :
      Bool → String → Option ℕ → Registry → Result (Option ℕ) × Registry
  unfolding keep_instance
  instantiate_from unique cls (some i) s = (ok (some i), s)
  instantiate_from unique cls none s =
      keep_instance unique cls (construct s.calls cls) (called cls s)

  -- `_instantiate_extension`
  unfoldable pub instantiate_extension : Bool → String → Registry → Result (Option ℕ) × Registry
  unfolding instantiate_from
  instantiate_extension unique cls s = instantiate_from unique cls (reused unique cls s) s

  -- The loop of `instantiate_extensions`, with the instances that it has found.
  unfoldable pub instantiate_all :
      Bool → Dict String → Dict ℕ → Registry → Result (Dict ℕ) × Registry
  unfolding instantiate_extension
  instantiate_all unique [] found s = (ok found, s)
  instantiate_all unique ((name, cls) ∷ rest) found s =
      and_then (λ made. instantiate_all unique rest (add_instance name made found))
        (instantiate_extension unique cls s)

-- The classes that were loaded are called, unless the loading raised an exception.
abbrev pub with_types :
    Constructor → Bool → Result (Dict String) → Registry → Result (Dict ℕ) × Registry
with_types construct unique (ok types) s = instantiate_all construct unique types [] s
with_types construct unique (raised e) s = (raised e, s)

unfoldable pub instantiate_extensions :
    Constructor
    → List EntryPoint
    → Option (List String)
    → Bool
    → Registry
    → Result (Dict ℕ) × Registry
unfolding load_entry_points instantiate_all
instantiate_extensions construct group exclude_names unique s =
    with_types construct unique (load_entry_points group exclude_names) s
