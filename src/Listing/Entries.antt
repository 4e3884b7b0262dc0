-- ===== src/Listing/Entries.antt =====
-- rtwcli/rtwcli/rtwcli/command/extensions.py and extension_points.py: the lists of the extensions and of their points,
-- and `get_all_entry_points` of rtwcli/rtwcli/rtwcli/entry_points.py.
use ros_team_workspace.Base.{
  ℕ, String, ◌<>◌, Bool, Option, none, some, List, [], ◌∷◌, ◌++◌, contains, is_empty, is_some,
  if◌then◌else◌,
}
use ros_team_workspace.Base.Dict.{Dict, keys, lookup, insert}
use ros_team_workspace.Base.Sort.{sorted}
use ros_team_workspace.Base.Text.{join}
use ros_team_workspace.Base.Result.{Result, ok, raised, Error, exception, key_error}
use ros_team_workspace.Plugins.{Constructor}
use ros_team_workspace.Plugins.Docs.{get_first_line_doc}

-- An entry point as a distribution declares it.
pub record Entry : Type 0 where
  pub group : String
  pub name : String
  pub load : Result String
  pub module_name : String
  pub attrs : List String

-- A distribution: its `repr`, and its entry points.
pub record Distribution : Type 0 where
  pub repr : String
  pub entry_points : List Entry

abbrev pub Groups : Type 0
Groups = Dict (Dict (Distribution × Entry))

abbrev pub group_or_empty : Option (Dict (Distribution × Entry)) → Dict (Distribution × Entry)
group_or_empty none = []
group_or_empty (some d) = d

-- `entry_points[ep.group][ep.name] = (dist, ep)`, for the groups that are extension points.
unfoldable pub add_entries : List String → Distribution → List Entry → Groups → Groups
add_entries points dist [] groups = groups
add_entries points dist (e ∷ es) groups = add_entries points dist es (
    if contains points e.group
    then insert e.group (insert e.name (dist, e) (group_or_empty (lookup e.group groups))) groups
    else groups)

unfoldable pub get_all_entry_points : List String → List Distribution → Groups → Groups
unfolding add_entries
get_all_entry_points points [] groups = groups
get_all_entry_points points (dist ∷ rest) groups =
    get_all_entry_points points rest (add_entries points dist dist.entry_points groups)

-- The options of both commands.
pub record Options : Type 0 where
  pub all : Bool
  pub verbose : Bool

-- What was printed, and the classes that were called so far, the last one first.
pub record Console : Type 0 where
  pub lines : List String
  pub calls : List String

abbrev pub Shown : Type 0
Shown = Result (Unit {0}) × Console

abbrev pub print : List String → Console → Console
print texts c = record c { lines = c.lines ++ join " " texts ∷ [] }

abbrev pub print_all : List (List String) → Console → Console
print_all [] c = c
print_all (texts ∷ rest) c = print_all rest (print texts c)

-- The documentation of a class, and of `None`; and the `EXTENSION_POINT_VERSION` of a class.
pub record Classes : Type 0 where
  pub construct : Constructor
  pub doc : Option String → Option String
  pub version : Option String → Option String

abbrev pub reason_lines : String → Option String → List (List String)
reason_lines prefix none = []
reason_lines prefix (some message) = (prefix ∷ " " ∷ "reason:" ∷ message ∷ []) ∷ []

abbrev pub attribute_lines : String → List String → List (List String)
attribute_lines prefix attrs =
    if is_empty attrs then [] else (prefix ∷ " " ∷ "attributes:" ∷ join "." attrs ∷ []) ∷ []

abbrev pub version_lines : String → Option String → List (List String)
version_lines prefix none = []
version_lines prefix (some version) = (prefix ∷ " " ∷ "version:" ∷ version ∷ []) ∷ []

abbrev pub module_line : String → Entry → List String
module_line prefix e = prefix ∷ " " ∷ "module_name:" ∷ e.module_name ∷ []

-- The lines of one entry, if the first line of its documentation has a value.
abbrev pub show_lines :
    Result String → (String → List String) → List (List String) → Console → Shown
show_lines (raised e) heading more c = (raised e, c)
show_lines (ok doc) heading more c = (ok tt, print_all (heading doc ∷ more) c)

module _ (K : Classes) (args : Options) where
  -- The end of `print_entry_point`: the plugin, or `None`, and the exception's text.
  unfoldable pub show_entry : Distribution → Entry → Option String → Option String → Console → Shown
  show_entry dist e plugin reason c =
      let prefix = if is_some reason then "-" else " " in
      show_lines (get_first_line_doc (K.doc plugin)) (λ doc. prefix ∷ (e.name <> ":") ∷ doc ∷ [])
        ((if args.verbose
            then module_line prefix e ∷ attribute_lines prefix e.attrs
              ++ (prefix ∷ " " ∷ "distribution:" ∷ dist.repr ∷ []) ∷ []
            else [])
          ++ reason_lines prefix reason)
        c

  -- An `Exception` hides the entry, or is shown with `--all`; another one goes on.
  abbrev pub if_all : Error → (String → Shown) → Console → Shown
  if_all (exception k m) show c = if args.all then show m else (ok tt, c)
  if_all e show c = (raised e, c)

  abbrev pub after_call : Distribution → Entry → String → Result ℕ → Console → Shown
  after_call dist e cls (ok i) c = show_entry dist e (some cls) none c
  after_call dist e cls (raised x) c = if_all x (λ m. show_entry dist e (some cls) (some m) c) c

  abbrev pub called_class : String → Console → Console
  called_class cls c = record c { calls = cls ∷ c.calls }

  abbrev pub after_load : Distribution → Entry → Result String → Console → Shown
  after_load dist e (ok cls) c =
      after_call dist e cls (K.construct c.calls cls) (called_class cls c)
  after_load dist e (raised x) c = if_all x (λ m. show_entry dist e none (some m) c) c

  unfoldable pub print_entry_point : Distribution → Entry → Console → Shown
  unfolding show_entry
  print_entry_point dist e c = after_load dist e e.load c

  -- `print_extension_point`
  unfoldable pub show_point : String → Entry → Option String → Option String → Console → Shown
  show_point name e point reason c =
      let prefix = if is_some reason then "- " else "" in
      show_lines (get_first_line_doc (K.doc point)) (λ doc. (prefix <> name <> ":") ∷ doc ∷ [])
        ((if args.verbose
            then module_line prefix e ∷ attribute_lines prefix e.attrs
              ++ version_lines prefix (K.version point)
            else [])
          ++ reason_lines prefix reason)
        c

  abbrev pub after_point : String → Entry → Result String → Console → Shown
  after_point name e (ok cls) c = show_point name e (some cls) none c
  after_point name e (raised x) c = if_all x (λ m. show_point name e none (some m) c) c

  unfoldable pub print_extension_point : String → Entry → Console → Shown
  unfolding show_point
  print_extension_point name e c = after_point name e e.load c

  abbrev pub then_show : Shown → (Console → Shown) → Shown
  then_show (ok done, c) k = k c
  then_show (raised e, c) k = (raised e, c)

  -- The entry points of one group, in the order of their names.
  unfoldable pub show_group : Dict (Distribution × Entry) → List String → Console → Shown
  unfolding print_entry_point
  show_group group [] c = (ok tt, c)
  show_group group (name ∷ names) c =
      then_show
        (elim (lookup name group) [
          | none ↦ (raised (exception key_error name), c)
          | some (dist, e) ↦ print_entry_point dist e c
        ])
        (show_group group names)

  unfoldable pub show_groups : Groups → List String → Console → Shown
  unfolding show_group
  show_groups groups [] c = (ok tt, c)
  show_groups groups (name ∷ names) c =
      let group = group_or_empty (lookup name groups) in
      then_show (show_group group (sorted (keys group)) (print (name ∷ []) c))
        (show_groups groups names)

  -- `ExtensionsCommand.main`, for the names of the extension points.
  unfoldable pub extensions_main : List String → List Distribution → Console → Shown
  unfolding show_groups get_all_entry_points sorted
  extensions_main points distributions c =
      let groups = get_all_entry_points points distributions [] in
      show_groups groups (sorted (keys groups)) c

  unfoldable pub show_points : Dict Entry → List String → Console → Shown
  unfolding print_extension_point
  show_points points [] c = (ok tt, c)
  show_points points (name ∷ names) c =
      then_show
        (elim (lookup name points) [
          | none ↦ (raised (exception key_error name), c)
          | some e ↦ print_extension_point name e c
        ])
        (show_points points names)

  -- `ExtensionPointsCommand.main`
  unfoldable pub extension_points_main : Dict Entry → Console → Shown
  unfolding show_points sorted
  extension_points_main points c = show_points points (sorted (keys points)) c
