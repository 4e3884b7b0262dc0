-- ===== src/Command/Siblings.antt =====
-- command/__init__.py: what the siblings of a selected command do to the parsers.
use ros_team_workspace.Base.{
  ℕ, String, ◌≡◌, refl, sym, ap, ◌∙◌, true, false, not, ◌&&◌, ◌||◌, Option, none, some, List, [],
  ◌∷◌, arith, eq_iff, ◌==◌, All, contains, if◌then◌else◌, inl, inr, Bool-cases,
}
use ros_team_workspace.Base.Dict.{Dict, keys, lookup, insert, NodupKeys, insert-NodupKeys}
use ros_team_workspace.Base.Result.{Result, ok, raised, ◌>>=◌}
use ros_team_workspace.Plugins.{
  EntryPoint, get_entry_points, is_excluded, add_loaded, load_one, load_all, load_entry_points,
  instantiate_extensions, with_types,
}
use ros_team_workspace.Base.Sort.{sorted}
use ros_team_workspace.Command.{
  CommandParser, Context, Program, named, others, add_parsers, get_command_extensions, known_args,
  select_extension,
}
use ros_team_workspace.Command.Demand.{
  Demand, command_names, all_parsers, finished, with_selected, on_selection,
  add_subparsers_on_demand,
}

contains-others :
    (name x : String) (names : List String)
    → contains (others name names) x ≡ (contains names x && not (x == name))
unfolding others
contains-others name x [] = refl
contains-others name x (key ∷ names) =
    ground (arith, contains-others name x names, eq_iff key name, eq_iff x name, eq_iff key x)

-- Each entry point stands under its own name.
abbrev Keyed : Dict EntryPoint → Type 0
Keyed = All (λ (key, e). e.name ≡ key)

insert-Keyed : (e : EntryPoint) (d : Dict EntryPoint) → Keyed d → Keyed (insert e.name e d)
unfolding insert
insert-Keyed e [] keyed = (refl, tt)
insert-Keyed e ((key, f) ∷ d) (own, keyed) = elim (Bool-cases (key == e.name)) [
  | inl same ↦ rw same (sym ((eq_iff key e.name).0 same), keyed)
  | inr other ↦ rw other (own, insert-Keyed e d keyed)
]

get_entry_points-Keyed :
    (group : List EntryPoint) (d : Dict EntryPoint)
    → Keyed d
    → NodupKeys d
    → Keyed (get_entry_points group d) × NodupKeys (get_entry_points group d)
unfolding get_entry_points
get_entry_points-Keyed [] d keyed nodup = (keyed, nodup)
get_entry_points-Keyed (e ∷ group) d keyed nodup =
    get_entry_points-Keyed group (insert e.name e d) (insert-Keyed e d keyed)
      (insert-NodupKeys e.name e d nodup)

-- What the loading of one entry point adds, if there is one.
abbrev loaded : String → Option EntryPoint → Dict String → Result (Dict String)
loaded name none types = ok types
loaded name (some e) types = add_loaded name e.load types

bind_stable :
    (r : Result (Dict String)) (k : Dict String → Result (Dict String))
    → ((types : Dict String) → k types ≡ ok types)
    → (r >>= k) ≡ r
bind_stable (ok types) k stable = stable types
bind_stable (raised e) k stable = refl

is_excluded-some :
    (names : List String) (x : String) → is_excluded (some names) x ≡ contains names x
is_excluded-some [] x = refl
is_excluded-some (n ∷ names) x = refl

load_one-excluded :
    (names : List String) (e : EntryPoint) (types : Dict String)
    → load_one (some names) e types
      ≡ (if contains names e.name then ok types else add_loaded e.name e.load types)
unfolding load_one
load_one-excluded names e types = rw (is_excluded-some names e.name) refl

module _ (exclude_names : List String) (name : String)
    (kept : contains exclude_names name ≡ false) where
  abbrev Rest : Dict EntryPoint → Type 0
  Rest rest =
      (types : Dict String)
      → load_all (some exclude_names) rest types ≡ loaded name (lookup name rest) types

  -- The entry point with the name comes first.
  chosen :
      (e : EntryPoint) (rest : Dict EntryPoint) (types : Dict String)
      → e.name ≡ name
      → lookup name rest ≡ none
      → Rest rest
      → (load_one (some exclude_names) e types >>= load_all (some exclude_names) rest)
        ≡ add_loaded name e.load types
  chosen e rest types own fresh ih =
      rw (load_one-excluded exclude_names e types, own, kept)
        (bind_stable (add_loaded name e.load types) (load_all (some exclude_names) rest)
          λ types'. ih types' ∙ rw fresh refl)

  -- Another entry point comes first.
  passed :
      (e : EntryPoint) (rest : Dict EntryPoint) (types : Dict String)
      → contains exclude_names e.name ≡ true
      → Rest rest
      → (load_one (some exclude_names) e types >>= load_all (some exclude_names) rest)
        ≡ loaded name (lookup name rest) types
  passed e rest types out ih = rw (load_one-excluded exclude_names e types, out) (ih types)

  is_out :
      (key : String)
      → (contains exclude_names key || key == name) ≡ true
      → (key == name) ≡ false
      → contains exclude_names key ≡ true
  is_out key out other = ground (arith, out, other)

  -- Of the entry points whose other names are excluded the one with the name is loaded.
  loads_single :
      (entries : Dict EntryPoint)
      → Keyed entries
      → NodupKeys entries
      → All (λ (key, e). (contains exclude_names key || key == name) ≡ true) entries
      → Rest entries
  unfolding load_all lookup
  loads_single [] keyed nodup excluded types = refl
  loads_single ((key, e) ∷ rest) (own, keyed) (fresh, nodup) (out, excluded) types =
      elim (Bool-cases (key == name)) [
        | inl same ↦ rw same (
            chosen e rest types (own ∙ (eq_iff key name).0 same)
              (rw ((eq_iff key name).0 same) at fresh) (loads_single rest keyed nodup excluded))
        | inr other ↦ rw other (
            passed e rest types (rw own (is_out key out other))
              (loads_single rest keyed nodup excluded))
      ]

others_out :
    (name : String) (names : List String) (d : Dict EntryPoint)
    → ((key : String) → contains (keys d) key ≡ true → contains names key ≡ true)
    → All (λ (key, e). (contains (others name names) key || key == name) ≡ true) d
others_out name names [] inside = tt
others_out name names ((key, e) ∷ d) inside = (
  ground (arith, contains-others name key names, inside key, eq_iff key key),
  others_out name names d λ k h. inside k (ground (arith, h)),
)

-- With the names of all other entry points excluded, loading depends on the entry point with the name alone.
load_entry_points-one :
    (group : List EntryPoint) (name : String)
    → load_entry_points group (some (others name (keys (get_entry_points group []))))
      ≡ loaded name (lookup name (get_entry_points group [])) []
unfolding load_entry_points
load_entry_points-one group name = from (get_entry_points-Keyed group [] tt tt)
  where
    entries : Dict EntryPoint
    entries = get_entry_points group []

    from :
        Keyed entries × NodupKeys entries
        → load_all (some (others name (keys entries))) entries []
          ≡ loaded name (lookup name entries) []
    from (keyed, nodup) =
        loads_single (others name (keys entries)) name
          (ground (arith, contains-others name name (keys entries), eq_iff name name)) entries keyed
          nodup (others_out name (keys entries) entries λ key h. h) []

-- The groups have the same names, and the same entry point for the selected name.
module _ (C : Context) (d : Demand) (group : List EntryPoint) (name : String)
    (same_names : keys (get_entry_points d.group []) ≡ keys (get_entry_points group []))
    (same_entry : lookup name (get_entry_points d.group [])
      ≡ lookup name (get_entry_points group [])) where
  abbrev other : Demand → Demand
  other e = record e { group = group }

  same_load :
      load_entry_points d.group (some (others name (keys (get_entry_points d.group []))))
      ≡ load_entry_points group (some (others name (keys (get_entry_points group []))))
  same_load =
      load_entry_points-one d.group name
      ∙ ap (λ o. loaded name o []) same_entry
      ∙ sym (load_entry_points-one group name)

  same_extensions :
      (s : Program)
      → get_command_extensions C d.group (some (others name (keys (get_entry_points d.group [])))) s
        ≡ get_command_extensions C group (some (others name (keys (get_entry_points group [])))) s
  unfolding get_command_extensions instantiate_extensions
  same_extensions s = ap (λ r. named (with_types C.construct false r s.registry) s) same_load

  same_finished :
      (r : Result (Dict CommandParser) × Program) → finished C d r ≡ finished C (other d) r
  same_finished (ok parsers, s) = refl
  same_finished (raised e, s) = refl

  same_selected :
      (r : Result (Dict ℕ) × Program) → with_selected C d name r ≡ with_selected C (other d) name r
  same_selected (raised e, s) = refl
  same_selected (ok extensions, s) =
      same_finished (select_extension C d.cli_name name d.argv (all_parsers d) extensions s)
      ∙ ap
          (λ names. finished C (other d) (
            select_extension C d.cli_name name d.argv (add_parsers (sorted names) []) extensions s))
          same_names

  same_selection :
      (s : Program)
      → on_selection C d (ok (some name)) s ≡ on_selection C (other d) (ok (some name)) s
  unfolding on_selection
  same_selection s = ap (with_selected C d name) (same_extensions s) ∙ same_selected _

  -- Where the command line selects a command, the parsers and the instances that result are the same
  -- for any other group with the same names and the same entry point of that command: the entry points of
  -- its siblings have no influence, whatever they load.
  pub add_subparsers-Independent :
      (s : Program)
      → known_args C (command_names d) d.argv ≡ ok (some name)
      → add_subparsers_on_demand C d s ≡ add_subparsers_on_demand C (record d { group = group }) s
  unfolding add_subparsers_on_demand
  add_subparsers-Independent s selected =
      ap (λ r. on_selection C d r s) selected
      ∙ same_selection s
      ∙ ap (λ r. on_selection C (other d) r s)
          (sym selected ∙ ap (λ names. known_args C (sorted names) d.argv) same_names)
