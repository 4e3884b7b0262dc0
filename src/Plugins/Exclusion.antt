-- ===== src/Plugins/Exclusion.antt =====
-- entry_points.py: the loading of entry points and the names to exclude.
use ros_team_workspace.Base.{
  String, ◌≡◌, refl, sym, ap, ◌∙◌, Bool, true, false, Option, none, List, [], ◌∷◌, arith, eq_iff,
  ◌==◌, inl, inr, Bool-cases,
}
use ros_team_workspace.Base.Dict.{Dict, lookup, lookup-insert}
use ros_team_workspace.Base.Result.{
  Result, ok, raised, exception, keyboard_interrupt, system_exit, ◌>>=◌,
}
use ros_team_workspace.Plugins.{
  EntryPoint, get_entry_points, is_excluded, add_loaded, load_one, load_all, load_entry_points,
}

module _ (exclude_names : Option (List String)) (name : String)
    (excluded : is_excluded exclude_names name ≡ true) where
  -- The name is not among the loaded types.
  abbrev Free : Result (Dict String) → Type 0
  Free (ok types) = lookup name types ≡ none
  Free (raised e) = Unit

  added-Free :
      (other : String) (r : Result String) (types : Dict String)
      → (other == name) ≡ false
      → lookup name types ≡ none
      → Free (add_loaded other r types)
  unfolding add_loaded
  added-Free other (ok cls) types differs free = ground (arith, lookup-insert name other cls types)
  added-Free other (raised (exception k m)) types differs free = free
  added-Free other (raised keyboard_interrupt) types differs free = tt
  added-Free other (raised (system_exit m)) types differs free = tt

  apart : Path Bool false true → ⊥
  apart h = absurd (cc h)

  one-Free :
      (e : EntryPoint) (types : Dict String)
      → lookup name types ≡ none
      → Free (load_one exclude_names e types)
  unfolding load_one
  one-Free e types free = elim (Bool-cases (is_excluded exclude_names e.name)) [
    | inl out ↦ rw out free
    | inr kept ↦ rw kept (added-Free e.name e.load types (differs kept) free)
  ]
    where
      differs : is_excluded exclude_names e.name ≡ false → (e.name == name) ≡ false
      differs kept = elim (Bool-cases (e.name == name)) [
        | inr other ↦ other
        | inl same ↦ absurd (
            apart
              (sym kept ∙ ap (is_excluded exclude_names) ((eq_iff e.name name).0 same) ∙ excluded))
      ]

  then-Free :
      (r : Result (Dict String)) (k : Dict String → Result (Dict String))
      → Free r
      → ((types : Dict String) → lookup name types ≡ none → Free (k types))
      → Free (r >>= k)
  then-Free (ok types) k free rest = rest types free
  then-Free (raised e) k free rest = tt

  all-Free :
      (entries : Dict EntryPoint) (types : Dict String)
      → lookup name types ≡ none
      → Free (load_all exclude_names entries types)
  unfolding load_all
  all-Free [] types free = free
  all-Free ((key, e) ∷ rest) types free =
      then-Free (load_one exclude_names e types) _ (one-Free e types free)
        λ types' free'. all-Free rest types' free'

-- An excluded name is not among the types that are loaded, whatever entry points there are.
pub load_entry_points-Free :
    (group : List EntryPoint) (exclude_names : Option (List String)) (name : String)
    (types : Dict String)
    → is_excluded exclude_names name ≡ true
    → load_entry_points group exclude_names ≡ ok types
    → lookup name types ≡ none
unfolding load_entry_points lookup
load_entry_points-Free group exclude_names name types excluded got =
    rw got at (all-Free exclude_names name excluded (get_entry_points group []) [] refl)
