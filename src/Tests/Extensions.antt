-- ===== src/Tests/Extensions.antt =====
-- Extensions at concrete data.
use ros_team_workspace.Plugins.Installed.{verb_groups, rtw_cmds_entry_points, is_installed}
use ros_team_workspace.Base.{
  ℕ, zero, suc, String, ◌≡◌, refl, true, false, none, some, List, [], ◌∷◌,
}
use ros_team_workspace.Base.Dict.{Dict, lookup, insert}
use ros_team_workspace.Base.Result.{ok, raised, exception, other_error}
use ros_team_workspace.Plugins.{
  EntryPoint, Registry, Constructor, load_entry_points, instantiate_all, instantiate_extensions,
}
use ros_team_workspace.Plugins.Singletons.{Shared, or_else, instantiate_all-Keeps}

abbrev length : List String → ℕ
length [] = zero
length (x ∷ xs) = suc (length xs)

-- Every class can be called, and the instances are numbered.
abbrev construct : Constructor
construct calls cls = ok (length calls)

abbrev group : List EntryPoint
group =
    record { name = "use"; load = ok "UseVerb" }
    ∷ record { name = "bad"; load = raised (exception other_error "no module") }
    ∷ record { name = "list"; load = ok "ListVerb" }
    ∷ record { name = "ls"; load = ok "ListVerb" }
    ∷ []

abbrev empty : Registry
empty = record { instances = []; calls = [] }

abbrev types : Dict String
types = ("use", "UseVerb") ∷ ("ls", "ListVerb") ∷ []

loaded : load_entry_points group (some ("list" ∷ [])) ≡ ok types
unfolding load_entry_points insert
loaded = refl

shared :
    (instantiate_extensions construct group none false empty).0
    ≡ ok (("use", 0) ∷ ("list", 1) ∷ ("ls", 1) ∷ [])
unfolding instantiate_extensions insert lookup
shared = refl

abbrev registry : Registry
registry = record { instances = ("UseVerb", 7) ∷ []; calls = "UseVerb" ∷ [] }

made : (instantiate_all construct false types [] registry).0 ≡ ok (("use", 7) ∷ ("ls", 1) ∷ [])
unfolding instantiate_all insert lookup
made = refl

instantiate_all-Keeps_example :
    Shared construct types
      (instantiate_all construct false types [] registry).1
      (("use", 7) ∷ ("ls", 1) ∷ [])
    × (lookup "UseVerb" (instantiate_all construct false types [] registry).1.instances
        ≡ or_else
            (lookup "UseVerb" registry.instances)
            (lookup "UseVerb" (instantiate_all construct false types [] registry).1.instances))
instantiate_all-Keeps_example =
    instantiate_all-Keeps construct types registry (("use", 7) ∷ ("ls", 1) ∷ []) "UseVerb" made

verbs_installed : is_installed verb_groups rtw_cmds_entry_points ≡ true
unfolding is_installed
verbs_installed = refl
