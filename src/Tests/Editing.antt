-- ===== src/Tests/Editing.antt =====
-- The edit verb at concrete data.
use ros_team_workspace.Base.{◌≡◌, refl, true, none, some, [], ◌∷◌, contains, if◌then◌else◌}
use ros_team_workspace.Base.Dict.{lookup, insert}
use ros_team_workspace.Config.{ws_to_dict}
use ros_team_workspace.Host.{Host}
use ros_team_workspace.Edit.{EditArgs}
use ros_team_workspace.Edit.Variables.{
  Env, assigned, or_else, split_assignment, set_env_vars, lookup-set_env_vars, remove_env_vars,
  lookup-remove_env_vars,
}
use ros_team_workspace.Tests.Machine.{smooth}
use ros_team_workspace.Tests.Configuration.{other}

abbrev env : Env
env = ("A", some "1") ∷ ("B", some "2") ∷ []

abbrev given : EditArgs
given = record {
  workspace_name = some "other";
  env_vars = "A=x=y" ∷ "C" ∷ [];
  remove_env_vars = "B" ∷ [];
}

sets : set_env_vars given.env_vars env ≡ ((("A", some "x=y") ∷ ("B", some "2") ∷ []), true)
unfolding set_env_vars split_assignment insert
sets = refl

lookup-set_env_vars_example :
    lookup "A" (set_env_vars given.env_vars env).0
    ≡ or_else (assigned "A" given.env_vars) (lookup "A" env)
lookup-set_env_vars_example = lookup-set_env_vars "A" given.env_vars env

lookup-remove_env_vars_example :
    lookup "B" (remove_env_vars given.remove_env_vars env).0
    ≡ (if contains given.remove_env_vars "B" then none else lookup "B" env)
lookup-remove_env_vars_example = lookup-remove_env_vars "B" given.remove_env_vars env

abbrev machine : Host
machine = smooth (some (("workspaces", ("other", ws_to_dict other) ∷ []) ∷ []))
