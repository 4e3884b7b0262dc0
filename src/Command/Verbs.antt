-- ===== src/Command/Verbs.antt =====
-- rtwcli/rtwcli/rtwcli/command/__init__.py and rtwcli/rtwcli/rtwcli/verb/__init__.py: the base classes of the
-- extensions, and the verbs of a group.
use ros_team_workspace.Base.{ℕ, String, ◌<>◌, false, Option, none, some, List, [], ◌∷◌, ◌++◌}
use ros_team_workspace.Base.Dict.{Dict}
use ros_team_workspace.Base.Result.{Result, ok, raised, exception, runtime_error, ◌>>=◌}
use ros_team_workspace.Plugins.{EntryPoint, instantiate_extensions}
use ros_team_workspace.Plugins.Version.{VersionClass, satisfies_version, plugin_system_version}
use ros_team_workspace.Command.{Context, Program, named}

-- `CommandExtension.__init__` and `VerbExtension.__init__`
abbrev pub extension_init : {V : Type 0} → VersionClass V → Result (Unit {0})
extension_init version = satisfies_version version plugin_system_version "^0.1"

-- `CommandExtension.main` raises a `NotImplementedError`, which is a `RuntimeError`.
abbrev pub command_extension_main : {A : Type 0} → Result A
command_extension_main = raised (exception runtime_error "")

-- A method `add_<task>_arguments` of a plugin, if it has one.
abbrev pub TaskMethods : Type 0
TaskMethods = ℕ → String → Option (Result (Unit {0}))

abbrev pub call_if : Option (Result (Unit {0})) → Result (Unit {0})
call_if none = ok tt
call_if (some r) = r

-- The titles of the argument groups that are added, the first one first.
unfoldable pub add_groups : TaskMethods → String → Dict ℕ → List String → Result (List String)
add_groups methods task_name [] titles = ok titles
add_groups methods task_name ((plugin_name, plugin) ∷ rest) titles =
    call_if (methods plugin ("add_" <> task_name <> "_arguments")) >>= λ _.
    add_groups methods task_name rest
      (titles ++ ("Arguments for '" <> plugin_name <> "' packages") ∷ [])

abbrev pub with_plugins :
    TaskMethods → String → Result (Dict ℕ) × Program → Result (List String) × Program
with_plugins methods task_name (ok plugins, s) = (add_groups methods task_name plugins [], s)
with_plugins methods task_name (raised e, s) = (raised e, s)

module _ (C : Context) where
  unfoldable pub get_verb_extensions : List EntryPoint → Program → Result (Dict ℕ) × Program
  get_verb_extensions group s =
      named (instantiate_extensions C.construct group none false s.registry) s

  -- The entry points of the task's group stand for its name.
  unfoldable pub add_task_arguments :
      TaskMethods → List EntryPoint → String → Program → Result (List String) × Program
  unfolding get_verb_extensions add_groups
  add_task_arguments methods group task_name s =
      with_plugins methods task_name (get_verb_extensions group s)
