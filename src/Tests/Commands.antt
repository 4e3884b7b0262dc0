-- ===== src/Tests/Commands.antt =====
-- The command line at concrete data: a command with verbs, and one that cannot be loaded.
use ros_team_workspace.Base.{
  ℕ, zero, suc, String, ◌≡◌, refl, ap, ◌∙◌, false, Option, none, some, List, [], ◌∷◌, contains,
  if◌then◌else◌,
}
use ros_team_workspace.Base.Sort.{sorted, insert_sorted}
use ros_team_workspace.Base.Dict.{Dict, keys, lookup, insert}
use ros_team_workspace.Base.Text.{strip_left, strip_right}
use ros_team_workspace.Base.Result.{
  Result, ok, raised, exception, keyboard_interrupt, other_error, runtime_error,
}
use ros_team_workspace.Plugins.{EntryPoint, get_entry_points, instantiate_extensions}
use ros_team_workspace.Plugins.Docs.{get_first_line_doc}
use ros_team_workspace.Command.{
  Subparsers, Program, Context, AddArguments, new_parser, others, known_args,
  get_command_extensions, select_extension, add_parsers,
}
use ros_team_workspace.Command.Demand.{Demand, command_names, add_subparsers_on_demand}
use ros_team_workspace.Command.Main.{CommandLine, main, main_demand, base_add_arguments, defaults}
use ros_team_workspace.Command.Ends.{Ended}
use ros_team_workspace.Command.Siblings.{add_subparsers-Independent}
use ros_team_workspace.Command.Suppress.{Callbacks, original_help, original_exit, with_suppressed}
use ros_team_workspace.Command.Selected.{
  KeepsDefault, loaded_for, main-Runs, base_add_arguments-keeps,
}

abbrev length : List String → ℕ
length [] = zero
length (x ∷ xs) = suc (length xs)

abbrev doc_of : ℕ → Option String
doc_of zero = some "Various workspace related sub-commands."
doc_of (suc n) = some "\n    Choose a workspace.\n    More."

abbrev verbs : List EntryPoint
verbs = record { name = "use"; load = ok "UseVerb" } ∷ []

-- The verbs below `workspace`: `use` is selected.
abbrev inner : Context
inner = record {
  construct = λ calls cls. ok (length calls);
  doc = doc_of;
  add_arguments = λ i. none;
  parse = λ names argv. ok (some "use");
  environ = [];
  split_line = λ line. [];
}

abbrev methods : ℕ → Option AddArguments
methods zero = some (base_add_arguments inner verbs)
methods (suc n) = none

abbrev outer : Context
outer = record {
  construct = λ calls cls. ok (length calls);
  doc = doc_of;
  add_arguments = methods;
  parse = λ names argv. ok (if contains names "workspace" then some "workspace" else none);
  environ = [];
  split_line = λ line. [];
}

abbrev commands : List EntryPoint
commands =
    record { name = "workspace"; load = ok "WorkspaceCommand" }
    ∷ record { name = "docker"; load = raised keyboard_interrupt }
    ∷ []

abbrev other_commands : List EntryPoint
other_commands =
    record { name = "workspace"; load = ok "WorkspaceCommand" }
    ∷ record { name = "docker"; load = ok "DockerCommand" }
    ∷ []

abbrev start : Program
start = record { registry = record { instances = []; calls = [] }; names = [] }

abbrev line : CommandLine
line = record {
  argv = none;
  autocomplete = none;
  parse_args = λ parsers. ok (some "workspace");
  run = λ i. (raised (exception runtime_error "no workspace"), []);
  add_arguments = λ i. ok tt;
}

abbrev demand : Demand
demand = main_demand outer line "rtw" commands

selected : known_args outer (command_names demand) none ≡ ok (some "workspace")
unfolding known_args get_entry_points sorted insert_sorted insert lookup
selected = refl

same_names : keys (get_entry_points commands []) ≡ keys (get_entry_points other_commands [])
unfolding get_entry_points insert
same_names = refl

same_entry :
    lookup "workspace" (get_entry_points commands [])
    ≡ lookup "workspace" (get_entry_points other_commands [])
unfolding get_entry_points insert lookup
same_entry = refl

add_subparsers-Independent_example :
    add_subparsers_on_demand outer demand start
    ≡ add_subparsers_on_demand outer (record demand { group = other_commands }) start
add_subparsers-Independent_example =
    add_subparsers-Independent outer demand other_commands "workspace" same_names same_entry start
      selected

outer-KeepsDefault : KeepsDefault outer
outer-KeepsDefault zero method p p' cli_name argv s s' found e =
    base_add_arguments-keeps inner verbs p p' cli_name argv s s'
      (ap (λ (m : AddArguments). m.add p cli_name argv s) (same found) ∙ e)
  where
    same :
        Path (Option AddArguments) (some (base_add_arguments inner verbs)) (some method)
        → base_add_arguments inner verbs ≡ method
    same h = cc h
outer-KeepsDefault (suc n) method p p' cli_name argv s s' found e = absurd (cc found)

abbrev ready : Subparsers
ready = record {
  dest = " command";
  required = false;
  description = "";
  parsers =
      ("docker", new_parser)
      ∷ (
        "workspace",
        record new_parser {
          description = some "Various workspace related sub-commands";
          default = some 0;
          verbs = ("use", some 1) ∷ [];
        },
      )
      ∷ [];
}

abbrev finish : Program
finish = record {
  registry = record {
    instances = ("WorkspaceCommand", 0) ∷ ("UseVerb", 1) ∷ [];
    calls = "UseVerb" ∷ "WorkspaceCommand" ∷ [];
  };
  names = (1, "use") ∷ (0, "workspace") ∷ [];
}

setup : add_subparsers_on_demand outer demand start ≡ (ok ready, finish)
unfolding add_subparsers_on_demand known_args get_entry_points sorted insert_sorted insert lookup
    get_command_extensions instantiate_extensions base_add_arguments get_first_line_doc strip_left
    strip_right select_extension add_parsers others defaults
setup = refl

main-Runs_example :
    (extensions : Dict ℕ) × (extension : ℕ) × ((loaded_for outer demand "workspace" start).0
      ≡ ok extensions)
    × (lookup "workspace" extensions ≡ some extension)
    × Ended (line.run extension) (main outer line "rtw" commands none start).0
    × ((main outer line "rtw" commands none start).1 ≡ finish)
main-Runs_example =
    main-Runs outer outer-KeepsDefault line "rtw" commands "workspace" start finish ready selected
      setup refl refl

abbrev callbacks : Dict Callbacks
callbacks =
    ("rtw", (original_help, original_exit)) ∷ ("workspace", (original_help, original_exit)) ∷ []

-- A parsing that ends with an exit, and leaves the parsers alone.
abbrev failing_parse : Dict Callbacks → Result ℕ × Dict Callbacks
failing_parse parsers = (raised (exception other_error "exit 2"), parsers)

restored : (with_suppressed ("rtw" ∷ "workspace" ∷ []) failing_parse callbacks).1 ≡ callbacks
unfolding with_suppressed lookup insert
restored = refl
