-- ===== src/Command/Demand.antt =====
-- rtwcli/rtwcli/rtwcli/command/__init__.py: `add_subparsers_on_demand` as a whole.
use ros_team_workspace.Base.{ℕ, String, Bool, Option, none, some, List, [], ◌<>◌}
use ros_team_workspace.Base.Dict.{Dict, keys}
use ros_team_workspace.Base.Text.{strip_left}
use ros_team_workspace.Base.Result.{Result, ok, raised, ◌>>=◌}
use ros_team_workspace.Base.Sort.{sorted}
use ros_team_workspace.Plugins.{EntryPoint, get_entry_points}
use ros_team_workspace.Command.{
  CommandParser, Subparsers, Program, Context, add_parsers, others, get_command_extensions,
  known_args, describe, select_extension,
}

-- The arguments of `add_subparsers_on_demand`; the entry points of the group stand for its name.
pub record Demand : Type 0 where
  pub cli_name : String
  pub dest : String
  pub group : List EntryPoint
  pub hide_extensions : Option (List String)
  pub required : Bool
  pub argv : Option (List String)

-- The parsers of all commands, before one is selected.
abbrev pub command_names : Demand → List String
command_names d = sorted (keys (get_entry_points d.group []))

abbrev pub all_parsers : Demand → Dict CommandParser
all_parsers d = add_parsers (command_names d) []

-- `" " + dest.lstrip("_")`
abbrev pub subparsers : Demand → String → Dict CommandParser → Subparsers
subparsers d description parsers = record {
  dest = " " <> strip_left "_" d.dest;
  required = d.required;
  description = description;
  parsers = parsers;
}

module _ (C : Context) (d : Demand) where
  abbrev pub described :
      Result (String × Dict CommandParser) → Program → Result Subparsers × Program
  described r s = (r >>= λ (description, parsers). ok (subparsers d description parsers), s)

  -- No command is selected.
  abbrev pub with_all : Result (Dict ℕ) × Program → Result Subparsers × Program
  with_all (ok extensions, s) =
      described (describe C d.hide_extensions extensions (all_parsers d)) s
  with_all (raised e, s) = (raised e, s)

  abbrev pub finished : Result (Dict CommandParser) × Program → Result Subparsers × Program
  finished (ok parsers, s) = (ok (subparsers d "" parsers), s)
  finished (raised e, s) = (raised e, s)

  -- The command of this name is selected.
  abbrev pub with_selected : String → Result (Dict ℕ) × Program → Result Subparsers × Program
  with_selected name (ok extensions, s) =
      finished (select_extension C d.cli_name name d.argv (all_parsers d) extensions s)
  with_selected name (raised e, s) = (raised e, s)

  unfoldable pub on_selection : Result (Option String) → Program → Result Subparsers × Program
  unfolding get_command_extensions describe select_extension
  on_selection (raised e) s = (raised e, s)
  on_selection (ok none) s = with_all (get_command_extensions C d.group none s)
  on_selection (ok (some name)) s =
      with_selected name (
        get_command_extensions C d.group (some (others name (keys (get_entry_points d.group []))))
          s)

  unfoldable pub add_subparsers_on_demand : Program → Result Subparsers × Program
  unfolding on_selection known_args
  add_subparsers_on_demand s = on_selection (known_args C (command_names d) d.argv) s
