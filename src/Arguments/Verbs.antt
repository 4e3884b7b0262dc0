-- ===== src/Arguments/Verbs.antt =====
-- The arguments of the verbs that take the name of a workspace: `add_rtw_workspace_use_args` of
-- rtwcli/rtw_cmds/rtw_cmds/workspace/use_verb.py, and those of edit_verb.py, delete_verb.py and port_verb.py; those of the commands that list
-- extensions, in rtwcli/rtwcli/rtwcli/command.
use ros_team_workspace.Base.{List, [], ◌∷◌}
use ros_team_workspace.Arguments.{Argument, none_value, optional, several, switch}

abbrev pub workspace_name : Argument
workspace_name = optional "workspace_name" none_value

abbrev pub add_rtw_workspace_use_args : List Argument
add_rtw_workspace_use_args = workspace_name ∷ []

abbrev pub add_rtw_workspace_edit_args : List Argument
add_rtw_workspace_edit_args =
    workspace_name ∷ several "--env-vars" [] ∷ several "--remove-env-vars" [] ∷ []

abbrev pub delete_arguments : List Argument
delete_arguments = workspace_name ∷ []

abbrev pub port_arguments : List Argument
port_arguments = workspace_name ∷ []

-- Those of the commands `extensions` and `extension_points`.
abbrev pub extensions_arguments : List Argument
extensions_arguments =
    record (switch "--all") { aliases = "-a" ∷ [] }
    ∷ record (switch "--verbose") { aliases = "-v" ∷ [] }
    ∷ []

abbrev pub extension_points_arguments : List Argument
extension_points_arguments = extensions_arguments
