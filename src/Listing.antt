-- ===== src/Listing.antt =====
-- The commands that show something: rtwcli/rtwcli/rtwcli/command/info.py, and the verb
-- rtwcli/rtw_cmds/rtw_cmds/workspace/list_verb.py.
pub mod Entries
use ros_team_workspace.Base.{
  String, ◌<>◌, Bool, Option, none, some, List, [], ◌∷◌, ◌++◌, is_empty, is_given, or_text,
  if◌then◌else◌,
}
use ros_team_workspace.Base.Dict.{Dict, lookup}
use ros_team_workspace.Workspace.{Workspace}
use ros_team_workspace.ConfigFile.{workspaces_path, load_workspaces_config}
use ros_team_workspace.Host.{Host}
use ros_team_workspace.Host.Prog.{Prog, pure, ◌>>=◌}
use ros_team_workspace.Select.{none_text}

-- The lines of `InfoCommand.main`, for the variables of the environment and the text of their keys.
abbrev pub docker_line : Option String → List String
docker_line tag = if is_given tag then ("Using docker tag: '" <> or_text tag "" <> "'") ∷ [] else []

unfoldable pub info_main : Dict String → String → List String
info_main environ keys_text =
    if is_given (lookup "ROS_WS" environ)
    then keys_text
      ∷ ("Using: ROS"
          <> none_text (lookup "ROS_VERSION" environ)
          <> " - "
          <> none_text (lookup "ROS_DISTRO" environ))
      ∷ ("Your workspace path is '" <> or_text (lookup "ROS_WS" environ) "" <> "'")
      ∷ docker_line (lookup "RosTeamWS_DOCKER_TAG" environ)
    else "ROS_WS was not exported." ∷ []

-- A row of the table: the name, the distribution, the folder and whether there is Docker support.
abbrev pub table_row : Workspace → List String
table_row ws =
    ws.ws_name
    ∷ ws.distro
    ∷ or_text ws.ws_folder "-"
    ∷ (if ws.ws_docker_support then "yes" else "no")
    ∷ []

unfoldable pub table_rows : Dict Workspace → List (List String)
table_rows [] = []
table_rows ((name, ws) ∷ rest) = table_row ws ∷ table_rows rest

-- `ListVerb.main`: the rows of the table, and none where there is no workspace.
unfoldable pub list_main : Host → Prog (Option (List (List String)))
unfolding table_rows
list_main H = do
  config ← load_workspaces_config H (workspaces_path H)
  pure (if is_empty config.workspaces then none else some (table_rows config.workspaces))
