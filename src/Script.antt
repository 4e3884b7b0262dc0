-- ===== src/Script.antt =====
-- rtwcli/rtwcli/rtwcli/workspace_utils.py: the script that makes a shell use a workspace, and the
-- command that builds a workspace.
pub mod Variables
use ros_team_workspace.Base.{
  String, ◌<>◌, Bool, true, false, Option, none, some, List, [], ◌∷◌, ◌==◌, if◌then◌else◌, is_set,
}
use ros_team_workspace.Base.Text.{upper, lower, replace, list_text}
use ros_team_workspace.Base.Dict.{Dict}
use ros_team_workspace.Workspace.{Workspace, EnvVars}

-- A value of a workspace's field: a text or `None`, a flag, or a list of texts.
pub data WsValue : Type 0 where
  text : Option String → WsValue
  flag : Bool → WsValue
  texts : List String → WsValue

abbrev pub ros_team_ws_prefix : String
ros_team_ws_prefix = "RosTeamWS_"

-- The items of `to_dict` without `env_vars`, in the order of the fields.
unfoldable pub ws_data : Workspace → List (String × WsValue)
ws_data ws =
    ("ws_name", text (some ws.ws_name))
    ∷ ("distro", text (some ws.distro))
    ∷ ("ws_folder", text ws.ws_folder)
    ∷ ("ws_docker_support", flag ws.ws_docker_support)
    ∷ ("docker_tag", text ws.docker_tag)
    ∷ ("docker_container_name", text ws.docker_container_name)
    ∷ ("base_ws", text ws.base_ws)
    ∷ ("standalone", flag ws.standalone)
    ∷ ("docker_devices", texts ws.docker_devices)
    ∷ []

unfoldable pub env_var_to_workspace_var : String → Option String → String × WsValue
env_var_to_workspace_var env_var value = (
  lower (replace env_var ros_team_ws_prefix ""),
  elim value [
    | none ↦ text none
    | some v ↦ if v == "false" then flag false else if v == "true" then flag true else text (some v)
  ],
)

abbrev env_value : WsValue → WsValue
env_value (flag b) = text (some (if b then "true" else "false"))
env_value (text o) = text o
env_value (texts xs) = texts xs

unfoldable pub workspace_var_to_env_var : String → WsValue → String × WsValue
workspace_var_to_env_var ws_var value = (ros_team_ws_prefix <> upper ws_var, env_value value)

-- `str` of a value.
abbrev pub shown : WsValue → String
shown (text none) = "None"
shown (text (some s)) = s
shown (flag b) = if b then "True" else "False"
shown (texts xs) = list_text xs

abbrev pub export_line : String → String → String
export_line name value = "export " <> name <> "='" <> value <> "'\n"

abbrev export_field : String × WsValue → String
export_field (name, value) = export_line name (shown value)

unfoldable pub field_exports : List (String × WsValue) → String
unfolding workspace_var_to_env_var
field_exports [] = ""
field_exports ((ws_var, value) ∷ rest) =
    export_field (workspace_var_to_env_var ws_var value) <> field_exports rest

-- "Export custom environment variables without prefix"
unfoldable pub env_exports : Dict (Option String) → String
env_exports [] = ""
env_exports ((name, none) ∷ rest) = env_exports rest
env_exports ((name, some value) ∷ rest) = export_line name value <> env_exports rest

abbrev exports_of : EnvVars → String
exports_of none = ""
exports_of (some env) = env_exports env

unfoldable pub create_bash_script_content_for_using_ws : Workspace → String → String
unfolding ws_data field_exports env_exports
create_bash_script_content_for_using_ws ws use_workspace_script_path =
    "#!/bin/bash\n"
    <> field_exports (ws_data ws)
    <> exports_of ws.env_vars
    <> ("source "
        <> use_workspace_script_path
        <> " "
        <> ws.distro
        <> " "
        <> shown (text ws.ws_folder)
        <> "\n")

-- The upstream workspace's path is empty where there is none.
unfoldable pub get_compile_cmd : String → String → String → List String
get_compile_cmd ws_path_abs distro upstream_ws_abs_path =
    let setup_bash_path =
      if is_set upstream_ws_abs_path
      then upstream_ws_abs_path <> "/install/setup.bash"
      else "/opt/ros/" <> distro <> "/setup.bash" in
    "cd" ∷ ws_path_abs ∷ "&&" ∷ "source" ∷ setup_bash_path ∷ "&&" ∷ "colcon" ∷ "build"
    ∷ "--symlink-install" ∷ "--cmake-args" ∷ "-DCMAKE_BUILD_TYPE=RelWithDebInfo" ∷ []
