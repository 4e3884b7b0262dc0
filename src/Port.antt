-- ===== src/Port.antt =====
-- rtwcli/rtw_cmds/rtw_cmds/workspace/port_verb.py: porting workspaces from the shell functions of the
-- file ~/.ros_team_ws_rc.
pub mod Functions
pub mod Extracted
pub mod Ported
pub mod Report
use ros_team_workspace.Base.{
  String, ◌<>◌, Bool, true, false, not, ◌&&◌, Option, none, some, List, [], ◌∷◌, is_some, is_empty,
  is_given, or_text, if◌then◌else◌, ◌==◌,
}
use ros_team_workspace.Base.Dict.{Dict, keys, lookup, insert}
use ros_team_workspace.Base.Result.{
  Result, ok, raised, exception, other_error, key_error, ◌>>=◌ as ◌>>?◌,
}
use ros_team_workspace.Base.Text.{has_text}
use ros_team_workspace.Workspace.{Workspace, post_init}
use ros_team_workspace.ConfigFile.{workspaces_path, update_workspaces_config}
use ros_team_workspace.Select.{get_selected_ws_names_from_user}
use ros_team_workspace.Host.{Host}
use ros_team_workspace.Host.Prog.{Prog, pure, lift, on_option, ◌>>=◌}
use ros_team_workspace.Host.Calls
use Functions.{find_functions, function_text, variables_and_values, drop_chars}

abbrev pub ws_function_prefix : String
ws_function_prefix = "RosTeamWS_setup_"

abbrev value_or : Option String → String → String
value_or none d = d
value_or (some v) d = v

-- The variables of a function.
abbrev pub Variables : Type 0
Variables = Dict String

-- `variables[name] == value`, where the name is there.
abbrev pub has_value : String → String → Variables → Bool
has_value name value variables = elim (lookup name variables) [ none ↦ false | some v ↦ v == value ]

abbrev pub docker_support_of : Variables → Bool
docker_support_of variables = has_value "RosTeamWS_WS_DOCKER_SUPPORT" "true" variables

abbrev pub base_of : Variables → String
base_of variables =
    if has_value "RosTeamWS_BASE_WS" "<current>" variables
    then ""
    else value_or (lookup "RosTeamWS_BASE_WS" variables) ""

-- The arguments of `Workspace`; the tag is known where there is Docker support.
abbrev pub ported_ws : String → String → String → Variables → String → Workspace
ported_ws ws_name distro ws_folder variables docker_tag = record {
  ws_name = ws_name;
  distro = distro;
  ws_folder = some ws_folder;
  ws_docker_support = docker_support_of variables;
  docker_tag = some docker_tag;
  docker_container_name = some (
      if docker_support_of variables
      then value_or (lookup "RosTeamWS_DOCKER_CONTAINER_NAME" variables) (docker_tag <> "-instance")
      else "");
  base_ws = some (base_of variables);
  standalone = false;
  env_vars = some [];
  docker_devices = [];
}

-- The tag, where the workspace has Docker support: `none` skips the workspace.
abbrev pub tag_of : Variables → Option String
tag_of variables =
    if docker_support_of variables then lookup "RosTeamWS_DOCKER_TAG" variables else some ""

-- The workspace, where the distribution, the folder and the tag are there.
unfoldable pub raw_from :
    String → Variables → Option String → Option String → Option String → Option Workspace
raw_from ws_name variables (some distro) (some ws_folder) (some docker_tag) =
    some (ported_ws ws_name distro ws_folder variables docker_tag)
raw_from ws_name variables distro ws_folder docker_tag = none

unfoldable pub raw_workspace : String → Variables → Option Workspace
unfolding raw_from
raw_workspace ws_name variables =
    raw_from ws_name variables (lookup "RosTeamWS_DISTRO" variables)
      (lookup "RosTeamWS_WS_FOLDER" variables) (tag_of variables)

abbrev pub with_key : Bool → String → Option Workspace → Option (String × Workspace)
with_key false ws_name raw = none
with_key true ws_name none = none
with_key true ws_name (some raw) = some (ws_name, raw)

-- What one function contributes: nothing, or a name and a workspace.
unfoldable pub raw_of_function : String × String → Option (String × Workspace)
unfolding raw_workspace
raw_of_function (name, body) =
    let ws_name = drop_chars ws_function_prefix name in
    with_key (has_text ws_function_prefix name) ws_name
      (raw_workspace ws_name (variables_and_values (function_text name body)))

-- `workspaces[ws_name] = Workspace(…)`, or the function is skipped.
unfoldable pub add_ported : Option (String × Workspace) → Dict Workspace → Result (Dict Workspace)
add_ported none workspaces = ok workspaces
add_ported (some (ws_name, raw)) workspaces =
    post_init raw >>? λ ws. ok (insert ws_name ws workspaces)

unfoldable pub extract_functions : List (String × String) → Dict Workspace → Result (Dict Workspace)
unfolding raw_of_function add_ported
extract_functions [] workspaces = ok workspaces
extract_functions (f ∷ fs) workspaces =
    add_ported (raw_of_function f) workspaces >>? λ workspaces'. extract_functions fs workspaces'

-- The debug message reads the first and the last function.
unfoldable pub extract_workspaces : String → Result (Dict Workspace)
unfolding extract_functions
extract_workspaces script =
    let functions = find_functions script in
    if is_empty functions
    then raised (exception other_error "list index out of range")
    else extract_functions functions []

module _ (H : Host) where
  abbrev pub ros_team_ws_rc_path : String
  ros_team_ws_rc_path = H.home <> "/.ros_team_ws_rc"

  unfoldable pub extract_workspaces_from_bash_script : String → Prog (Dict Workspace)
  extract_workspaces_from_bash_script script_path = do
    script ← Calls.read_text H script_path
    lift (extract_workspaces script)

  unfoldable pub port_workspace_name_completer : Prog (List String)
  port_workspace_name_completer = do
    workspaces ← extract_workspaces_from_bash_script ros_team_ws_rc_path
    pure (if is_empty workspaces then "NO_WORKSPACES_FOUND" ∷ [] else keys workspaces)

  -- The loop over the names: the names that were ported.
  unfoldable pub port_workspaces : Dict Workspace → List String → Prog (List String)
  port_workspaces workspaces [] = pure []
  port_workspaces workspaces (name ∷ names) =
      on_option (lookup name workspaces) (lift (raised (exception key_error name))) λ ws.
        update_workspaces_config H (workspaces_path H) ws >>= λ updated.
        port_workspaces workspaces names >>= λ ported.
        pure (if updated then name ∷ ported else ported)

  unfoldable pub names_to_port : Option String → Dict Workspace → Prog (List String)
  names_to_port workspace_name workspaces =
      if is_given workspace_name
      then pure (or_text workspace_name "" ∷ [])
      else get_selected_ws_names_from_user H workspaces "Select workspaces to port"
          "Are you sure you want to port the selected workspaces?"

  -- The names that were ported, of those that the statistics are printed for.
  unfoldable pub port_main : Option String → Prog (List String)
  port_main workspace_name = do
    workspaces ← extract_workspaces_from_bash_script ros_team_ws_rc_path
    if is_empty workspaces
        then pure []
        else do names ← names_to_port workspace_name workspaces; port_workspaces workspaces names
