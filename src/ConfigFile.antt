-- ===== src/ConfigFile.antt =====
-- rtwcli/rtwcli/rtwcli/workspace_utils.py: the configuration file, with the paths of constants.py.
pub mod Backup
pub mod Stored
use ros_team_workspace.Base.{
  String, ◌<>◌, Bool, true, false, not, Option, none, some, List, [], ◌∷◌,
}
use ros_team_workspace.Base.{is_set, is_given, is_empty, if◌then◌else◌}
use ros_team_workspace.Base.Dict.{Dict, lookup}
use ros_team_workspace.Workspace.{Workspace}
use ros_team_workspace.Config.{
  WorkspacesConfig, Document, from_dict, to_dict, add_workspace, get_ws_names,
}
use ros_team_workspace.Host.{Host}
use ros_team_workspace.Host.Prog.{Prog, pure, lift, on_option, ◌>>=◌, ◌>>◌}
use ros_team_workspace.Host.Calls
use ros_team_workspace.Utils.{create_file_if_not_exists, load_yaml_file, write_to_yaml_file}

module _ (H : Host) where
  abbrev pub ros_team_ws_path : String
  ros_team_ws_path = H.home <> "/.ros_team_workspace"

  abbrev pub workspaces_path : String
  workspaces_path = ros_team_ws_path <> "/workspaces.yaml"

  -- `WORKSPACES_PATH_BACKUP_FORMAT.format(current_date)`
  abbrev pub backup_path : String → String
  backup_path date = ros_team_ws_path <> "/bkp/workspaces_bkp_" <> date <> ".yaml"

  unfoldable pub load_workspaces_config : String → Prog WorkspacesConfig
  unfolding load_yaml_file from_dict
  load_workspaces_config path = do data_read ← load_yaml_file H path; lift (from_dict data_read)

  unfoldable pub save_workspaces_config : String → WorkspacesConfig → Prog Bool
  unfolding write_to_yaml_file to_dict
  save_workspaces_config path config = write_to_yaml_file H path (to_dict config)

  -- The backup, and the write of the new configuration.
  unfoldable pub save_with_backup : String → WorkspacesConfig → Prog Bool
  unfolding create_file_if_not_exists save_workspaces_config
  save_with_backup path config = do
    current_date ← Calls.clock H
    let backup = backup_path current_date
    _ ← create_file_if_not_exists H backup
    Calls.copy H path backup
    save_workspaces_config path config

  unfoldable pub update_workspaces_config : String → Workspace → Prog Bool
  unfolding create_file_if_not_exists load_workspaces_config add_workspace save_with_backup
  update_workspaces_config path ws = do
    created ← create_file_if_not_exists H path
    if not created then pure false else do
      config ← load_workspaces_config path
      let (added, config') = add_workspace ws config
      if not added then pure false else save_with_backup path config'

  unfoldable pub get_current_workspace_name : Prog (Option String)
  get_current_workspace_name = do
    ros_ws_name ← Calls.environment H
    if is_given ros_ws_name then pure ros_ws_name else pure none

  unfoldable pub get_current_workspace : Prog (Option Workspace)
  unfolding get_current_workspace_name load_workspaces_config
  get_current_workspace = do
    ws_name ← get_current_workspace_name
    on_option ws_name (pure none) λ name. if not (is_set name) then pure none else do
      config ← load_workspaces_config workspaces_path
      pure (lookup name config.workspaces)

  unfoldable pub get_workspace_names : Prog (List String)
  unfolding load_workspaces_config get_ws_names
  get_workspace_names = do
    there ← Calls.is_file H workspaces_path
    if not there
        then pure []
        else do config ← load_workspaces_config workspaces_path; pure (get_ws_names config)

  unfoldable pub workspace_name_completer : Prog (List String)
  unfolding get_workspace_names
  workspace_name_completer = do
    ws_names ← get_workspace_names
    pure (if is_empty ws_names then "NO_WORKSPACES_FOUND" ∷ [] else ws_names)
