-- ===== src/Delete/Verb.antt =====
-- rtwcli/rtw_cmds/rtw_cmds/workspace/delete_verb.py: `DeleteVerb.main`.
use ros_team_workspace.Base.{
  String, Option, none, some, List, [], ◌∷◌, is_empty, is_given, or_text, if◌then◌else◌,
}
use ros_team_workspace.Base.Dict.{Dict}
use ros_team_workspace.Config.{WorkspacesConfig}
use ros_team_workspace.ConfigFile.{workspaces_path, load_workspaces_config}
use ros_team_workspace.Host.{Host}
use ros_team_workspace.Host.Prog.{Prog, pure, ◌>>=◌}
use ros_team_workspace.Select.{get_selected_ws_names_from_user}
use ros_team_workspace.Delete.{RemovalStats, remove_workspaces}

module _ (H : Host) where
  unfoldable pub names_to_delete : Option String → WorkspacesConfig → Prog (List String)
  names_to_delete workspace_name config =
      if is_given workspace_name
      then pure (or_text workspace_name "" ∷ [])
      else get_selected_ws_names_from_user H config.workspaces "Select workspaces to delete"
          "Are you sure you want to delete the selected workspaces?"

  -- The stats that are printed at the end, and none where there is no workspace.
  unfoldable pub delete_main : Option String → Prog (Option (Dict RemovalStats))
  delete_main workspace_name = do
    config ← load_workspaces_config H (workspaces_path H)
    if is_empty config.workspaces then pure none else do
      names ← names_to_delete workspace_name config
      stats ← remove_workspaces H config names
      pure (some stats)
