-- ===== src/Use.antt =====
-- rtwcli/rtw_cmds/rtw_cmds/workspace/use_verb.py: choosing the workspace that a shell uses.
pub mod Choice
use ros_team_workspace.Base.{
  String, ◌<>◌, Bool, true, false, not, Option, none, some, is_empty, is_given, or_text,
  if◌then◌else◌,
}
use ros_team_workspace.Base.Dict.{lookup}
use ros_team_workspace.Workspace.{Workspace}
use ros_team_workspace.Config.{WorkspacesConfig, get_ws_names}
use ros_team_workspace.ConfigFile.{workspaces_path, load_workspaces_config}
use ros_team_workspace.Script.{create_bash_script_content_for_using_ws}
use ros_team_workspace.Host.{Host}
use ros_team_workspace.Host.Prog.{Prog, pure, on_option, ◌>>=◌}
use ros_team_workspace.Host.Calls
use ros_team_workspace.Utils.{create_file_and_write}

module _ (H : Host) where
  -- `WS_USE_BASH_FILE_PATH_FORMAT.format(ppid=os.getppid())`
  abbrev pub use_file_path : String
  use_file_path = "/tmp/ros_team_workspace/workspace_" <> H.ppid <> ".bash"

  -- The script of the workspace, in the file that the shell reads.
  unfoldable pub write_script : Workspace → Prog (Unit {0})
  write_script ws = do
    _ ←
        create_file_and_write H use_file_path
          (create_bash_script_content_for_using_ws ws H.use_workspace_script_path)
    pure tt

  unfoldable pub pick_workspace : Option String → WorkspacesConfig → Prog (Option String)
  pick_workspace workspace_name config =
      if is_given workspace_name
      then pure workspace_name
      else Calls.ask_select H "Choose workspace" (get_ws_names config)

  unfoldable pub use_main : Option String → Prog (Unit {0})
  use_main workspace_name = do
    config ← load_workspaces_config H (workspaces_path H)
    if is_empty config.workspaces then pure tt else do
      name ← pick_workspace workspace_name config
      if not (is_given name)
          then pure tt
          else on_option (lookup (or_text name "") config.workspaces) (pure tt) write_script

  -- `WSAlias.main` of rtwcli/rtw_cmds/rtw_cmds/aliases.py
  abbrev pub ws_alias_main : Option String → Prog (Unit {0})
  ws_alias_main workspace_name = use_main workspace_name
