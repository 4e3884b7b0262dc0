-- ===== src/Edit/Saved.antt =====
-- What the edit verb does to the configuration file.
use ros_team_workspace.Base.{Option, some, String, ◌≡◌, ◌⊎◌, is_given, if◌then◌else◌}
use ros_team_workspace.Base.Dict.{lookup}
use ros_team_workspace.Base.Result.{Result, ok}
use ros_team_workspace.Workspace.{Workspace}
use ros_team_workspace.Config.{WorkspacesConfig, to_dict, get_ws_names}
use ros_team_workspace.Host.{Host, Trace}
use ros_team_workspace.Host.Calls
use ros_team_workspace.Host.Prog.{Prog, pure}
use ros_team_workspace.Host.Record.{Within}
use ros_team_workspace.ConfigFile.{workspaces_path, load_workspaces_config}
use ros_team_workspace.ConfigFile.Backup.{NoWrite, Backed}
use ros_team_workspace.Edit.{EditArgs, with_env}
use ros_team_workspace.Edit.Variables.{Env}

module _ (H : Host) where
  -- Nothing was written after the first record, or the second ends with a backup and the saving of the
  -- configuration in which one workspace has the given environment.
  abbrev Edits : WorkspacesConfig → String → Trace → Trace → Type 0
  Edits config name t u =
      Within NoWrite t u
      ⊎ ((ws : Workspace) × (env : Env) × (lookup name config.workspaces ≡ some ws)
          × Backed H (workspaces_path H) (to_dict (with_env name ws env config)) t u)

  -- The configuration that the edit verb loads is `config`.
  abbrev pub Read : Trace → WorkspacesConfig → Type 0
  Read t config = (load_workspaces_config H (workspaces_path H) t).0 ≡ ok config

  -- What the edit verb leaves behind: nothing was written, or a configuration was loaded, and the last
  -- calls are a backup and the saving of it with a new environment for one workspace that it has.
  abbrev pub Edited : EditArgs → Trace → Trace → Type 0
  Edited args t u =
      Within NoWrite t u
      ⊎ ((config : WorkspacesConfig) × (name : String) × (ws : Workspace) × (env : Env) × Read t
            config
          × (lookup name config.workspaces ≡ some ws)
          × Backed H (workspaces_path H) (to_dict (with_env name ws env config)) t u)

  pick_name : EditArgs → WorkspacesConfig → Prog (Option String)
  pick_name args config =
      if is_given args.workspace_name
      then pure args.workspace_name
      else Calls.ask_select H "Choose workspace to edit" (get_ws_names config)
