-- ===== src/Edit.antt =====
-- rtwcli/rtw_cmds/rtw_cmds/workspace/edit_verb.py: changing the environment variables of a workspace.
pub mod Variables
pub mod Saved
use ros_team_workspace.Base.{
  String, Bool, true, false, not, ◌&&◌, Option, none, some, List, [], ◌∷◌,
}
use ros_team_workspace.Base.{if◌then◌else◌, is_set, is_given, is_empty, or_text, ◌<>◌, ◌==◌}
use ros_team_workspace.Base.Dict.{Dict, keys, lookup, insert}
use ros_team_workspace.Workspace.{Workspace, EnvVars}
use ros_team_workspace.Config.{WorkspacesConfig, get_ws_names}
use ros_team_workspace.Host.{Host}
use ros_team_workspace.Host.Prog.{Prog, pure, lift, on_option, ◌>>=◌, ◌>>◌}
use ros_team_workspace.Host.Calls
use ros_team_workspace.ConfigFile.{workspaces_path, load_workspaces_config, save_with_backup}
use Variables.{Env, set_env_vars, remove_env_vars, delete_keys}

pub record EditArgs : Type 0 where
  pub workspace_name : Option String
  pub env_vars : List String
  pub remove_env_vars : List String

-- The environment after an edit, and whether anything was changed.
abbrev pub Edited : Type 0
Edited = Env × Bool

-- "Ensure env_vars dict exists"
abbrev pub env_of : Workspace → Env
env_of ws = elim ws.env_vars [ none ↦ [] | some env ↦ env ]

abbrev add_choice : String
add_choice = "Add/Update environment variable"

abbrev remove_choice : String
remove_choice = "Remove environment variable"

abbrev pub is_text : String → Option String → Bool
is_text s none = false
is_text s (some t) = t == s

-- The configuration with the environment of one workspace replaced.
unfoldable pub with_env : String → Workspace → Env → WorkspacesConfig → WorkspacesConfig
with_env name ws env config = record {
  workspaces = insert name (record ws { env_vars = some env }) config.workspaces;
}

module _ (H : Host) where
  unfoldable pub ask_to_set : Env → Prog Edited
  ask_to_set env = do
    key ← Calls.ask_text H "Enter variable name (KEY):"
    if not (is_given key) then pure (env, false) else do
      let name = or_text key ""
      value ← Calls.ask_text H ("Enter value for " <> name <> ":")
      on_option value (pure (env, false)) λ v. pure (insert name (some v) env, true)

  unfoldable pub ask_to_remove : Env → Prog Edited
  ask_to_remove env = if is_empty env then pure (env, false) else do
    answer ← Calls.ask_checkbox H "Select variables to remove:" (keys env)
    on_option answer (pure (env, false)) λ chosen.
        if is_empty chosen
        then pure (env, false)
        else (lift (delete_keys chosen env) >>= λ env'. pure (env', true))

  -- "Interactive mode if no flags provided"
  unfoldable pub edit_interactively : Env → Prog Edited
  edit_interactively env = do
    action ←
        Calls.ask_select H "What would you like to do?" (add_choice ∷ remove_choice ∷ "Exit" ∷ [])
    if is_text add_choice action
        then ask_to_set env
        else if is_text remove_choice action
        then ask_to_remove env
        else pure (env, false)

  -- The edits by flags, or the dialog where there are no flags.
  unfoldable pub edit_env : EditArgs → Env → Prog Edited
  edit_env args env =
      if is_empty args.env_vars && is_empty args.remove_env_vars
      then edit_interactively env
      else (let (env', set') = set_env_vars args.env_vars env in
          let (env'', removed) = remove_env_vars args.remove_env_vars env' in
          pure (env'', if set' then true else removed))

  -- The edit of a workspace that the configuration has: it is saved if there was an update.
  unfoldable pub edit_known : EditArgs → String → WorkspacesConfig → Workspace → Prog (Unit {0})
  edit_known args name config ws = edit_env args (env_of ws) >>= λ (env, updates_made).
      if not updates_made
      then pure tt
      else do _ ← save_with_backup H (workspaces_path H) (with_env name ws env config); pure tt

  unfoldable pub edit_workspace : EditArgs → String → WorkspacesConfig → Prog (Unit {0})
  edit_workspace args name config =
      on_option (lookup name config.workspaces) (pure tt) (edit_known args name config)

  unfoldable pub edit_main : EditArgs → Prog (Unit {0})
  edit_main args = do
    config ← load_workspaces_config H (workspaces_path H)
    if is_empty config.workspaces then pure tt else do
      name ←
          if is_given args.workspace_name
          then pure args.workspace_name
          else Calls.ask_select H "Choose workspace to edit" (get_ws_names config)
      if not (is_given name) then pure tt else edit_workspace args (or_text name "") config
