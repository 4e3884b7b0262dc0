-- ===== src/Create/Saving.antt =====
-- create_verb.py: what the last part of a creation saves and removes.
use ros_team_workspace.Base.{◌≡◌, ◌≢◌, ◌⊎◌, none, if◌then◌else◌}
use ros_team_workspace.Base.Result.{Result, ok}
use ros_team_workspace.Workspace.{Workspace, post_init}
use ros_team_workspace.Config.{WorkspacesConfig, to_dict, add_workspace}
use ros_team_workspace.Config.Operations.{workspace_at}
use ros_team_workspace.ConfigFile.{workspaces_path}
use ros_team_workspace.ConfigFile.Backup.{Backed, Loads}
use ros_team_workspace.Host.{Host, Call, Trace}
use ros_team_workspace.Host.Prog.{Prog, pure}
use ros_team_workspace.Host.Record.{Within}
use ros_team_workspace.Create.Args.{CreateArgs, upstream_ws_abs_path}
use ros_team_workspace.Create.Verb.{local_main_ws, local_upstream_ws, register}

-- The call removes no file, folder, container or image, and runs no command.
abbrev pub Preserves : Call → Type 0
Preserves (Call.unlink path) = ⊥
Preserves (Call.rmdir path) = ⊥
Preserves (Call.rmtree path) = ⊥
Preserves (Call.remove_container name force) = ⊥
Preserves (Call.remove_image tag force) = ⊥
Preserves (Call.run_process command cwd) = ⊥
Preserves (Call.run_shell command) = ⊥
Preserves (Call.run_container image volumes) = ⊥
Preserves (Call.fix_owner path) = ⊥
Preserves (Call.commit_container container image) = ⊥
Preserves _ = Unit

-- The call removes the folder of the workspace, or that of its upstream workspace.
abbrev pub OwnFolder : CreateArgs → Call → Type 0
OwnFolder a (Call.rmtree path) = (path ≡ a.ws_abs_path) ⊎ (path ≡ upstream_ws_abs_path a)
OwnFolder a _ = ⊥

module _ (H : Host) where
  -- The last calls copy the configuration file to a backup and write it with one workspace more: the
  -- given one, after its validation.
  abbrev pub Saved : Workspace → Trace → Trace → Type 0
  Saved raw t u =
      (ws : Workspace) × (config : WorkspacesConfig) × (post_init raw ≡ ok ws)
      × Loads H (workspaces_path H) t config
      × (workspace_at config ws.ws_name ≡ none)
      × Backed H (workspaces_path H) (to_dict (add_workspace ws config).1) t u

  -- A part of the program that returns has saved the workspace.
  abbrev SavesIfOk : Workspace → Trace → Result (Unit {0}) × Trace → Type 0
  SavesIfOk raw t (r, u) = r ≡ ok tt → Saved raw t u

  -- Nothing was deleted and the part did not return; or the workspace was saved, and every call after
  -- that removes one of the workspace's own folders.
  abbrev pub SavedFirst : CreateArgs → Trace → Result (Unit {0}) × Trace → Type 0
  SavedFirst a t (r, u) =
      (Within Preserves t u × (r ≢ ok tt))
      ⊎ ((v w : Trace) × Within Preserves t v
          × Saved (local_main_ws a) v w
          × Within (OwnFolder a) w u)

  upstream_first : CreateArgs → Prog (Unit {0})
  upstream_first a =
      if a.has_upstream_ws
      then register H (local_upstream_ws a)
          "Failed to update workspaces config with upstream workspace."
      else pure tt
