-- ===== src/ConfigFile/Stored.antt =====
-- What `update_workspaces_config` leaves in the file, read back through `from_dict`.
use ros_team_workspace.Base.{String, ◌≡◌, true, some, ◌∷◌, inl, inr}
use ros_team_workspace.Base.{◌==◌, if◌then◌else◌}
use ros_team_workspace.Base.Result.{ok}
use ros_team_workspace.Workspace.{Workspace, IsValid}
use ros_team_workspace.Config.{WorkspacesConfig, Document, from_dict, to_dict, add_workspace}
use ros_team_workspace.Config.Operations.{workspace_at, add_workspace-entries, operations-IsConfig}
use ros_team_workspace.Config.RoundTrip.{IsConfig, from_dict-IsConfig, from_dict-to_dict}
use ros_team_workspace.Host.{Host, Call, Trace}
use ros_team_workspace.Host.Prog.{lift}
use ros_team_workspace.Host.Returns.{bind-returns}
use ros_team_workspace.Utils.{load_yaml_file}
use ros_team_workspace.ConfigFile.{load_workspaces_config, update_workspaces_config}
use ros_team_workspace.ConfigFile.Backup.{Loads, update-Backed}

module _ (H : Host) where
  -- A configuration that was loaded, whatever the file holds, is well formed.
  load-IsConfig :
      (path : String) (t : Trace) (config : WorkspacesConfig)
      → (load_workspaces_config H path t).0 ≡ ok config
      → IsConfig config
  unfolding load_workspaces_config lift
  load-IsConfig path t config h =
      let (document, read, same, made) = bind-returns (load_yaml_file H path) _ t config h in
      from_dict-IsConfig document config made

  -- The file's content by name, after the update: the new workspace under its name, and every other
  -- name as it was loaded.
  abbrev pub Stores : String → Workspace → Trace → Trace → Type 0
  Stores path ws t u =
      (config : WorkspacesConfig) × (stored : WorkspacesConfig) × (document : Document)
      × (v : Trace) × Loads H path t config
      × (u ≡ Call.write_yaml path document ∷ v)
      × (from_dict document ≡ ok stored)
      × ((name : String)
          → workspace_at stored name
            ≡ (if ws.ws_name == name then some ws else workspace_at config name))

  -- A successful `update_workspaces_config` with a valid workspace ends by writing a document that
  -- reads back as the loaded configuration with exactly the one workspace added.
  pub update-Stores :
      (path : String) (ws : Workspace) (t : Trace)
      → IsValid ws
      → (update_workspaces_config H path ws t).0 ≡ ok true
      → Stores path ws t (update_workspaces_config H path ws t).1
  update-Stores path ws t v h = elim (update-Backed H path ws t) [
    | inl (_, refused) ↦ absurd (refused h)
    | inr (config, read, fresh, (w, date, _, record')) ↦ (
      config,
      (add_workspace ws config).1,
      to_dict (add_workspace ws config).1,
      _,
      read,
      record',
      from_dict-to_dict _ (operations-IsConfig ws "" config v (load-IsConfig path _ config read)).0,
      add_workspace-entries ws config fresh,
    )
  ]
