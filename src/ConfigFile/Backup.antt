-- ===== src/ConfigFile/Backup.antt =====
-- workspace_utils.py: how the configuration file is written and backed up.
use ros_team_workspace.Base.{
  Bool-cases, none, String, ◌≡◌, ◌≢◌, ◌⊎◌, inl, inr, Bool, true, false, ◌∷◌, arith,
}
use ros_team_workspace.Base.Result.{Result, ok, raised, Error}
use ros_team_workspace.Workspace.{Workspace}
use ros_team_workspace.Config.Operations.{workspace_at, add_workspace-fresh}
use ros_team_workspace.Config.{add_workspace, WorkspacesConfig, Document, to_dict}
use ros_team_workspace.Host.{Host, Call, Trace}
use ros_team_workspace.Host.Calls
use ros_team_workspace.Host.Prog.{call, lift, ◌>>=◌}
use ros_team_workspace.Host.Returns.{bind-outcome}
use ros_team_workspace.Host.Record.{Within, Within-trans, next, Only, only_rules}
use ros_team_workspace.Utils.{create_file_if_not_exists, write_to_yaml_file}
use ros_team_workspace.ConfigFile.{
  save_with_backup, update_workspaces_config, backup_path, load_workspaces_config,
}

-- The call is no write of a YAML file.
abbrev pub NoWrite : Call → Type 0
NoWrite (Call.write_yaml p d) = ⊥
NoWrite _ = Unit

module _ (H : Host) where
  pub create-NoWrite : (path : String) → Only NoWrite (create_file_if_not_exists H path)
  unfolding create_file_if_not_exists
  create-NoWrite path = search only_rules depth 12

  pub load-NoWrite : (path : String) → Only NoWrite (load_workspaces_config H path)
  unfolding load_workspaces_config
  load-NoWrite path = search only_rules depth 12

  -- The newest call writes the document, the call before it copied the file to a backup, and there
  -- is no write before that.
  abbrev pub Backed : String → Document → Trace → Trace → Type 0
  Backed path doc t u =
      (v : Trace) × (date : String) × Within NoWrite t v
      × (u ≡ Call.write_yaml path doc ∷ Call.copy path (backup_path H date) ∷ v)

  pub write-record :
      (path : String) (doc : Document) (t : Trace)
      → (write_to_yaml_file H path doc t).1 ≡ Call.write_yaml path doc ∷ t
  unfolding write_to_yaml_file ◌>>=◌
  write-record path doc t = ground arith

  -- Nothing was written, and the result is no success.
  abbrev pub Untouched : Trace → Result Bool × Trace → Type 0
  Untouched t (r, u) = Within NoWrite t u × (r ≢ ok true)

  raised-Untouched : (t u : Trace) (e : Error) → Within NoWrite t u → Untouched t (raised e, u)
  raised-Untouched t u e w = (w, λ h. cc)

  pub save_with_backup-Backed :
      (path : String) (config : WorkspacesConfig) (t v : Trace)
      → Within NoWrite t v
      → Untouched t (save_with_backup H path config v)
        ⊎ Backed path (to_dict config) t (save_with_backup H path config v).1
  unfolding save_with_backup call
  save_with_backup-Backed path config t v w =
      bind-outcome P (Calls.clock H) _ v (stop (next _ tt w)) λ date _.
        let made =
          Within-trans NoWrite t (next _ tt w) ((create-NoWrite (backup_path H date)).at _) in
        bind-outcome P (create_file_if_not_exists H (backup_path H date)) _ _ (stop made) λ _ _.
          bind-outcome P (Calls.copy H path (backup_path H date)) _ _ (stop (next _ tt made))
            λ _ _. inr (_, date, made, write-record path (to_dict config) _)
    where
      P : Result Bool × Trace → Type 0
      P (r, u) = Untouched t (r, u) ⊎ Backed path (to_dict config) t u

      stop : {u : Trace} → Within NoWrite t u → (e : Error) → P (raised e, u)
      stop k e = inl (raised-Untouched t _ e k)

  -- What `update_workspaces_config` loads, after it has made sure that the file is there.
  abbrev pub Loads : String → Trace → WorkspacesConfig → Type 0
  Loads path t config =
      (load_workspaces_config H path (create_file_if_not_exists H path t).1).0 ≡ ok config

  -- Whatever happens, `update_workspaces_config` writes at most once and then as its last call. The
  -- document is the loaded configuration, which lacked the name, with the workspace added; right
  -- before the write the file was copied to a backup. If it returns true, it has written.
  pub update-Backed :
      (path : String) (ws : Workspace) (t : Trace)
      → Untouched t (update_workspaces_config H path ws t)
        ⊎ ((config : WorkspacesConfig) × Loads path t config
            × (workspace_at config ws.ws_name ≡ none)
            × Backed path
                (to_dict (add_workspace ws config).1)
                t
                (update_workspaces_config H path ws t).1)
  unfolding update_workspaces_config lift
  update-Backed path ws t =
      bind-outcome P (create_file_if_not_exists H path) _ t (stop start) λ created _.
        elim (Bool-cases created) [
          | inr missing ↦ rw missing (refuse start)
          | inl there ↦ rw there (
              bind-outcome P (load_workspaces_config H path) _ _ (stop loaded) λ config read.
                elim (Bool-cases (add_workspace ws config).0) [
                  | inr known ↦ rw known (refuse loaded)
                  | inl added ↦ rw added (saved config read added)
                ])
        ]
    where
      P : Result Bool × Trace → Type 0
      P (r, u) =
          Untouched t (r, u)
          ⊎ ((config : WorkspacesConfig) × Loads path t config
              × (workspace_at config ws.ws_name ≡ none)
              × Backed path (to_dict (add_workspace ws config).1) t u)

      stop : {u : Trace} → Within NoWrite t u → (e : Error) → P (raised e, u)
      stop k e = inl (raised-Untouched t _ e k)

      refuse : {u : Trace} → Within NoWrite t u → P (ok false, u)
      refuse k = inl (k, λ h. cc)

      start : Within NoWrite t (create_file_if_not_exists H path t).1
      start = (create-NoWrite path).at t

      loaded :
          Within NoWrite t (load_workspaces_config H path (create_file_if_not_exists H path t).1).1
      loaded = Within-trans NoWrite t start ((load-NoWrite path).at _)

      saved :
          (config : WorkspacesConfig)
          → Loads path t config
          → (add_workspace ws config).0 ≡ true
          → P (
              save_with_backup H path
                (add_workspace ws config).1
                (load_workspaces_config H path (create_file_if_not_exists H path t).1).1)
      saved config read added =
          elim (save_with_backup-Backed path (add_workspace ws config).1 t _ loaded) [
            | inl none' ↦ inl none'
            | inr backed ↦ inr (config, read, add_workspace-fresh ws config added, backed)
          ]
