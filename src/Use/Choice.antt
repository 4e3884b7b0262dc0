-- ===== src/Use/Choice.antt =====
-- What the use verb writes.
use ros_team_workspace.Base.{
  String, ◌≡◌, refl, ap, ◌⊎◌, inl, inr, Bool, true, false, Option, none, some, ◌∷◌, Bool-cases,
  arith, is_empty, is_given, or_text, if◌then◌else◌,
}
use ros_team_workspace.Base.Dict.{lookup}
use ros_team_workspace.Base.Result.{Result, ok}
use ros_team_workspace.Workspace.{Workspace}
use ros_team_workspace.Config.{WorkspacesConfig, get_ws_names}
use ros_team_workspace.ConfigFile.{workspaces_path, load_workspaces_config}
use ros_team_workspace.Script.{create_bash_script_content_for_using_ws}
use ros_team_workspace.Host.{Host, Call, Trace}
use ros_team_workspace.Host.Calls
use ros_team_workspace.Host.Prog.{is_os_error, Prog, lift, call, pure, on_option, ◌>>=◌, ◌>>◌}
use ros_team_workspace.Host.Record.{Within, Within-trans, Only, only_rules}
use ros_team_workspace.Host.Returns.{bind-outcome, try-outcome}
use ros_team_workspace.Utils.{create_file_if_not_exists, create_file_and_write}
use ros_team_workspace.Use.{use_file_path, write_script, pick_workspace, use_main}

-- The call writes no text and no YAML file, copies and removes nothing, and runs no command and no container.
abbrev pub Quiet : Call → Type 0
Quiet (Call.write_text path content) = ⊥
Quiet (Call.write_yaml path document) = ⊥
Quiet (Call.copy from to) = ⊥
Quiet (Call.unlink path) = ⊥
Quiet (Call.rmdir path) = ⊥
Quiet (Call.rmtree path) = ⊥
Quiet (Call.run_process command cwd) = ⊥
Quiet (Call.run_shell command) = ⊥
Quiet (Call.remove_container name force) = ⊥
Quiet (Call.remove_image tag force) = ⊥
Quiet (Call.run_container image volumes) = ⊥
Quiet (Call.fix_owner path) = ⊥
Quiet (Call.commit_container container image) = ⊥
Quiet _ = Unit

module _ (H : Host) where
  create-Quiet : (path : String) → Only Quiet (create_file_if_not_exists H path)
  unfolding create_file_if_not_exists
  create-Quiet path = search only_rules depth 12

  load-Quiet : (path : String) → Only Quiet (load_workspaces_config H path)
  unfolding load_workspaces_config
  load-Quiet path = search only_rules depth 12

  pick-Quiet :
      (name : Option String) (config : WorkspacesConfig) → Only Quiet (pick_workspace H name config)
  unfolding pick_workspace
  pick-Quiet name config = search only_rules depth 12

  -- The last call writes the text to the file, and no other call wrote anything.
  abbrev Written : String → String → Trace → Trace → Type 0
  Written path content t u = (v : Trace) × Within Quiet t v × (u ≡ Call.write_text path content ∷ v)

  abbrev AtMostOnce : String → String → Trace → Trace → Type 0
  AtMostOnce path content t u = Within Quiet t u ⊎ Written path content t u

  abbrev body : String → String → Prog Bool
  body path content = do Calls.write_text H path content; pure true

  body-record :
      (path content : String) (t : Trace)
      → (body path content t).1 ≡ Call.write_text path content ∷ t
  unfolding ◌>>=◌
  body-record path content t = ground arith

  write-AtMostOnce :
      (path content : String) (t v : Trace)
      → Within Quiet t v
      → AtMostOnce path content t (create_file_and_write H path content v).1
  unfolding create_file_and_write lift
  write-AtMostOnce path content t v w =
      bind-outcome P (create_file_if_not_exists H path) _ v (λ e. inl made)
        λ created _. elim (Bool-cases created) [
          | inr missing ↦ rw missing (inl made)
          | inl there ↦ rw there (
              try-outcome P (body path content) _ _ (λ a _. inr (written _))
                λ e _. elim (Bool-cases (is_os_error e)) [
                  | inl caught ↦ rw caught (inr (written _))
                  | inr other ↦ rw other (inr (written _))
                ])
        ]
    where
      P : Result Bool × Trace → Type 0
      P (r, u) = AtMostOnce path content t u

      made : Within Quiet t (create_file_if_not_exists H path v).1
      made = Within-trans Quiet t w ((create-Quiet path).at v)

      written :
          (tt' : Unit {0})
          → Written path content t (body path content (create_file_if_not_exists H path v).1).1
      written _ = (_, made, body-record path content _)

  abbrev script_of : Workspace → String
  script_of ws = create_bash_script_content_for_using_ws ws H.use_workspace_script_path

  write_script-AtMostOnce :
      (ws : Workspace) (t v : Trace)
      → Within Quiet t v
      → AtMostOnce (use_file_path H) (script_of ws) t (write_script H ws v).1
  unfolding write_script lift
  write_script-AtMostOnce ws t v w =
      bind-outcome P (create_file_and_write H (use_file_path H) (script_of ws)) _ v (λ e. once)
        λ _ _. once
    where
      P : Result (Unit {0}) × Trace → Type 0
      P (r, u) = AtMostOnce (use_file_path H) (script_of ws) t u

      once :
          AtMostOnce
            (use_file_path H)
            (script_of ws)
            t
            (create_file_and_write H (use_file_path H) (script_of ws) v).1
      once = write-AtMostOnce (use_file_path H) (script_of ws) t v w

  -- The name is the given one; or none was given, and it is what the user chose among the names of the configuration, when
  -- asked at this record.
  abbrev pub Asked : Option String → WorkspacesConfig → Trace → String → Type 0
  Asked given config v name =
      ((is_given given ≡ true) × (name ≡ or_text given ""))
      ⊎ ((is_given given ≡ false)
          × ((answer : Option String) × (H.ask_select v "Choose workspace" (get_ws_names config)
                ≡ ok answer)
              × (name ≡ or_text answer "")))

  -- What the use verb leaves behind: nothing was written, or the last call writes the script of a
  -- workspace of the loaded configuration, and no other call wrote anything.
  abbrev pub Used : Option String → Trace → Trace → Type 0
  Used given t u =
      Within Quiet t u
      ⊎ ((config : WorkspacesConfig) × (name : String) × (ws : Workspace) × ((load_workspaces_config
              H (workspaces_path H) t).0
            ≡ ok config)
          × Asked given config (load_workspaces_config H (workspaces_path H) t).1 name
          × (lookup name config.workspaces ≡ some ws)
          × Written (use_file_path H) (script_of ws) t u)

  module _ (given : Option String) (config : WorkspacesConfig) (t : Trace)
      (read : (load_workspaces_config H (workspaces_path H) t).0 ≡ ok config) where
    found-Used :
        (name : String) (v : Trace)
        → Within Quiet t v
        → Asked given config (load_workspaces_config H (workspaces_path H) t).1 name
        → (found : Option Workspace) → lookup name config.workspaces ≡ found
        → Used given t (on_option found (pure tt) (write_script H) v).1
    unfolding lift
    found-Used name v w asked none unknown = inl w
    found-Used name v w asked (some ws) known = elim (write_script-AtMostOnce ws t v w) [
      | inl nothing ↦ inl nothing
      | inr written ↦ inr (config, name, ws, read, asked, known, written)
    ]

    Asked-name :
        (b : Bool) (name : Option String)
        → is_given given ≡ b
        → ((if b then pure given else Calls.ask_select H "Choose workspace" (get_ws_names config))
            (load_workspaces_config H (workspaces_path H) t).1).0
          ≡ ok name
        → Asked given config (load_workspaces_config H (workspaces_path H) t).1 (or_text name "")
    unfolding lift call
    Asked-name true name e got = inl (e, ap (λ o. or_text o "") (same got))
      where
        same : Path (Result (Option String)) (ok given) (ok name) → name ≡ given
        same h = cc h
    Asked-name false name e got = inr (e, (name, got, refl))

  -- The use verb writes no text, or only the script of a workspace of the loaded configuration, and that as its last call: of
  -- the one with the given name, or, if no name is given, of the one with the name that the user chose among those of the
  -- configuration. It never writes a YAML file, copies or removes nothing, and runs no command and no container.
  pub use_main-Used : (given : Option String) (t : Trace) → Used given t (use_main H given t).1
  unfolding use_main pick_workspace lift
  use_main-Used given t =
      bind-outcome P (load_workspaces_config H (workspaces_path H)) _ t (λ _. inl start)
        λ config read. elim (Bool-cases (is_empty config.workspaces)) [
          | inl empty ↦ rw empty (inl start)
          | inr filled ↦ rw filled (
              bind-outcome P (pick_workspace H given config) _ _ (λ _. inl (picked config))
                λ name got. elim (Bool-cases (is_given name)) [
                  | inr cancelled ↦ rw cancelled (inl (picked config))
                  | inl named ↦ rw named (
                      found-Used given config t read (or_text name "") _ (picked config)
                        (Asked-name given config t read _ name refl got) _ refl)
                ])
        ]
    where
      P : Result (Unit {0}) × Trace → Type 0
      P (r, u) = Used given t u

      start : Within Quiet t (load_workspaces_config H (workspaces_path H) t).1
      start = (load-Quiet (workspaces_path H)).at t

      picked :
          (config : WorkspacesConfig)
          → Within Quiet t
              (pick_workspace H given config (load_workspaces_config H (workspaces_path H) t).1).1
      picked config = Within-trans Quiet t start ((pick-Quiet given config).at _)
