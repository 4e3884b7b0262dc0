-- ===== src/Create/Deletion.antt =====
-- What the cleanup after a failed creation can delete.
use ros_team_workspace.Base.{
  if◌then◌else◌, ℕ, zero, suc, String, ◌≡◌, ◌⊎◌, Bool, true, false, Option, none, some,
}
use ros_team_workspace.Base.Result.{ok}
use ros_team_workspace.Host.{Host, Call, Trace}
use ros_team_workspace.Host.Prog.{lift, pure, on_option, ◌>>=◌}
use ros_team_workspace.Host.Record.{Within, Only, Only-lift, Only-try, only_rules}
use ros_team_workspace.Host.Returns.{bind-returns}
use ros_team_workspace.Utils.{ask_yes_no, ask_yes_no_within}
use ros_team_workspace.Create.Args.{CreateArgs, upstream_ws_abs_path}
use ros_team_workspace.Create.Cleanup.{delete_workspace_resources, handle_failed_workspace_creation}

-- The call writes nothing, and deletes only what belongs to the workspace that was being created.
abbrev pub Own : CreateArgs → Call → Type 0
Own a (Call.rmtree path) = (path ≡ a.ws_abs_path) ⊎ (path ≡ upstream_ws_abs_path a)
Own a (Call.remove_container name force) = name ≡ a.container_name
Own a (Call.remove_image tag force) = tag ≡ a.final_image_name
Own a (Call.unlink path) = ⊥
Own a (Call.rmdir path) = ⊥
Own a (Call.write_yaml path document) = ⊥
Own a (Call.write_text path content) = ⊥
Own a (Call.copy from to) = ⊥
Own a _ = Unit

-- The call is a question to the user.
abbrev pub IsQuestion : Call → Type 0
IsQuestion (Call.ask_line prompt) = Unit
IsQuestion _ = ⊥

module _ (H : Host) (a : CreateArgs) where
  asks :
      (n : ℕ) (prompt : String) (default : Bool)
      → Only IsQuestion (ask_yes_no_within H n prompt default)
  unfolding ask_yes_no_within
  asks zero prompt default = Only-lift IsQuestion _
  asks (suc n) prompt default =
      Only-try IsQuestion _ _ (search (only_rules, asks n) depth 10) λ e. search only_rules depth 10

  ask-IsQuestion :
      (prompt : String) (default : Bool) → Only IsQuestion (ask_yes_no H prompt default)
  unfolding ask_yes_no
  ask-IsQuestion prompt default = asks H.depth_left prompt default

  after_answer :
      (answer : Option Bool) (t u : Trace)
      → Within IsQuestion t u
      → ((on_option answer (pure true) λ keep.
            if keep then pure true else (delete_workspace_resources H a >>= λ _. pure false))
          u).0
        ≡ ok true
      → Within IsQuestion t
          ((on_option answer (pure true) λ keep.
              if keep then pure true else (delete_workspace_resources H a >>= λ _. pure false))
            u).1
  unfolding lift
  after_answer none t u w h = w
  after_answer (some true) t u w h = w
  after_answer (some false) t u w h =
      let (done, got, goes, deleted) = bind-returns (delete_workspace_resources H a) _ u true h in
      absurd (cc deleted)

  -- If the handler of a failed creation reports that the workspace was kept, then all that it did was
  -- to ask the user.
  pub kept-IsQuestion :
      (t : Trace)
      → (handle_failed_workspace_creation H a t).0 ≡ ok true
      → Within IsQuestion t (handle_failed_workspace_creation H a t).1
  unfolding handle_failed_workspace_creation
  kept-IsQuestion t h =
      let (answer, got, goes, rest) = bind-returns (ask_yes_no H _ false) _ t true h in
      rw goes (after_answer answer t _ ((ask-IsQuestion _ false).at t) rest)
