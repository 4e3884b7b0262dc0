-- ===== src/Delete/Rules.antt =====
-- The record of the removal steps and of the loop over them, part by part.
use ros_team_workspace.Base.{Bool-cases, inl, inr, String, ◌≡◌, Bool, true, List, [], ◌∷◌}
use ros_team_workspace.Base.Dict.{Dict, lookup}
use ros_team_workspace.Base.Result.{Result, ok, raised, exception, keyboard_interrupt, system_exit}
use ros_team_workspace.Workspace.{Workspace}
use ros_team_workspace.Config.{WorkspacesConfig}
use ros_team_workspace.Host.{Host, Call}
use ros_team_workspace.Host.Prog.{Prog}
use ros_team_workspace.Host.Record.{
  Only, only_rules, Only-bind, Only-attempt, Only-lift, Only-if, Only-call, Only-option,
}
use ros_team_workspace.Base.Text.{join_path}
use ros_team_workspace.Delete.Steps.{
  StepName, StepStats, keeping, item_choices, chosen_paths, remove_item, remove_items,
  ask_and_remove, run_remove_folder, execute, should_run, run_step,
}
use ros_team_workspace.Delete.{run_steps, after_step, StepsEnd}

module _ (H : Host) (Q : Call → Type 0) where
  after_step-Only :
      (s : StepName) (steps : List StepStats) (config : WorkspacesConfig)
      (go_on : WorkspacesConfig
        → List StepStats
        → Prog (List StepStats × StepsEnd × WorkspacesConfig))
      → ((c : WorkspacesConfig) (l : List StepStats) → Only Q (go_on c l))
      → (r : Result (StepStats × WorkspacesConfig)) → Only Q (after_step s steps config go_on r)
  unfolding after_step
  after_step-Only s steps config go_on h (raised keyboard_interrupt) = Only-lift Q _
  after_step-Only s steps config go_on h (raised (exception k m)) = Only-lift Q _
  after_step-Only s steps config go_on h (raised (system_exit m)) = Only-lift Q _
  after_step-Only s steps config go_on h (ok (stats, c)) = Only-if Q _ _ _ (Only-lift Q _) (h c _)

  -- A loop over steps does what its steps do.
  pub run_steps-Only :
      (ws : Workspace)
      → ((s : StepName) (c : WorkspacesConfig) → Only Q (execute H s ws c))
      → (ss : List StepName) (config : WorkspacesConfig) (steps : List StepStats)
      → Only Q (run_steps H ss ws config steps)
  unfolding run_steps
  run_steps-Only ws h [] config steps = Only-lift Q _
  run_steps-Only ws h (s ∷ ss) config steps =
      Only-bind Q _ _ (Only-attempt Q _ (h s config))
        (after_step-Only s steps config (run_steps H ss ws) (run_steps-Only ws h ss))

  item_choices-Only :
      ((path : String) → Q (Call.is_dir path) × Q (Call.list_dir path))
      → (folder : String) (items : List String) (choices : Dict String)
      → Only Q (item_choices H folder items choices)
  unfolding item_choices
  item_choices-Only h folder [] choices = Only-lift Q _
  item_choices-Only h folder (item ∷ items) choices =
      Only-bind Q _ _ (Only-call Q _ _ (h (join_path folder item)).0) λ directory.
        Only-bind Q _ _
          (Only-if Q directory _ _
            (Only-bind Q _ _ (Only-call Q _ _ (h (join_path folder item)).1)
              (λ inner. Only-lift Q _))
            (Only-lift Q _))
          (λ shown. item_choices-Only h folder items _)

  chosen_paths-Only :
      (choices : Dict String) (items : List String) → Only Q (chosen_paths H choices items)
  unfolding chosen_paths
  chosen_paths-Only choices [] = Only-lift Q _
  chosen_paths-Only choices (item ∷ items) =
      Only-option Q (lookup item choices) _ _ (Only-lift Q _)
        λ path. Only-bind Q _ _ (chosen_paths-Only choices items) (λ paths. Only-lift Q _)

  remove_items-Only :
      ((path : String) → Only Q (remove_item H path))
      → (paths : List String) → Only Q (remove_items H paths)
  unfolding remove_items
  remove_items-Only h [] = Only-lift Q _
  remove_items-Only h (path ∷ paths) = Only-bind Q _ _ (h path) (λ _. remove_items-Only h paths)

  remove_item-Only :
      ((path : String) → Q (Call.is_file path) × Q (Call.is_link path) × Q (Call.is_dir path))
      → ((path : String) → Q (Call.unlink path) × Q (Call.rmtree path))
      → (path : String) → Only Q (remove_item H path)
  unfolding remove_item
  remove_item-Only asks acts path = Only-bind Q _ _ (Only-call Q _ _ (asks path).0) λ file.
      Only-bind Q _ _ (Only-if Q file _ _ (Only-lift Q _) (Only-call Q _ _ (asks path).1)) λ link.
        Only-if Q link _ _ (Only-call Q _ _ (acts path).0) (
          Only-bind Q _ _ (Only-call Q _ _ (asks path).2)
            λ directory. Only-if Q directory _ _ (Only-call Q _ _ (acts path).1) (Only-lift Q _))

  pub execute-Only :
      (s : StepName) (ws : Workspace) (config : WorkspacesConfig)
      → (should_run s ws ≡ true → Only Q (run_step H s ws config))
      → Only Q (execute H s ws config)
  unfolding execute
  execute-Only s ws config h = elim (Bool-cases (should_run s ws)) [
    | inl runs ↦ rw runs (Only-bind Q _ _ (h runs) (λ r. Only-lift Q _))
    | inr skips ↦ rw skips (Only-lift Q _)
  ]

  pub keeping-Only :
      (config : WorkspacesConfig) (m : Prog (Bool × String))
      → Only Q m
      → Only Q (keeping H config m)
  keeping-Only config m h = Only-bind Q _ _ h (λ r. Only-lift Q _)

  pub folder-Only :
      ((path : String)
        → Q (Call.is_file path)
          × Q (Call.is_link path)
          × Q (Call.is_dir path)
          × Q (Call.list_dir path)
          × Q (Call.path_exists path)
          × Q (Call.unlink path)
          × Q (Call.rmtree path))
      → ((m : String) (l : List String) → Q (Call.ask_checkbox m l))
      → (ws : Workspace) → Only Q (run_remove_folder H ws)
  unfolding run_remove_folder ask_and_remove
  folder-Only calls asks ws =
      search
        (
          only_rules,
          item_choices-Only (λ path. ((calls path).2, (calls path).3)),
          chosen_paths-Only,
          remove_items-Only (
              remove_item-Only (λ p. ((calls p).0, (calls p).1, (calls p).2))
                (λ p. ((calls p).5, (calls p).6))),
          λ (p : String). (calls p).4,
          λ (p : String). (calls p).3,
          asks,
        )
        depth 12
