-- ===== src/Delete.antt =====
-- rtwcli/rtw_cmds/rtw_cmds/workspace/delete_verb.py: the removal of workspaces, step by step.
pub mod Steps
pub mod Rules
pub mod Safety
pub mod Order
pub mod Verb
pub mod Report
use ros_team_workspace.Base.{
  String, ◌<>◌, Bool, true, false, Option, none, some, List, [], ◌∷◌, ◌++◌,
}
use ros_team_workspace.Base.{if◌then◌else◌}
use ros_team_workspace.Base.Dict.{Dict, lookup, insert}
use ros_team_workspace.Base.Result.{
  Kind, Error, Result, ok, raised, exception, keyboard_interrupt, system_exit,
}
use ros_team_workspace.Workspace.{Workspace}
use ros_team_workspace.Config.{WorkspacesConfig}
use ros_team_workspace.Host.{Host}
use ros_team_workspace.Host.Prog.{Prog, pure, lift, attempt, ◌>>=◌}
use Steps.{StepName, StepStats, StepStatus, name_text, removal_steps, execute}

pub data RemovalStatus : Type 0 where
  not_started completed failed interrupted caught_exception : RemovalStatus

-- `WorkspaceRemovalStats`
pub record RemovalStats : Type 0 where
  pub status : RemovalStatus
  pub message : String
  pub steps : List StepStats

abbrev pub fresh_stats : RemovalStats
fresh_stats = record { status = RemovalStatus.not_started; message = ""; steps = [] }

-- How the loop over the steps of one workspace ends.
pub data StepsEnd : Type 0 where
  all_done : StepsEnd
  step_failed : StepName → StepsEnd
  by_interrupt : StepsEnd
  by_exception : Kind → String → StepsEnd

abbrev pub is_failed : StepStatus → Bool
is_failed StepStatus.failed = true
is_failed _ = false

-- `removal_stats[ws_name]`
abbrev pub stats_of : String → Dict RemovalStats → RemovalStats
stats_of name stats = elim (lookup name stats) [ none ↦ fresh_stats | some s ↦ s ]

-- The status and the message that the end of the loop leaves for a workspace.
unfoldable pub end_status : StepsEnd → RemovalStatus
end_status all_done = RemovalStatus.completed
end_status (step_failed s) = RemovalStatus.failed
end_status by_interrupt = RemovalStatus.interrupted
end_status (by_exception k m) = RemovalStatus.caught_exception

unfoldable pub end_message : String → StepsEnd → String
end_message name all_done = "Successfully removed workspace '" <> name <> "'"
end_message name (step_failed s) =
    "Failed to remove workspace '" <> name <> "' during " <> name_text s
end_message name by_interrupt = "Removal process for workspace '" <> name <> "' interrupted by user"
end_message name (by_exception k m) = "Error during removal of workspace '" <> name <> "': " <> m

-- The first loop of `remove_workspaces`, a dict comprehension.
unfoldable pub initial_stats : List String → Dict RemovalStats → Dict RemovalStats
initial_stats [] stats = stats
initial_stats (name ∷ names) stats = initial_stats names (insert name fresh_stats stats)

-- The clauses `except KeyboardInterrupt` and `except Exception`. A `SystemExit` goes on.
abbrev pub caught :
    List StepStats → WorkspacesConfig → Error → Prog (List StepStats × StepsEnd × WorkspacesConfig)
caught steps config keyboard_interrupt = pure (steps, by_interrupt, config)
caught steps config (exception k m) = pure (steps, by_exception k m, config)
caught steps config (system_exit m) = lift (raised (system_exit m))

-- What the loop does after a step: it stops at an exception and at a failure.
unfoldable pub after_step :
    StepName
    → List StepStats
    → WorkspacesConfig
    → (WorkspacesConfig → List StepStats → Prog (List StepStats × StepsEnd × WorkspacesConfig))
    → Result (StepStats × WorkspacesConfig)
    → Prog (List StepStats × StepsEnd × WorkspacesConfig)
after_step s steps config go_on (raised e) = caught steps config e
after_step s steps config go_on (ok (stats, config')) =
    let steps' = steps ++ (stats ∷ []) in
    if is_failed stats.status then pure (steps', step_failed s, config') else go_on config' steps'

module _ (H : Host) where
  -- The loop over the steps: the stats so far, how it ended, and the config that the steps leave.
  unfoldable pub run_steps :
      List StepName
      → Workspace
      → WorkspacesConfig
      → List StepStats
      → Prog (List StepStats × StepsEnd × WorkspacesConfig)
  unfolding after_step
  run_steps [] ws config steps = pure (steps, all_done, config)
  run_steps (s ∷ rest) ws config steps =
      attempt (execute H s ws config) >>= after_step s steps config (run_steps rest ws)

  -- What the loop over the names does after the steps of a workspace: it goes on only after success.
  unfoldable pub after_steps :
      String
      → Dict RemovalStats
      → (WorkspacesConfig → Dict RemovalStats → Prog (Dict RemovalStats))
      → List StepStats × StepsEnd × WorkspacesConfig
      → Prog (Dict RemovalStats)
  unfolding end_status end_message
  after_steps name stats go_on (steps, all_done, config) = go_on config (
      insert name
        (record {
          status = end_status all_done;
          message = end_message name all_done;
          steps = steps;
        })
        stats)
  after_steps name stats go_on (steps, end, config) = pure (
      insert name
        (record { status = end_status end; message = end_message name end; steps = steps }) stats)

  -- The second loop of `remove_workspaces`.
  unfoldable pub remove_loop :
      List String → WorkspacesConfig → Dict RemovalStats → Prog (Dict RemovalStats)
  unfolding run_steps after_steps
  remove_loop [] config stats = pure stats
  remove_loop (name ∷ names) config stats = elim (lookup name config.workspaces) [
    | none ↦ remove_loop names config (
        insert name
          (record (stats_of name stats) {
            status = RemovalStatus.failed;
            message = "Workspace '" <> name <> "' not found in the configuration";
          })
          stats)
    | some ws ↦
        run_steps removal_steps ws config (stats_of name stats).steps
        >>= after_steps name stats (remove_loop names)
  ]

  unfoldable pub remove_workspaces : WorkspacesConfig → List String → Prog (Dict RemovalStats)
  unfolding remove_loop initial_stats
  remove_workspaces config names = remove_loop names config (initial_stats names [])
