-- ===== src/Delete/Report.antt =====
-- delete_verb.py: the tree that `print_removal_stats` prints, as its lines with their depths.
use ros_team_workspace.Base.{ℕ, suc, ◌+◌, String, ◌<>◌, List, [], ◌∷◌, ◌++◌, length}
use ros_team_workspace.Base.Dict.{Dict}
use ros_team_workspace.Base.Number.{number_text}
use ros_team_workspace.Delete.{RemovalStatus, RemovalStats}
use ros_team_workspace.Delete.Steps.{StepStats, StepStatus, name_text}

abbrev pub Tree : Type 0
Tree = List (ℕ × String)

-- `WorkspaceRemovalStatus(…).name` and `StepStatus(…).name`
abbrev pub removal_status_name : RemovalStatus → String
removal_status_name RemovalStatus.not_started = "NOT_STARTED"
removal_status_name RemovalStatus.completed = "COMPLETED"
removal_status_name RemovalStatus.failed = "FAILED"
removal_status_name RemovalStatus.interrupted = "INTERRUPTED"
removal_status_name RemovalStatus.caught_exception = "CAUGHT_EXCEPTION"

abbrev pub step_status_name : StepStatus → String
step_status_name StepStatus.not_started = "NOT_STARTED"
step_status_name StepStatus.completed = "COMPLETED"
step_status_name StepStatus.failed = "FAILED"
step_status_name StepStatus.skipped = "SKIPPED"

abbrev pub is_completed : RemovalStatus → ℕ
is_completed RemovalStatus.completed = 1
is_completed status = 0

unfoldable pub completed_count : Dict RemovalStats → ℕ
completed_count [] = 0
completed_count ((name, stats) ∷ rest) = is_completed stats.status + completed_count rest

-- The steps of one workspace, from a number on.
unfoldable pub step_nodes : ℕ → List StepStats → Tree
step_nodes step_i [] = []
step_nodes step_i (step ∷ steps) =
    (
      2,
      "[yellow]"
          <> number_text step_i
          <> ". "
          <> name_text step.name
          <> ": [bold magenta]"
          <> step_status_name step.status,
    )
    ∷ (3, "[cyan]" <> step.message)
    ∷ step_nodes (suc step_i) steps

unfoldable pub workspace_nodes : ℕ → Dict RemovalStats → Tree
unfolding step_nodes
workspace_nodes ws_i [] = []
workspace_nodes ws_i ((ws_name, stats) ∷ rest) =
    (
      1,
      "[bold blue]"
          <> number_text ws_i
          <> ". "
          <> ws_name
          <> " - [bold magenta]"
          <> removal_status_name stats.status,
    )
      ∷ step_nodes 1 stats.steps
    ++ workspace_nodes (suc ws_i) rest

unfoldable pub print_removal_stats : Dict RemovalStats → Tree
unfolding completed_count workspace_nodes
print_removal_stats stats =
    (
      0,
      "[bold green]Workspace Removal Statistics: "
          <> number_text (completed_count stats)
          <> "/"
          <> number_text (length stats),
    )
    ∷ workspace_nodes 1 stats
