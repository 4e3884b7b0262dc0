-- ===== src/Create/Creation.antt =====
-- What a creation that returns has done.
use ros_team_workspace.Base.{String, ◌≡◌, ◌⊎◌, true, false, Option, none, some, List, if◌then◌else◌}
use ros_team_workspace.Base.Result.{Result, ok, raised, Error}
use ros_team_workspace.Host.{Host, Trace}
use ros_team_workspace.Host.Prog.{pure, is_runtime_error}
use ros_team_workspace.Host.Record.{Within}
use ros_team_workspace.Utils.{ask_yes_no}
use ros_team_workspace.Docker.{docker_stop}
use ros_team_workspace.Create.Args.{CreateArgs}
use ros_team_workspace.Create.Cleanup.{prompt_msg, delete_workspace_resources}
use ros_team_workspace.Create.Commands.{get_ws_cmds, execute_ws_cmds}
use ros_team_workspace.Create.Saving.{OwnFolder, Saved}
use ros_team_workspace.Create.Verb.{local_main_ws, check_args, build_or_clean, start_intermediate}

module _ (H : Host) where
  -- The record after the container was stopped, if there is one.
  abbrev stopped : CreateArgs → String → Trace → Trace
  stopped a id v = ((if a.docker then docker_stop H id else pure true) v).1

  -- The user answered no, and the resources were deleted.
  abbrev pub Declined : CreateArgs → Trace → Trace → Type 0
  Declined a v u =
      ((ask_yes_no H (prompt_msg H a) false v).0 ≡ ok (some false))
      × ((delete_workspace_resources H a (ask_yes_no H (prompt_msg H a) false v).1).0 ≡ ok tt)
      × ((delete_workspace_resources H a (ask_yes_no H (prompt_msg H a) false v).1).1 ≡ u)

  -- The record when the commands of the workspace begin.
  abbrev pub ready : CreateArgs → Trace → Trace
  ready a t =
      (get_ws_cmds H a (start_intermediate H a (build_or_clean H a (check_args H a t).1).1).1).1

  -- A command of the workspace failed with a `RuntimeError`. After that, and after the container was stopped if there is one,
  -- the user was asked, answered that the workspace shall not be kept, and its resources were deleted.
  abbrev pub Abandoned : CreateArgs → Trace → Trace → Type 0
  Abandoned a t u =
      (id : String) × (ws_cmds : List (List String)) × (e : Error) × ((start_intermediate H a
          (build_or_clean H a (check_args H a t).1).1).0
        ≡ ok id)
      × ((get_ws_cmds H a (start_intermediate H a (build_or_clean H a (check_args H a t).1).1).1).0
          ≡ ok ws_cmds)
      × ((execute_ws_cmds H a ws_cmds id (ready a t)).0 ≡ raised e)
      × (is_runtime_error e ≡ true)
      × Declined a (stopped a id (execute_ws_cmds H a ws_cmds id (ready a t)).1) u

  -- The workspace was saved, and what came after that deleted at most its own folders.
  abbrev pub Registered : CreateArgs → Trace → Type 0
  Registered a u = (v w : Trace) × Saved H (local_main_ws a) v w × Within (OwnFolder a) w u

  abbrev Ends : CreateArgs → Trace → Result (Unit {0}) × Trace → Type 0
  Ends a t (r, u) = r ≡ ok tt → Abandoned a t u ⊎ Registered a u

  -- A run of the commands that gives up has had a failure, after which the user declined.
  abbrev GivesUp :
      CreateArgs → List (List String) → String → Trace → Result (Option String) × Trace → Type 0
  GivesUp a ws_cmds id v (r, u) =
      r ≡ ok none
      → (e : Error) × ((execute_ws_cmds H a ws_cmds id v).0 ≡ raised e)
        × (is_runtime_error e ≡ true)
        × Declined a (stopped a id (execute_ws_cmds H a ws_cmds id v).1) u
