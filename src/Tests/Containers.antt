-- ===== src/Tests/Containers.antt =====
-- The container verbs and commands on a machine where every call succeeds.
use mathlib.Core.Path.{subst}
use ros_team_workspace.Base.{
  ap, sym, ◌∙◌, if◌then◌else◌, ◌==◌, String, Bool, true, false, zero, ◌≡◌, ◌⊎◌, ◌↔◌, refl, none,
  some, [], ◌∷◌,
}
use ros_team_workspace.Base.Result.{Result, ok, raised, Error}
use ros_team_workspace.Host.{Container, Trace, Host, Call, ReturnCode, exited}
use ros_team_workspace.Host.Prog.{◌>>=◌, is_exception}
use ros_team_workspace.Host.Record.{Only}
use ros_team_workspace.Utils.{run_command, has_code}
use ros_team_workspace.Utils.Commands.{run_command_outcome}
use ros_team_workspace.Docker.{
  is_docker_container_running, fix_missing_xauth_file, docker_start, docker_stop, container_attrs,
  find_xauth, start_command, stop_command,
}
use ros_team_workspace.Docker.Verbs.{
  check_workspace, container_start_routine, container_stop_routine, enter_main, start_main,
  stop_main, restart_main,
}
use ros_team_workspace.Docker.Lifecycle.{
  IsDaemon, StopsContainers, Runs, Stopped, start-Runs, stop-Stopped,
}
use ros_team_workspace.Docker.Safety.{Gentle, verbs-Gentle}
use ros_team_workspace.Tests.Machine.{smooth, is_up, container_at}
use ros_team_workspace.Tests.Configuration.{sample}

abbrev machine : Host
machine = smooth none

abbrev status_of : Result Container → String
status_of (ok c) = c.status
status_of (raised e) = ""

not-Runs_of_exited : (t : Trace) (name : String) → is_up t ≡ false → ¬ Runs machine t name
not-Runs_of_exited t name down (c, got, runs) =
    let e : (container_at t).status ≡ c.status = ap status_of got in
    absurd (
      cc (
        subst (λ (s : String). (s == "running") ≡ true)
          (sym e ∙ ap (λ (b : Bool). if b then "running" else "exited") down) runs))

machine-IsDaemon : IsDaemon machine
machine-IsDaemon = record { started = λ t name h. (_, refl, refl); looked = λ t name other. refl }

machine-StopsContainers : StopsContainers machine
machine-StopsContainers t name h =
    not-Runs_of_exited (Call.run_process (stop_command machine name) none ∷ t) name refl

starts : (container_start_routine machine (some sample) []).0 ≡ ok true
unfolding container_start_routine check_workspace is_docker_container_running fix_missing_xauth_file
    container_attrs docker_start find_xauth ◌>>=◌
starts = refl

-- The container runs.
abbrev started : Trace
started = Call.run_process (start_command machine "rtw_ws_final-instance") none ∷ []

stops : (container_stop_routine machine (some sample) started).0 ≡ ok true
unfolding container_stop_routine check_workspace is_docker_container_running docker_stop ◌>>=◌
stops = refl

start-Runs_example :
    Runs machine (container_start_routine machine (some sample) []).1 "rtw_ws_final-instance"
start-Runs_example = start-Runs machine machine-IsDaemon (some sample) [] starts

stop-Stopped_example :
    Stopped machine "rtw_ws_final-instance" started
      (container_stop_routine machine (some sample) started).1
stop-Stopped_example = stop-Stopped machine machine-StopsContainers (some sample) started stops

verbs-Gentle_example :
    Only Gentle (enter_main machine)
    × Only Gentle (start_main machine)
    × Only Gentle (stop_main machine)
    × Only Gentle (restart_main machine)
verbs-Gentle_example = verbs-Gentle machine

run_command_outcome_example :
    ((run_command machine ("colcon" ∷ []) none [] []).1
      ≡ Call.run_process ("colcon" ∷ []) none ∷ [])
    × (((run_command machine ("colcon" ∷ []) none [] []).0 ≡ ok true) ↔ (
        (code : ReturnCode) × (machine.run_process [] ("colcon" ∷ []) none ≡ ok code)
        × ((code ≡ exited zero) ⊎ (has_code [] code ≡ true))))
    × ((e : Error)
        → ((run_command machine ("colcon" ∷ []) none [] []).0 ≡ raised e)
          ↔ ((machine.run_process [] ("colcon" ∷ []) none ≡ raised e) × (is_exception e ≡ false)))
run_command_outcome_example = run_command_outcome machine ("colcon" ∷ []) none [] []
