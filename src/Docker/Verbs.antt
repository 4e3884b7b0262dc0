-- ===== src/Docker/Verbs.antt =====
-- rtwcli/rtw_cmds/rtw_cmds/docker/verbs.py: enter, start, stop and restart the current container.
use ros_team_workspace.Base.{String, Bool, true, false, not, ◌&&◌, Option, none, some}
use ros_team_workspace.Base.{if◌then◌else◌, is_given, or_text}
use ros_team_workspace.Workspace.{Workspace}
use ros_team_workspace.Host.{Host}
use ros_team_workspace.Host.Prog.{Prog, pure, ◌>>=◌}
use ros_team_workspace.ConfigFile.{get_current_workspace}
use ros_team_workspace.Docker.{
  is_docker_container_running, fix_missing_xauth_file, docker_start, docker_stop,
  docker_exec_interactive_bash,
}

unfoldable pub check_workspace : Option Workspace → Bool
check_workspace none = false
check_workspace (some ws) = ws.ws_docker_support && is_given ws.docker_container_name

-- `ws.docker_container_name`, where the workspace has passed `check_workspace`.
abbrev pub container_of : Option Workspace → String
container_of none = ""
container_of (some ws) = or_text ws.docker_container_name ""

module _ (H : Host) where
  unfoldable pub container_start_routine : Option Workspace → Prog Bool
  container_start_routine ws = if not (check_workspace ws) then pure false else do
    running ← is_docker_container_running H (container_of ws)
    if running then pure true else do
      fixed ← fix_missing_xauth_file H (container_of ws)
      if not fixed then pure false else docker_start H (container_of ws)

  unfoldable pub container_stop_routine : Option Workspace → Prog Bool
  container_stop_routine ws = if not (check_workspace ws) then pure false else do
    running ← is_docker_container_running H (container_of ws)
    if running then docker_stop H (container_of ws) else pure true

  unfoldable pub enter_main : Prog (Unit {0})
  enter_main = do
    ws ← get_current_workspace H
    started ← container_start_routine ws
    if not started
        then pure tt
        else do _ ← docker_exec_interactive_bash H (container_of ws); pure tt

  unfoldable pub start_main : Prog (Unit {0})
  start_main = do ws ← get_current_workspace H; _ ← container_start_routine ws; pure tt

  unfoldable pub stop_main : Prog (Unit {0})
  stop_main = do ws ← get_current_workspace H; _ ← container_stop_routine ws; pure tt

  unfoldable pub restart_main : Prog (Unit {0})
  restart_main = do
    ws ← get_current_workspace H
    stopped ← container_stop_routine ws
    if not stopped then pure tt else do _ ← container_start_routine ws; pure tt
