-- ===== src/Tests/Creation.antt =====
-- The create verb at concrete data.
use ros_team_workspace.Base.{String, ◌≡◌, refl, true, false, some, List, [], ◌∷◌}
use ros_team_workspace.Base.Result.{ok}
use ros_team_workspace.Base.Text.{lower, strip_left, strip_right}
use ros_team_workspace.Config.{ws_to_dict}
use ros_team_workspace.Host.{Host, Trace}
use ros_team_workspace.Host.Prog.{◌>>=◌}
use ros_team_workspace.Utils.{ask_yes_no}
use ros_team_workspace.Create.Args.{CreateArgs}
use ros_team_workspace.Create.Commands.{execute_ws_cmds}
use ros_team_workspace.Create.Cleanup.{handle_failed_workspace_creation}
use ros_team_workspace.Create.Execution.{Runs, execute-Runs}
use ros_team_workspace.Tests.Machine.{smooth}
use ros_team_workspace.Tests.Configuration.{other}

abbrev args : CreateArgs
args = record {
  ws_name = "new";
  ws_abs_path = "/home/user/new";
  ros_distro = "jazzy";
  repos_containing_repository_url = "";
  repos_branch = "master";
  ws_repos_file_name = "";
  upstream_ws_repos_file_name = "";
  upstream_ws_name = "new_upstream";
  base_image_name = "osrf/ros:jazzy-desktop";
  final_image_name = "rtw_new_final";
  container_name = "rtw_new_final-instance";
  rtw_docker_repo_url = "https://github.com/b-robotized/ros_team_workspace.git";
  rtw_docker_branch = "master";
  no_cache = false;
  rtw_docker_clone_abs_path = "/home/user/ros_team_workspace";
  ssh_abs_path = "/home/user/.ssh";
  intermediate_dockerfile_name = "Dockerfile";
  intermediate_dockerfile_save_folder = "/home/user/new/docker";
  hostname = "rtw-new-docker";
  user_override_name = "";
  has_upstream_ws = false;
  ignore_ws_cmd_error = false;
  additional_apt_packages = [];
  no_base_apt_packages = false;
  python_packages = [];
  standalone = true;
  repos_no_skip_existing = false;
  disable_nvidia = false;
  docker = false;
  enable_ipc = false;
  docker_disable_upgrade = false;
  enable_local_updates = false;
  update_key = false;
  env_file = "";
  proxy_server = "";
  proxy_ca_cert = "";
  env_vars = [];
  devices = [];
  use_groups = [];
  enable_input = false;
  enable_realtime = false;
}

abbrev machine : Host
machine = smooth (some (("workspaces", ("other", ws_to_dict other) ∷ []) ∷ []))

-- The user agrees to every question.
abbrev agreeing : Host
agreeing = record machine { ask_line = λ t m. ok "Yes\n" }

is_kept : (handle_failed_workspace_creation agreeing args []).0 ≡ ok true
unfolding handle_failed_workspace_creation ask_yes_no ◌>>=◌ lower strip_left strip_right
is_kept = refl

abbrev commands : List (List String)
commands = ("rosdep" ∷ "update" ∷ []) ∷ ("colcon" ∷ "build" ∷ []) ∷ []

execute-Runs_example : Runs machine commands [] (execute_ws_cmds machine args commands "" [])
execute-Runs_example = execute-Runs machine args "" commands [] refl refl

-- The user agrees at the second question.
abbrev slow_typist : Host
slow_typist = record machine { ask_line = λ t m. ok (line_after t) }
  where
    line_after : Trace → String
    line_after [] = "maybe"
    line_after (c ∷ t) = "y"
