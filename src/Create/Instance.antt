-- ===== src/Create/Instance.antt =====
-- create_verb.py: the instance of `CreateVerbArgs` that main makes.
use ros_team_workspace.Base.{String, List}
use ros_team_workspace.Base.Dict.{Dict, lookup}
use ros_team_workspace.Host.{Host}
use ros_team_workspace.Host.Prog.{Prog, lift, ◌>>=◌}
use ros_team_workspace.Arguments.{Value, text_at, flag_at, texts_at, dict_at}
use ros_team_workspace.Create.Args.{CreateArgs}
use ros_team_workspace.Create.Arguments.{create_verb_init}
use ros_team_workspace.Create.Repos.{create_post_init}

-- The instance with these values of its fields.
unfoldable pub create_args_of : Dict Value → CreateArgs
unfolding lookup
create_args_of d = record {
  ws_name = text_at "ws_name" d;
  ws_abs_path = text_at "ws_abs_path" d;
  ros_distro = text_at "ros_distro" d;
  repos_containing_repository_url = text_at "repos_containing_repository_url" d;
  repos_branch = text_at "repos_branch" d;
  ws_repos_file_name = text_at "ws_repos_file_name" d;
  upstream_ws_repos_file_name = text_at "upstream_ws_repos_file_name" d;
  upstream_ws_name = text_at "upstream_ws_name" d;
  base_image_name = text_at "base_image_name" d;
  final_image_name = text_at "final_image_name" d;
  container_name = text_at "container_name" d;
  rtw_docker_repo_url = text_at "rtw_docker_repo_url" d;
  rtw_docker_branch = text_at "rtw_docker_branch" d;
  no_cache = flag_at "no_cache" d;
  rtw_docker_clone_abs_path = text_at "rtw_docker_clone_abs_path" d;
  ssh_abs_path = text_at "ssh_abs_path" d;
  intermediate_dockerfile_name = text_at "intermediate_dockerfile_name" d;
  intermediate_dockerfile_save_folder = text_at "intermediate_dockerfile_save_folder" d;
  hostname = text_at "hostname" d;
  user_override_name = text_at "user_override_name" d;
  has_upstream_ws = flag_at "has_upstream_ws" d;
  ignore_ws_cmd_error = flag_at "ignore_ws_cmd_error" d;
  additional_apt_packages = texts_at "additional_apt_packages" d;
  no_base_apt_packages = flag_at "no_base_apt_packages" d;
  python_packages = texts_at "python_packages" d;
  standalone = flag_at "standalone" d;
  repos_no_skip_existing = flag_at "repos_no_skip_existing" d;
  disable_nvidia = flag_at "disable_nvidia" d;
  docker = flag_at "docker" d;
  enable_ipc = flag_at "enable_ipc" d;
  docker_disable_upgrade = flag_at "docker_disable_upgrade" d;
  enable_local_updates = flag_at "enable_local_updates" d;
  update_key = flag_at "update_key" d;
  env_file = text_at "env_file" d;
  proxy_server = text_at "proxy_server" d;
  proxy_ca_cert = text_at "proxy_ca_cert" d;
  env_vars = dict_at "env_vars" d;
  devices = texts_at "devices" d;
  use_groups = texts_at "use_groups" d;
  enable_input = flag_at "enable_input" d;
  enable_realtime = flag_at "enable_realtime" d;
}

-- `CreateVerbArgs(**filtered_args)`: the fields get their values, then `__post_init__` runs.
unfoldable pub create_verb_args :
    Host → Dict Value → String → String → List String → Prog CreateArgs
unfolding create_verb_init create_args_of create_post_init
create_verb_args H args_dict ws_name ws_folder env_vars =
    lift (create_verb_init H args_dict ws_name ws_folder env_vars) >>= λ d.
    create_post_init H (create_args_of d)
