-- ===== src/Create/Args.antt =====
-- create_verb.py: the dataclass `CreateVerbArgs`, its paths and its default values.
use ros_team_workspace.Base.{String, ◌<>◌, Bool, List, if◌then◌else◌, is_set}
use ros_team_workspace.Edit.Variables.{Env}
use ros_team_workspace.Base.Text.{join_path, normpath, before, after_last}
use ros_team_workspace.Host.{Host}
use ros_team_workspace.Utils.{replace_user_name_in_path}

pub record CreateArgs : Type 0 where
  pub ws_name : String
  pub ws_abs_path : String
  pub ros_distro : String
  pub repos_containing_repository_url : String
  pub repos_branch : String
  pub ws_repos_file_name : String
  pub upstream_ws_repos_file_name : String
  pub upstream_ws_name : String
  pub base_image_name : String
  pub final_image_name : String
  pub container_name : String
  pub rtw_docker_repo_url : String
  pub rtw_docker_branch : String
  pub no_cache : Bool
  pub rtw_docker_clone_abs_path : String
  pub ssh_abs_path : String
  pub intermediate_dockerfile_name : String
  pub intermediate_dockerfile_save_folder : String
  pub hostname : String
  pub user_override_name : String
  pub has_upstream_ws : Bool
  pub ignore_ws_cmd_error : Bool
  pub additional_apt_packages : List String
  pub no_base_apt_packages : Bool
  pub python_packages : List String
  pub standalone : Bool
  pub repos_no_skip_existing : Bool
  pub disable_nvidia : Bool
  pub docker : Bool
  pub enable_ipc : Bool
  pub docker_disable_upgrade : Bool
  pub enable_local_updates : Bool
  pub update_key : Bool
  pub env_file : String
  pub proxy_server : String
  pub proxy_ca_cert : String
  pub env_vars : Env
  pub devices : List String
  pub use_groups : List String
  pub enable_input : Bool
  pub enable_realtime : Bool

module _ (a : CreateArgs) where
  abbrev pub ws_src_abs_path : String
  ws_src_abs_path = join_path a.ws_abs_path "src"

  abbrev pub upstream_ws_abs_path : String
  upstream_ws_abs_path = normpath (join_path (join_path a.ws_abs_path "..") a.upstream_ws_name)

  abbrev pub upstream_ws_src_abs_path : String
  upstream_ws_src_abs_path = join_path upstream_ws_abs_path "src"

  abbrev pub repos_containing_repository_name : String
  repos_containing_repository_name =
      if is_set a.repos_containing_repository_url
      then before "." (after_last "/" a.repos_containing_repository_url)
      else ""

  abbrev pub repos_clone_abs_path : String
  repos_clone_abs_path = join_path ws_src_abs_path repos_containing_repository_name

  abbrev pub ws_repos_file_abs_path : String
  ws_repos_file_abs_path = join_path repos_clone_abs_path a.ws_repos_file_name

  abbrev pub upstream_ws_repos_file_abs_path : String
  upstream_ws_repos_file_abs_path = join_path repos_clone_abs_path a.upstream_ws_repos_file_name

  abbrev pub intermediate_dockerfile_abs_path : String
  intermediate_dockerfile_abs_path =
      join_path a.intermediate_dockerfile_save_folder a.intermediate_dockerfile_name

module _ (H : Host) (a : CreateArgs) where
  -- A path as the user in the container has it.
  abbrev pub path_in_docker : String → String
  path_in_docker path =
      if is_set a.user_override_name
      then replace_user_name_in_path H path a.user_override_name
      else path

  abbrev pub ssh_abs_path_in_docker : String
  ssh_abs_path_in_docker = path_in_docker a.ssh_abs_path

  abbrev pub ws_abs_path_in_docker : String
  ws_abs_path_in_docker = path_in_docker a.ws_abs_path

  abbrev pub ws_src_abs_path_in_docker : String
  ws_src_abs_path_in_docker = join_path ws_abs_path_in_docker "src"

  abbrev pub upstream_ws_abs_path_in_docker : String
  upstream_ws_abs_path_in_docker = path_in_docker (upstream_ws_abs_path a)

  abbrev pub upstream_ws_src_abs_path_in_docker : String
  upstream_ws_src_abs_path_in_docker = join_path upstream_ws_abs_path_in_docker "src"

-- `if not self.f: self.f = default`
abbrev pub or_new : String → String → String
or_new given default = if is_set given then given else default

-- The image's name comes first, since the container's default name is made from it.
unfoldable pub set_default_values : CreateArgs → CreateArgs
set_default_values a =
    let image = or_new a.final_image_name ("rtw_" <> a.ws_name <> "_final") in
    record a {
      upstream_ws_name = or_new a.upstream_ws_name (a.ws_name <> "_upstream");
      hostname = or_new a.hostname ("rtw-" <> a.ws_name <> "-docker");
      base_image_name = or_new a.base_image_name ("osrf/ros:" <> a.ros_distro <> "-desktop");
      final_image_name = image;
      container_name = or_new a.container_name (image <> "-instance");
      intermediate_dockerfile_save_folder =
          or_new a.intermediate_dockerfile_save_folder (a.ws_abs_path <> "/docker");
    }
