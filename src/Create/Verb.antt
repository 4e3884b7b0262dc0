-- ===== src/Create/Verb.antt =====
-- create_verb.py: `CreateVerb.main`.
use ros_team_workspace.Base.{
  String, ◌<>◌, Bool, true, false, not, Option, none, some, List, [], ◌∷◌, is_set, contains,
  if◌then◌else◌,
}
use ros_team_workspace.Base.Dict.{insert}
use ros_team_workspace.Base.Result.{raised, system_exit, runtime_error}
use ros_team_workspace.Base.Text.{basename, normpath}
use ros_team_workspace.Workspace.{Workspace, EnvVars, post_init}
use ros_team_workspace.ConfigFile.{get_workspace_names, update_workspaces_config, workspaces_path}
use ros_team_workspace.Host.{Host}
use ros_team_workspace.Host.Prog.{Prog, pure, lift, try, throw, is_runtime_error, ◌>>=◌, ◌>>◌}
use ros_team_workspace.Host.Calls
use ros_team_workspace.Utils.{ask_yes_no, get_display_manager}
use ros_team_workspace.Docker.{docker_container_exists, docker_stop}
use ros_team_workspace.Rocker.{RockerOptions, generate_rocker_flags, execute_rocker_cmd}
use ros_team_workspace.Edit.Variables.{Env, split_assignment}
use ros_team_workspace.Create.Args.{
  CreateArgs, upstream_ws_abs_path, ws_abs_path_in_docker, upstream_ws_abs_path_in_docker,
  ssh_abs_path_in_docker,
}
use ros_team_workspace.Create.Repos.{create_post_init, agreed}
use ros_team_workspace.Create.Image.{
  abspath, build_intermediate_docker_image, run_intermediate_container,
  change_ws_folder_permissions, setup_rtw_in_intermediate_image,
}
use ros_team_workspace.Create.Commands.{get_ws_cmds, execute_ws_cmds}
use ros_team_workspace.Create.Cleanup.{delete_workspace_resources, handle_failed_workspace_creation}

-- The parsed arguments: those with the name of a field of `CreateVerbArgs` are in `fields`.
pub record CreateOptions : Type 0 where
  pub ws_name : String
  pub ws_folder : String
  pub env_vars : List String
  pub add_existing_workspace : Bool
  pub fields : CreateArgs

abbrev assign : Option (String × String) → Env → Env
assign none env = env
assign (some (k, v)) env = insert k (some v) env

-- "Process env_vars"
unfoldable pub env_vars_dict : List String → Env → Env
env_vars_dict [] env = env
env_vars_dict (text ∷ texts) env = env_vars_dict texts (assign (split_assignment text) env)

abbrev pub name_of : CreateOptions → String
name_of o = if is_set o.ws_name then o.ws_name else basename o.ws_folder

abbrev some_if : Bool → String → String → Option String
some_if b text other = some (if b then text else other)

-- A workspace on this machine; the base and the environment are given.
abbrev pub local_ws : CreateArgs → String → String → Option String → EnvVars → Workspace
local_ws a name folder base env = record {
  ws_name = name;
  distro = a.ros_distro;
  ws_folder = some folder;
  ws_docker_support = a.docker;
  docker_tag = if a.docker then some a.final_image_name else none;
  docker_container_name = if a.docker then some a.container_name else none;
  base_ws = base;
  standalone = a.standalone;
  env_vars = env;
  docker_devices = [];
}

abbrev pub base_of : CreateArgs → Option String
base_of a = some_if a.has_upstream_ws a.upstream_ws_name ""

abbrev pub local_existing_ws : CreateArgs → Workspace
local_existing_ws a = local_ws a a.ws_name a.ws_abs_path (base_of a) (some [])

abbrev pub local_upstream_ws : CreateArgs → Workspace
local_upstream_ws a = local_ws a a.upstream_ws_name (upstream_ws_abs_path a) none (some [])

-- Without Docker the tag and the container are empty texts, which `__post_init__` makes `None`.
abbrev pub local_main_ws : CreateArgs → Workspace
local_main_ws a = record (local_ws a a.ws_name a.ws_abs_path (base_of a) (some a.env_vars)) {
  docker_tag = some_if a.docker a.final_image_name "";
  docker_container_name = some_if a.docker a.container_name "";
}

module _ (H : Host) where
  -- The arguments that `CreateVerbArgs` is made from.
  abbrev pub filtered_args : CreateOptions → CreateArgs
  filtered_args o = record o.fields {
    ws_name = name_of o;
    ws_abs_path = normpath (abspath H o.ws_folder);
    env_vars = env_vars_dict o.env_vars [];
    has_upstream_ws = false;
  }

  -- `update_workspaces_config` with a new workspace, or an error.
  unfoldable pub register : Workspace → String → Prog (Unit {0})
  register raw message = do
    ws ← lift (post_init raw)
    updated ← update_workspaces_config H (workspaces_path H) ws
    if updated then pure tt else throw runtime_error message

  unfoldable pub add_existing : CreateArgs → Prog (Unit {0})
  add_existing a = do
    there ← Calls.path_exists H a.ws_abs_path
    if not there
        then throw runtime_error "Workspace folder does not exist."
        else register (local_existing_ws a)
            "Failed to update workspaces config with existing workspace."

  -- The two checks before anything is built.
  unfoldable pub check_args : CreateArgs → Prog (Unit {0})
  check_args a = do
    env_there ← if is_set a.env_file then Calls.path_exists H a.env_file else pure true
    if not env_there
        then throw runtime_error ("Environment file '" <> a.env_file <> "' does not exist.")
        else do
          taken ← if a.docker then docker_container_exists H a.container_name else pure false
          if taken
              then throw runtime_error
                  ("Docker container with name '" <> a.container_name <> "' already exists.")
              else pure tt

  unfoldable pub build_or_clean : CreateArgs → Prog (Unit {0})
  build_or_clean a =
      if not a.docker
      then pure tt
      else try (build_intermediate_docker_image H a) λ e.
        if is_runtime_error e
        then (delete_workspace_resources H a >> lift (raised e))
        else lift (raised e)

  -- The id of the intermediate container, which is empty without Docker.
  unfoldable pub start_intermediate : CreateArgs → Prog String
  start_intermediate a = if a.docker then run_intermediate_container H a else pure ""

  -- After a failed command: the container that goes on, or nothing if the workspace was deleted.
  unfoldable pub recover : CreateArgs → String → Prog (Option String)
  recover a id = do
    _ ← if a.docker then docker_stop H id else pure true
    kept ← handle_failed_workspace_creation H a
    if not kept then pure none else (start_intermediate a >>= λ id'. pure (some id'))

  unfoldable pub run_commands : CreateArgs → List (List String) → String → Prog (Option String)
  run_commands a ws_cmds id =
      try (do execute_ws_cmds H a ws_cmds id; pure (some id))
        λ e. if is_runtime_error e then recover a id else lift (raised e)

  abbrev mount : String → String → String
  mount path inside = path <> ":" <> inside

  abbrev rocker_ws_volumes : CreateArgs → List String
  rocker_ws_volumes a =
      if a.standalone
      then []
      else mount a.ws_abs_path (ws_abs_path_in_docker H a)
        ∷ (if a.has_upstream_ws
            then mount (upstream_ws_abs_path a) (upstream_ws_abs_path_in_docker H a) ∷ []
            else [])

  abbrev rocker_options : CreateArgs → RockerOptions
  rocker_options a = record {
    disable_nvidia = a.disable_nvidia;
    container_name = a.container_name;
    hostname = a.hostname;
    enable_ipc = a.enable_ipc;
    ssh_abs_path = a.ssh_abs_path;
    ssh_abs_path_in_docker = ssh_abs_path_in_docker H a;
    final_image_name = a.final_image_name;
    ws_volumes = rocker_ws_volumes a;
    user_override_name = a.user_override_name;
    env_file = a.env_file;
    devices = a.devices;
    enable_input = a.enable_input;
    enable_realtime = a.enable_realtime;
    use_groups = a.use_groups;
  }

  unfoldable pub finish_docker : CreateArgs → String → Prog (Unit {0})
  finish_docker a id = if not a.docker then pure tt else do
    change_ws_folder_permissions H a id
    setup_rtw_in_intermediate_image H a id
    flags ← generate_rocker_flags H (rocker_options a)
    created ← execute_rocker_cmd H flags a.final_image_name
    if created then pure tt else do
      save ←
          ask_yes_no H "Rocker command failed. Do you still want to save the workspace config?"
            false
      if agreed save
          then pure tt
          else lift (raised (system_exit "Not saving the workspace config."))

  -- "remove the local files if the standalone flag is set"
  unfoldable pub remove_local : CreateArgs → Prog (Unit {0})
  remove_local a = if not a.standalone then pure tt else do
    Calls.rmtree H a.ws_abs_path
    if a.has_upstream_ws then Calls.rmtree H (upstream_ws_abs_path a) else pure tt

  -- From the point where the workspace is complete: its configuration is saved.
  unfoldable pub save_workspace : CreateArgs → Prog (Unit {0})
  save_workspace a = do
    (if a.has_upstream_ws
        then register (local_upstream_ws a)
            "Failed to update workspaces config with upstream workspace."
        else pure tt)
    register (local_main_ws a) "Failed to update workspaces config with main workspace."
    remove_local a

  -- After the commands, unless the workspace was deleted.
  unfoldable pub go_on : CreateArgs → Option String → Prog (Unit {0})
  go_on a none = pure tt
  go_on a (some id) = finish_docker a id >> save_workspace a

  unfoldable pub create_new : CreateArgs → Prog (Unit {0})
  create_new a = do
    check_args a
    build_or_clean a
    id ← start_intermediate a
    ws_cmds ← get_ws_cmds H a
    went_on ← run_commands a ws_cmds id
    go_on a went_on

  unfoldable pub create_main : CreateOptions → Prog (Unit {0})
  create_main o = do
    names ← get_workspace_names H
    if contains names (name_of o)
        then throw runtime_error ("Workspace with name '" <> name_of o <> "' already exists.")
        else do
          _ ← get_display_manager H
          a ← create_post_init H (filtered_args o)
          if o.add_existing_workspace then add_existing a else create_new a
