-- ===== src/Import.antt =====
-- rtwcli/rtw_cmds/rtw_cmds/workspace/import_verb.py: importing a workspace from a Docker image. An
-- argument that is `None` where it is not given is the empty text here.
pub mod Arguments
pub mod Fails
use ros_team_workspace.Base.{
  String, ◌<>◌, ◌≡◌, refl, Bool, false, Option, none, some, List, [], ◌∷◌, if◌then◌else◌, is_set,
}
use ros_team_workspace.Base.Dict.{Dict, lookup}
use ros_team_workspace.Base.Result.{
  Result, ok, raised, exception, attribute_error, system_exit, ◌>>=◌ as ◌>>=?◌,
}
use ros_team_workspace.Arguments.{Value, text, flag, texts, text_at, flag_at}
use ros_team_workspace.Import.Arguments.{import_verb_args}
use ros_team_workspace.Workspace.{Workspace}
use ros_team_workspace.Host.{Host, Trace}
use ros_team_workspace.Host.Prog.{Prog, pure, lift, ◌>>=◌, ◌>>◌}
use ros_team_workspace.Utils.{ask_yes_no, replace_user_name_in_path}
use ros_team_workspace.Rocker.{RockerOptions, generate_rocker_flags, execute_rocker_cmd}
use ros_team_workspace.Create.Args.{or_new}
use ros_team_workspace.Create.Repos.{agreed}
use ros_team_workspace.Create.Image.{new_workspace}
use ros_team_workspace.Create.Verb.{register}

pub record ImportArgs : Type 0 where
  pub ws_name : String
  pub ros_distro : String
  pub standalone_docker_image : String
  pub docker : Bool
  pub disable_nvidia : Bool
  pub enable_ipc : Bool
  pub standalone : Bool
  pub final_image_name : String
  pub container_name : String
  pub ssh_abs_path : String
  pub hostname : String
  pub user_override_name : String
  pub ws_abs_path : String

-- `__post_init__`
unfoldable pub import_post_init : ImportArgs → ImportArgs
import_post_init a =
    let image = or_new a.final_image_name ("rtw_" <> a.ws_name <> "_final") in
    record a {
      hostname = or_new a.hostname ("rtw-" <> a.ws_name <> "-docker");
      final_image_name = image;
      container_name = or_new a.container_name (image <> "-instance");
    }

-- The attributes that an instance has for its fields.
unfoldable pub attributes : ImportArgs → Dict Value
attributes a =
    ("ws_name", text a.ws_name)
    ∷ ("ros_distro", text a.ros_distro)
    ∷ ("standalone_docker_image", text a.standalone_docker_image)
    ∷ ("docker", flag a.docker)
    ∷ ("disable_nvidia", flag a.disable_nvidia)
    ∷ ("enable_ipc", flag a.enable_ipc)
    ∷ ("standalone", flag a.standalone)
    ∷ ("final_image_name", text a.final_image_name)
    ∷ ("container_name", text a.container_name)
    ∷ ("ssh_abs_path", text a.ssh_abs_path)
    ∷ ("hostname", text a.hostname)
    ∷ ("user_override_name", text a.user_override_name)
    ∷ ("ws_abs_path", text a.ws_abs_path)
    ∷ []

-- The value of an attribute, or Python's error where there is none.
abbrev pub value_or_error : String → Option Value → Result Value
value_or_error name (some value) = ok value
value_or_error name none =
    raised (exception attribute_error ("'ImportVerbArgs' object has no attribute '" <> name <> "'"))

abbrev pub texts_in : Value → List String
texts_in (texts xs) = xs
texts_in value = []

-- `import_args.devices`
unfoldable pub devices_of : ImportArgs → Result (List String)
unfolding attributes lookup
devices_of a =
    value_or_error "devices" (lookup "devices" (attributes a)) >>=? λ value. ok (texts_in value)

-- The instance with these values of its fields.
unfoldable pub import_args_of : Dict Value → ImportArgs
unfolding lookup
import_args_of d = record {
  ws_name = text_at "ws_name" d;
  ros_distro = text_at "ros_distro" d;
  standalone_docker_image = text_at "standalone_docker_image" d;
  docker = flag_at "docker" d;
  disable_nvidia = flag_at "disable_nvidia" d;
  enable_ipc = flag_at "enable_ipc" d;
  standalone = flag_at "standalone" d;
  final_image_name = text_at "final_image_name" d;
  container_name = text_at "container_name" d;
  ssh_abs_path = text_at "ssh_abs_path" d;
  hostname = text_at "hostname" d;
  user_override_name = text_at "user_override_name" d;
  ws_abs_path = text_at "ws_abs_path" d;
}

module _ (H : Host) where
  abbrev ssh_in_docker : ImportArgs → String
  ssh_in_docker a =
      if is_set a.user_override_name
      then replace_user_name_in_path H a.ssh_abs_path a.user_override_name
      else a.ssh_abs_path

  abbrev import_rocker_options : ImportArgs → List String → RockerOptions
  import_rocker_options a devices = record {
    disable_nvidia = a.disable_nvidia;
    container_name = a.container_name;
    hostname = a.hostname;
    enable_ipc = a.enable_ipc;
    ssh_abs_path = a.ssh_abs_path;
    ssh_abs_path_in_docker = ssh_in_docker a;
    final_image_name = a.final_image_name;
    ws_volumes = [];
    user_override_name = a.user_override_name;
    env_file = "";
    devices = devices;
    enable_input = false;
    enable_realtime = false;
    use_groups = [];
  }

  abbrev imported_ws : ImportArgs → List String → Workspace
  imported_ws a devices = record (new_workspace a.ws_name a.ros_distro a.ws_abs_path) {
    ws_docker_support = a.docker;
    docker_tag = some a.final_image_name;
    docker_container_name = some a.container_name;
    standalone = a.standalone;
    docker_devices = devices;
  }

  unfoldable pub import_with : ImportArgs → Prog (Unit {0})
  import_with a = do
    devices ← lift (devices_of a)
    flags ← generate_rocker_flags H (import_rocker_options a devices)
    created ← execute_rocker_cmd H flags a.standalone_docker_image
    if created then pure tt else do
      save ←
          ask_yes_no H "Rocker command failed. Do you still want to save the workspace config?"
            false
      if agreed save
          then pure tt
          else lift (raised (system_exit "Not saving the workspace config."))
    again ← lift (devices_of a)
    register H (imported_ws a again) "Failed to update workspaces config with main workspace."

  -- From the instance on.
  unfoldable pub import_instance : ImportArgs → Prog (Unit {0})
  import_instance a = import_with (import_post_init a)

  -- `main`, with what argparse parsed.
  unfoldable pub import_main : Dict Value → Prog (Unit {0})
  unfolding import_verb_args import_args_of import_instance
  import_main args_dict = do
    d ← lift (import_verb_args args_dict)
    import_instance (import_args_of d)

  -- Whatever the fields are, the instance has no attribute for the devices.
  pub import_instance_fails :
      (a : ImportArgs) (t : Trace)
      → import_instance a t ≡ (
        raised (exception attribute_error "'ImportVerbArgs' object has no attribute 'devices'"),
        t,
      )
  unfolding import_instance import_with devices_of attributes lookup ◌>>=◌
  import_instance_fails a t = refl
