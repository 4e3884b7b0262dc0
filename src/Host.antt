-- ===== src/Host.antt =====
-- What the commands ask of the machine: files, processes, the Docker daemon, YAML and the user.
-- Each call is recorded, the newest first, and the machine answers from the record so far: any
-- behaviour of it, failures and interrupts included, is some `Host`.
pub mod Prog
pub mod Calls
pub mod Record
pub mod Returns
use ros_team_workspace.Base.{ℕ, String, Bool, Option, List}
use ros_team_workspace.Base.Result.{Result}
use ros_team_workspace.Config.{Document}

pub data Call : Type 0 where
  is_file path_exists is_dir is_link list_dir file_size : String → Call
  make_dirs open_new unlink rmdir rmtree : String → Call
  write_text copy : String → String → Call
  read_yaml : String → Call
  write_yaml : String → Document → Call
  run_process : List String → Option String → Call
  run_shell : String → Call
  get_container get_image : String → Call
  remove_container remove_image : String → Bool → Call
  ask_checkbox : String → List String → Call
  ask_select : String → List String → Call
  ask_text : String → Call
  ask_confirm : String → Call
  ask_line : String → Call
  clock environment : Call
  read_text : String → Call
  temp_file : String → Call
  variable : String → Call
  group_id : String → Call
  display_manager : Call
  run_container : String → List String → Call
  fix_owner : String → Call
  commit_container : String → String → Call
  docker_client : Call

abbrev pub Trace : Type 0
Trace = List Call

-- `CompletedProcess.returncode`: an exit code, or the signal that ended the process.
pub data ReturnCode : Type 0 where
  exited : ℕ → ReturnCode
  killed : ℕ → ReturnCode

-- A container of the Docker SDK. `attrs` is `none` where it is falsy; in it stand the sources of the
-- `Mounts`, if there is that key.
pub record Container : Type 0 where
  pub status : String
  pub attrs : Option (Option (List (Option String)))

pub record Host : Type 0 where
  pub is_file : Trace → String → Bool
  pub path_exists : Trace → String → Bool
  pub is_dir : Trace → String → Bool
  pub is_link : Trace → String → Bool
  pub list_dir : Trace → String → Result (List String)
  pub file_size : Trace → String → Result ℕ
  pub make_dirs : Trace → String → Result (Unit {0})
  -- `open(path, "w")`, then closing the file
  pub open_new : Trace → String → Result (Unit {0})
  pub unlink : Trace → String → Result (Unit {0})
  pub rmdir : Trace → String → Result (Unit {0})
  pub rmtree : Trace → String → Result (Unit {0})
  pub write_text : Trace → String → String → Result (Unit {0})
  pub copy : Trace → String → String → Result (Unit {0})
  pub read_yaml : Trace → String → Result Document
  pub write_yaml : Trace → String → Document → Result (Unit {0})
  pub run_process : Trace → List String → Option String → Result ReturnCode
  pub run_shell : Trace → String → Result ReturnCode
  -- `docker.from_env()` and `get`
  pub get_container : Trace → String → Result Container
  pub get_image : Trace → String → Result (Unit {0})
  pub remove_container : Trace → String → Bool → Result (Unit {0})
  pub remove_image : Trace → String → Bool → Result (Unit {0})
  -- `None` where the user cancels
  pub ask_checkbox : Trace → String → List String → Result (Option (List String))
  pub ask_select : Trace → String → List String → Result (Option String)
  pub ask_text : Trace → String → Result (Option String)
  pub ask_confirm : Trace → String → Result (Option Bool)
  -- `input`
  pub ask_line : Trace → String → Result String
  pub read_text : Trace → String → Result String
  -- A new temporary file with the text: its path.
  pub temp_file : Trace → String → Result String
  -- `os.environ.get`
  pub variable : Trace → String → Option String
  -- `grp.getgrnam(group_name).gr_gid`, as a text
  pub group_id : Trace → String → Result String
  pub display_manager : Trace → Result String
  -- `containers.run` of an image with a shell and volumes: the id of the container
  pub run_container : Trace → String → List String → Result String
  -- `containers.run` of a `chown` to this user, with the path mounted
  pub fix_owner : Trace → String → Result (Unit {0})
  -- `containers.get` of an id and `commit` to a repository
  pub commit_container : Trace → String → String → Result (Unit {0})
  -- `docker.from_env()` alone
  pub docker_client : Trace → Result (Unit {0})
  -- The order in which Python walks the set of the texts.
  pub set_order : List String → List String
  -- How many calls deep Python can still go.
  pub depth_left : ℕ
  pub cwd : String
  -- `str(os.getppid())`, and the installed path of the script scripts/environment/setup.bash
  pub ppid : String
  pub use_workspace_script_path : String
  -- `getpass.getuser()`
  pub user : String
  -- `os.path.expanduser("~")`
  pub home : String
  -- `str(os.getuid())` and `str(os.getgid())`
  pub uid : String
  pub gid : String
  -- `datetime.now()`, formatted for a backup's name
  pub clock : Trace → String
  -- `os.environ.get` of the workspace's name
  pub environment : Trace → Option String
