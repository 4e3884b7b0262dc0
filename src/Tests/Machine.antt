-- ===== src/Tests/Machine.antt =====
-- Two machines on which the witnesses run.
use ros_team_workspace.Base.{
  zero, String, Bool, true, false, Option, none, some, List, [], ◌∷◌, ◌==◌, if◌then◌else◌,
}
use ros_team_workspace.Base.Result.{ok}
use ros_team_workspace.Config.{Document}
use ros_team_workspace.Host.{Host, Trace, Call, Container, exited}

-- What a command does to the container: `some true` starts it, `some false` stops it.
abbrev verb_of : List String → Option Bool
verb_of (docker ∷ verb ∷ name ∷ []) =
    if verb == "start" then some true else if verb == "stop" then some false else none
verb_of _ = none

abbrev effect_of : Option Bool → Bool → Bool
effect_of none up = up
effect_of (some b) up = b

-- Whether the container runs, after the calls so far.
abbrev pub is_up : Trace → Bool
is_up [] = false
is_up (Call.run_process command cwd ∷ t) = effect_of (verb_of command) (is_up t)
is_up (_ ∷ t) = is_up t

abbrev pub container_at : Trace → Container
container_at t = record { status = if is_up t then "running" else "exited"; attrs = some (some []) }

-- Every call succeeds, and the YAML file holds the given document.
abbrev pub smooth : Document → Host
smooth document = record {
  is_file = λ t p. true;
  path_exists = λ t p. true;
  is_dir = λ t p. false;
  is_link = λ t p. false;
  list_dir = λ t p. ok ("src" ∷ "install" ∷ []);
  file_size = λ t p. ok 7;
  make_dirs = λ t p. ok tt;
  open_new = λ t p. ok tt;
  unlink = λ t p. ok tt;
  rmdir = λ t p. ok tt;
  rmtree = λ t p. ok tt;
  write_text = λ t p c. ok tt;
  copy = λ t a b. ok tt;
  read_yaml = λ t p. ok document;
  write_yaml = λ t p d. ok tt;
  run_process = λ t c w. ok (exited zero);
  run_shell = λ t c. ok (exited zero);
  get_container = λ t name. ok (container_at t);
  get_image = λ t tag. ok tt;
  remove_container = λ t name force. ok tt;
  remove_image = λ t tag force. ok tt;
  ask_checkbox = λ t m choices. ok (some choices);
  ask_select = λ t m choices. ok none;
  ask_text = λ t m. ok none;
  ask_confirm = λ t m. ok (some true);
  ask_line = λ t m. ok "";
  read_text = λ t p. ok "";
  temp_file = λ t c. ok "/tmp/file";
  variable = λ t name. none;
  group_id = λ t name. ok "27";
  display_manager = λ t. ok "x11";
  run_container = λ t image volumes. ok "c0ffee";
  fix_owner = λ t p. ok tt;
  commit_container = λ t id repository. ok tt;
  docker_client = λ t. ok tt;
  set_order = λ names. names;
  depth_left = 900;
  cwd = "/home/user";
  ppid = "4711";
  use_workspace_script_path = "/opt/rtw/scripts/environment/setup.bash";
  user = "user";
  home = "/home/user";
  uid = "1000";
  gid = "1000";
  clock = λ t. "2026-01-01_00-00-00-000000";
  environment = λ t. some "ws";
}
