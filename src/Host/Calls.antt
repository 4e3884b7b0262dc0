-- ===== src/Host/Calls.antt =====
-- Each call as a program: the machine's answer, and the call on the record.
use ros_team_workspace.Base.{ℕ, String, Bool, Option, List}
use ros_team_workspace.Base.Result.{ok}
use ros_team_workspace.Config.{Document}
use ros_team_workspace.Host.{Host, Call, Container, ReturnCode}
use ros_team_workspace.Host.Prog.{Prog, call}

module _ (H : Host) where
  abbrev pub is_file : String → Prog Bool
  is_file a = call (λ t. ok (H.is_file t a)) (Call.is_file a)

  abbrev pub path_exists : String → Prog Bool
  path_exists a = call (λ t. ok (H.path_exists t a)) (Call.path_exists a)

  abbrev pub is_dir : String → Prog Bool
  is_dir a = call (λ t. ok (H.is_dir t a)) (Call.is_dir a)

  abbrev pub is_link : String → Prog Bool
  is_link a = call (λ t. ok (H.is_link t a)) (Call.is_link a)

  abbrev pub list_dir : String → Prog (List String)
  list_dir a = call (λ t. H.list_dir t a) (Call.list_dir a)

  abbrev pub file_size : String → Prog ℕ
  file_size a = call (λ t. H.file_size t a) (Call.file_size a)

  abbrev pub make_dirs : String → Prog (Unit {0})
  make_dirs a = call (λ t. H.make_dirs t a) (Call.make_dirs a)

  abbrev pub open_new : String → Prog (Unit {0})
  open_new a = call (λ t. H.open_new t a) (Call.open_new a)

  abbrev pub unlink : String → Prog (Unit {0})
  unlink a = call (λ t. H.unlink t a) (Call.unlink a)

  abbrev pub rmdir : String → Prog (Unit {0})
  rmdir a = call (λ t. H.rmdir t a) (Call.rmdir a)

  abbrev pub rmtree : String → Prog (Unit {0})
  rmtree a = call (λ t. H.rmtree t a) (Call.rmtree a)

  abbrev pub write_text : String → String → Prog (Unit {0})
  write_text a b = call (λ t. H.write_text t a b) (Call.write_text a b)

  abbrev pub copy : String → String → Prog (Unit {0})
  copy a b = call (λ t. H.copy t a b) (Call.copy a b)

  abbrev pub read_yaml : String → Prog Document
  read_yaml a = call (λ t. H.read_yaml t a) (Call.read_yaml a)

  abbrev pub write_yaml : String → Document → Prog (Unit {0})
  write_yaml a d = call (λ t. H.write_yaml t a d) (Call.write_yaml a d)

  abbrev pub run_process : List String → Option String → Prog ReturnCode
  run_process c w = call (λ t. H.run_process t c w) (Call.run_process c w)

  abbrev pub run_shell : String → Prog ReturnCode
  run_shell a = call (λ t. H.run_shell t a) (Call.run_shell a)

  abbrev pub get_container : String → Prog Container
  get_container a = call (λ t. H.get_container t a) (Call.get_container a)

  abbrev pub get_image : String → Prog (Unit {0})
  get_image a = call (λ t. H.get_image t a) (Call.get_image a)

  abbrev pub remove_container : String → Bool → Prog (Unit {0})
  remove_container a f = call (λ t. H.remove_container t a f) (Call.remove_container a f)

  abbrev pub remove_image : String → Bool → Prog (Unit {0})
  remove_image a f = call (λ t. H.remove_image t a f) (Call.remove_image a f)

  abbrev pub ask_checkbox : String → List String → Prog (Option (List String))
  ask_checkbox a l = call (λ t. H.ask_checkbox t a l) (Call.ask_checkbox a l)

  abbrev pub ask_select : String → List String → Prog (Option String)
  ask_select a l = call (λ t. H.ask_select t a l) (Call.ask_select a l)

  abbrev pub ask_text : String → Prog (Option String)
  ask_text a = call (λ t. H.ask_text t a) (Call.ask_text a)

  abbrev pub ask_confirm : String → Prog (Option Bool)
  ask_confirm a = call (λ t. H.ask_confirm t a) (Call.ask_confirm a)

  abbrev pub clock : Prog String
  clock = call (λ t. ok (H.clock t)) (Call.clock)

  abbrev pub environment : Prog (Option String)
  environment = call (λ t. ok (H.environment t)) (Call.environment)

  abbrev pub ask_line : String → Prog String
  ask_line a = call (λ t. H.ask_line t a) (Call.ask_line a)

  abbrev pub read_text : String → Prog String
  read_text a = call (λ t. H.read_text t a) (Call.read_text a)

  abbrev pub temp_file : String → Prog String
  temp_file a = call (λ t. H.temp_file t a) (Call.temp_file a)

  abbrev pub variable : String → Prog (Option String)
  variable a = call (λ t. ok (H.variable t a)) (Call.variable a)

  abbrev pub group_id : String → Prog String
  group_id a = call (λ t. H.group_id t a) (Call.group_id a)

  abbrev pub display_manager : Prog String
  display_manager = call (λ t. H.display_manager t) (Call.display_manager)

  abbrev pub run_container : String → List String → Prog String
  run_container a v = call (λ t. H.run_container t a v) (Call.run_container a v)

  abbrev pub fix_owner : String → Prog (Unit {0})
  fix_owner a = call (λ t. H.fix_owner t a) (Call.fix_owner a)

  abbrev pub commit_container : String → String → Prog (Unit {0})
  commit_container a r = call (λ t. H.commit_container t a r) (Call.commit_container a r)

  abbrev pub docker_client : Prog (Unit {0})
  docker_client = call (λ t. H.docker_client t) (Call.docker_client)
