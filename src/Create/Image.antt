-- ===== src/Create/Image.antt =====
-- create_verb.py: the Docker image and the intermediate container of a new workspace.
use ros_team_workspace.Base.{
  String, ◌<>◌, true, false, not, none, some, List, [], ◌∷◌, is_set, if◌then◌else◌,
}
use ros_team_workspace.Base.Result.{raised, runtime_error}
use ros_team_workspace.Base.Text.{join_path, basename, normpath}
use ros_team_workspace.Workspace.{Workspace, post_init}
use ros_team_workspace.Config.{WorkspacesConfig, add_workspace}
use ros_team_workspace.ConfigFile.{save_workspaces_config, workspaces_path}
use ros_team_workspace.Host.{Host}
use ros_team_workspace.Host.Prog.{
  Prog, pure, lift, try, throw, except_raise, is_run_error, is_api_error, ◌>>=◌, ◌>>◌,
}
use ros_team_workspace.Host.Calls
use ros_team_workspace.Utils.{create_file_and_write, create_temp_file}
use ros_team_workspace.Docker.{
  docker_build, is_docker_tag_valid, change_docker_path_permissions, docker_stop, docker_cp,
}
use ros_team_workspace.Create.Args.{
  CreateArgs, intermediate_dockerfile_abs_path, upstream_ws_abs_path, path_in_docker,
  ws_abs_path_in_docker, upstream_ws_abs_path_in_docker,
}
use ros_team_workspace.Create.Dockerfile.{generate_intermediate_dockerfile_content}

-- A workspace with only a name, a distribution and a folder.
abbrev pub new_workspace : String → String → String → Workspace
new_workspace name distro folder = record {
  ws_name = name;
  distro = distro;
  ws_folder = some folder;
  ws_docker_support = false;
  docker_tag = none;
  docker_container_name = none;
  base_ws = none;
  standalone = false;
  env_vars = some [];
  docker_devices = [];
}

abbrev no_workspaces : WorkspacesConfig
no_workspaces = record { workspaces = [] }

module _ (H : Host) where
  -- `os.path.abspath`
  abbrev pub abspath : String → String
  abspath path = normpath (join_path H.cwd path)

  -- The copy of the certificate into the folder that Docker sees.
  abbrev pub cert_dest : CreateArgs → String → String
  cert_dest a context = join_path context (basename a.proxy_ca_cert)

  unfoldable pub copy_certificate : CreateArgs → String → Prog (Unit {0})
  copy_certificate a context = if not (is_set a.proxy_ca_cert) then pure tt else do
    there ← Calls.path_exists H (abspath a.proxy_ca_cert)
    if not there
        then throw runtime_error
            ("Proxy CA certificate file '" <> abspath a.proxy_ca_cert <> "' does not exist.")
        else Calls.copy H (abspath a.proxy_ca_cert) (cert_dest a context)

  -- "clean up certificate file from build context"
  unfoldable pub remove_certificate : CreateArgs → String → Prog (Unit {0})
  remove_certificate a context = if not (is_set a.proxy_ca_cert) then pure tt else do
    there ← Calls.path_exists H (cert_dest a context)
    if there then Calls.unlink H (cert_dest a context) else pure tt

  unfoldable pub build_image : CreateArgs → String → Prog (Unit {0})
  build_image a context = do
    copy_certificate a context
    built ←
        docker_build H a.final_image_name context (some (intermediate_dockerfile_abs_path a)) true
          a.no_cache
    remove_certificate a context
    if not built
        then throw runtime_error
            ("Failed to build intermediate docker image for '" <> a.final_image_name <> "'")
        else do
          valid ← is_docker_tag_valid H a.final_image_name
          if valid
              then pure tt
              else throw runtime_error
                  ("Intermediate docker image '" <> a.final_image_name <> "' does not exist.")

  unfoldable pub build_intermediate_docker_image : CreateArgs → Prog (Unit {0})
  build_intermediate_docker_image a = do
    content ← generate_intermediate_dockerfile_content H a
    written ← create_file_and_write H (intermediate_dockerfile_abs_path a) content
    if written
        then build_image a (join_path a.intermediate_dockerfile_save_folder "../..")
        else throw runtime_error (
            "Failed to create intermediate dockerfile '"
            <> intermediate_dockerfile_abs_path a
            <> "'")

  abbrev mount : String → String
  mount path = path <> ":" <> path

  abbrev pub volumes : CreateArgs → List String
  volumes a =
      if a.standalone
      then []
      else mount a.ws_abs_path
        ∷ (if a.has_upstream_ws then mount (upstream_ws_abs_path a) ∷ [] else [])

  -- The id of the container.
  unfoldable pub run_intermediate_container : CreateArgs → Prog String
  run_intermediate_container a =
      try (Calls.run_container H a.final_image_name (volumes a))
        (except_raise is_run_error "Failed to create intermediate docker container")

  -- `docker_stop(intermediate_container.id)` and the error after it.
  abbrev pub stop_and_raise : {A : Type 0} → String → String → Prog A
  stop_and_raise id message = do _ ← docker_stop H id; throw runtime_error message

  unfoldable pub own_folder : String → String → Prog (Unit {0})
  own_folder id path = do
    changed ← change_docker_path_permissions H id path none none
    if changed
        then pure tt
        else stop_and_raise id ("Failed to change permissions for the workspace folder " <> path)

  unfoldable pub change_ws_folder_permissions : CreateArgs → String → Prog (Unit {0})
  change_ws_folder_permissions a id = do
    own_folder id (ws_abs_path_in_docker H a)
    if a.has_upstream_ws then own_folder id (upstream_ws_abs_path_in_docker H a) else pure tt

  abbrev container_upstream : CreateArgs → Workspace
  container_upstream a =
      new_workspace a.upstream_ws_name a.ros_distro (upstream_ws_abs_path_in_docker H a)

  abbrev container_main : CreateArgs → Workspace
  container_main a = record (new_workspace a.ws_name a.ros_distro (ws_abs_path_in_docker H a)) {
    base_ws = some (if a.has_upstream_ws then a.upstream_ws_name else "");
    env_vars = some a.env_vars;
  }

  -- "create rtw workspaces file": the workspaces that the container knows.
  unfoldable pub docker_workspaces_config : CreateArgs → Prog WorkspacesConfig
  docker_workspaces_config a = do
    config ←
        if a.has_upstream_ws
        then (do
          ws ← lift (post_init (container_upstream a))
          pure (add_workspace ws no_workspaces).1)
        else pure no_workspaces
    ws ← lift (post_init (container_main a))
    pure (add_workspace ws config).1

  abbrev extra_bashrc_content : CreateArgs → String
  extra_bashrc_content a =
      "\n" <> "# source rtw\n" <> ". " <> a.rtw_docker_clone_abs_path <> "/setup.bash\n" <> "\n"
      <> "# automatically source RosTeamWorkspace if the .ros_team_ws file is present\n"
      <> "if [ -f ~/.ros_team_ws_rc ]; then\n" <> "    . ~/.ros_team_ws_rc\n" <> "fi\n" <> "\n"
      <> "# b»robotized custom setup for nice colors and showing ROS workspace\n" <> ". "
      <> a.rtw_docker_clone_abs_path <> "/scripts/configuration/terminal_coloring.bash\n" <> "\n"
      <> "# automatically use the main workspace\n" <> "rtw workspace use " <> a.ws_name <> "\n"

  unfoldable pub copy_into : String → String → String → String → Prog (Unit {0})
  copy_into id from to message = do
    copied ← docker_cp H id from to true
    if copied then pure tt else stop_and_raise id message

  unfoldable pub commit_image : CreateArgs → String → Prog (Unit {0})
  commit_image a id = try (Calls.commit_container H id a.final_image_name) λ e.
      if is_api_error e
      then stop_and_raise id ("Failed to commit container '" <> id <> "'")
      else lift (raised e)

  unfoldable pub setup_rtw_in_intermediate_image : CreateArgs → String → Prog (Unit {0})
  setup_rtw_in_intermediate_image a id = do
    config ← docker_workspaces_config a
    temp_rtw_file ← create_temp_file H ""
    saved ← save_workspaces_config H temp_rtw_file config
    if not saved then stop_and_raise id "Failed to save rtw workspaces file." else do
      copy_into id temp_rtw_file (path_in_docker H a (workspaces_path H))
          "Failed to copy rtw workspaces file to container."
      default_bashrc_content ← Calls.read_text H "/etc/skel/.bashrc"
      temp_bashrc_file ← create_temp_file H (default_bashrc_content <> extra_bashrc_content a)
      copy_into id temp_bashrc_file (path_in_docker H a (H.home <> "/.bashrc"))
          "Failed to copy bashrc file to container."
      changed ← change_docker_path_permissions H id (path_in_docker H a H.home) none none
      if not changed
          then throw runtime_error "Failed to change permissions for the home folder."
          else do commit_image a id; _ ← docker_stop H id; pure tt
