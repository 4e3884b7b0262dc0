-- ===== src/Docker.antt =====
-- rtwcli/rtwcli/rtwcli/docker_utils.py: the Docker SDK and command line.
pub mod Verbs
pub mod Lifecycle
pub mod Safety
use ros_team_workspace.Base.{
  String, ◌<>◌, Bool, true, false, not, ◌&&◌, Option, none, some, is_some,
}
use ros_team_workspace.Base.{List, [], ◌∷◌, ◌++◌, ◌==◌, if◌then◌else◌, is_set, is_given, or_text}
use ros_team_workspace.Base.Text.{has_text}
use ros_team_workspace.Host.{Host, Container}
use ros_team_workspace.Host.Prog.{
  Prog, pure, try, on_option, except_return, is_api_error, is_os_error, ◌>>=◌, ◌>>◌,
}
use ros_team_workspace.Host.Calls
use ros_team_workspace.Utils.{dirname, create_file_if_not_exists, run_command, run_shell_command}

-- The loop over the mounts: the first source that names an `.xauth` file.
unfoldable pub find_xauth : List (Option String) → Option String
find_xauth [] = none
find_xauth (none ∷ mounts) = find_xauth mounts
find_xauth (some source ∷ mounts) =
    let rest = find_xauth mounts in if has_text ".xauth" source then some source else rest

module _ (H : Host) where
  abbrev run_plain : List String → Prog Bool
  run_plain command = run_command H command none []

  unfoldable pub is_docker_tag_valid : String → Prog Bool
  is_docker_tag_valid tag =
      try (do Calls.get_image H tag; pure true) (except_return is_api_error false)

  unfoldable pub docker_build : String → String → Option String → Bool → Bool → Prog Bool
  unfolding run_command
  docker_build tag dockerfile_path file pull no_cache = run_plain (
      ("docker" ∷ "build" ∷ "-t" ∷ tag ∷ "--progress=plain" ∷ [])
      ++ ((if no_cache then "--no-cache" ∷ [] else [])
          ++ ((if pull then "--pull" ∷ [] else [])
              ++ ((if is_given file then "-f" ∷ or_text file "" ∷ [] else [])
                  ++ (dockerfile_path ∷ [])))))

  unfoldable pub docker_cp : String → String → String → Bool → Prog Bool
  unfolding run_command dirname
  docker_cp container_name src_path dest_path make_dirs = do
    made ←
        if make_dirs
        then run_plain
            ("docker" ∷ "exec" ∷ container_name ∷ "mkdir" ∷ "-p" ∷ dirname dest_path ∷ [])
        else pure true
    if not made
        then pure false
        else run_plain ("docker" ∷ "cp" ∷ src_path ∷ (container_name <> ":" <> dest_path) ∷ [])

  unfoldable pub docker_exec : String → String → Prog Bool
  unfolding run_command
  docker_exec container_name command = run_plain ("docker" ∷ "exec" ∷ container_name ∷ command ∷ [])

  unfoldable pub docker_exec_interactive_bash : String → Prog Bool
  unfolding run_command
  docker_exec_interactive_bash container_name =
      run_plain ("docker" ∷ "exec" ∷ "-it" ∷ container_name ∷ "/bin/bash" ∷ [])

  unfoldable pub docker_exec_bash_cmd : String → String → Prog Bool
  unfolding run_command
  docker_exec_bash_cmd container_name bash_cmd =
      run_plain ("docker" ∷ "exec" ∷ container_name ∷ "/bin/bash" ∷ "-c" ∷ bash_cmd ∷ [])

  abbrev pub start_command : String → List String
  start_command container_name = "docker" ∷ "start" ∷ container_name ∷ []

  abbrev pub stop_command : String → List String
  stop_command container_name = "docker" ∷ "stop" ∷ container_name ∷ []

  unfoldable pub docker_start : String → Prog Bool
  unfolding run_command
  docker_start container_name = run_plain (start_command container_name)

  unfoldable pub docker_stop : String → Prog Bool
  unfolding run_command
  docker_stop container_name = run_plain (stop_command container_name)

  unfoldable pub remove_docker_image : String → Bool → Prog Bool
  remove_docker_image tag force =
      try (do Calls.get_image H tag; Calls.remove_image H tag force; pure true)
        (except_return is_api_error false)

  unfoldable pub docker_container_exists : String → Prog Bool
  docker_container_exists id_or_name =
      try (do _ ← Calls.get_container H id_or_name; pure true) (except_return is_api_error false)

  unfoldable pub remove_docker_container : String → Bool → Prog Bool
  remove_docker_container id_or_name force =
      try
        (do
          _ ← Calls.get_container H id_or_name
          Calls.remove_container H id_or_name force
          pure true)
        (except_return is_api_error false)

  unfoldable pub is_docker_container_running : String → Prog Bool
  is_docker_container_running id_or_name =
      try (do container ← Calls.get_container H id_or_name; pure (container.status == "running"))
        (except_return is_api_error false)

  unfoldable pub change_docker_path_permissions :
      String → String → Option String → Option String → Prog Bool
  unfolding docker_exec_bash_cmd
  change_docker_path_permissions container_name path user_in group_in =
      let user = or_text user_in H.uid in
      let group = or_text group_in H.gid in
      docker_exec_bash_cmd container_name ("chown -R " <> user <> ":" <> group <> " " <> path)

  abbrev pub xauth_command : String → String
  xauth_command path = "xauth nlist :0 | sed -e 's/^..../ffff/' | xauth -f " <> path <> " nmerge -"

  -- From the point where the file is known to be missing.
  unfoldable pub make_xauth_file : String → Prog Bool
  make_xauth_file path = do
    created ← create_file_if_not_exists H path
    if not created then pure false else do
      done ← run_shell_command H (xauth_command path)
      if done then pure true else do Calls.unlink H path; pure false

  -- The branches on what stands at the path.
  unfoldable pub restore_xauth_file : String → Prog Bool
  restore_xauth_file path = do
    there ← Calls.is_file H path
    if there then pure true else do
      directory ← Calls.is_dir H path
      cleared ←
          if directory
          then try (do Calls.rmdir H path; pure true) (except_return is_os_error false)
          else pure true
      if cleared then make_xauth_file path else pure false

  -- The attributes of the container, or `none` where it cannot be got.
  unfoldable pub container_attrs : String → Prog (Option (Option (Option (List (Option String)))))
  container_attrs container_name =
      try (do container ← Calls.get_container H container_name; pure (some container.attrs))
        (except_return is_api_error none)

  unfoldable pub fix_missing_xauth_file : String → Prog Bool
  fix_missing_xauth_file container_name = do
    got ← container_attrs container_name
    on_option got (pure false) λ attrs. on_option attrs (pure false) λ mounts.
        on_option mounts (pure false) λ sources.
          on_option (find_xauth sources) (pure true)
            λ path. if is_set path then restore_xauth_file path else pure true
