-- ===== src/Create/Commands.antt =====
-- create_verb.py: the commands that install the dependencies of a new workspace and build it.
use ros_team_workspace.Base.{
  String, ◌<>◌, Bool, true, not, ◌||◌, List, [], ◌∷◌, ◌++◌, is_empty, if◌then◌else◌,
}
use ros_team_workspace.Base.Result.{runtime_error}
use ros_team_workspace.Base.Text.{join}
use ros_team_workspace.Script.{get_compile_cmd}
use ros_team_workspace.Host.{Host}
use ros_team_workspace.Host.Prog.{Prog, pure, throw, ◌>>=◌, ◌>>◌}
use ros_team_workspace.Host.Calls
use ros_team_workspace.Utils.{run_bash_command}
use ros_team_workspace.Docker.{docker_exec_bash_cmd, docker_stop}
use ros_team_workspace.Create.Args.{
  CreateArgs, ws_src_abs_path, ws_src_abs_path_in_docker, upstream_ws_src_abs_path,
  upstream_ws_src_abs_path_in_docker, ws_abs_path_in_docker, upstream_ws_abs_path,
  upstream_ws_abs_path_in_docker,
}

abbrev rosdep_install : CreateArgs → String → List String
rosdep_install a path =
    "rosdep"
    ∷ "install"
    ∷ "-i"
    ∷ "-r"
    ∷ "-y"
    ∷ ("--rosdistro=" <> a.ros_distro)
    ∷ "--from-paths"
    ∷ path
    ∷ []

abbrev only_if : Bool → List String → List (List String)
only_if b command = if b then command ∷ [] else []

module _ (H : Host) where
  -- The commands on dependencies; the flags say whether the two source folders have packages.
  unfoldable pub rosdep_cmds : CreateArgs → Bool → Bool → List (List String)
  rosdep_cmds a has_ws_packages has_upstream_ws_packages =
      (if a.docker || a.enable_local_updates
        then ("sudo" ∷ "apt-get" ∷ "update" ∷ []) ∷ ("rosdep" ∷ "update" ∷ []) ∷ []
        else [])
      ++ (only_if has_upstream_ws_packages (
            rosdep_install a (
              if a.docker
              then upstream_ws_src_abs_path_in_docker H a
              else upstream_ws_src_abs_path a))
          ++ (only_if has_ws_packages (
                rosdep_install a
                  (if a.docker then ws_src_abs_path_in_docker H a else ws_src_abs_path a))
              ++ only_if a.docker ("sudo" ∷ "rm" ∷ "-rf" ∷ "/var/lib/apt/lists/*" ∷ [])))

  unfoldable pub compile_cmds : CreateArgs → List (List String)
  unfolding get_compile_cmd
  compile_cmds a =
      let ws = if a.docker then ws_abs_path_in_docker H a else a.ws_abs_path in
      let upstream =
        if a.docker then upstream_ws_abs_path_in_docker H a else upstream_ws_abs_path a in
      if a.has_upstream_ws
      then get_compile_cmd upstream a.ros_distro "" ∷ get_compile_cmd ws a.ros_distro upstream ∷ []
      else get_compile_cmd ws a.ros_distro "" ∷ []

  unfoldable pub get_ws_cmds : CreateArgs → Prog (List (List String))
  unfolding rosdep_cmds compile_cmds
  get_ws_cmds a = do
    packages ← Calls.list_dir H (ws_src_abs_path a)
    upstream_packages ←
        if a.has_upstream_ws then Calls.list_dir H (upstream_ws_src_abs_path a) else pure []
    pure (
        rosdep_cmds a (not (is_empty packages)) (not (is_empty upstream_packages))
        ++ compile_cmds a)

  abbrev pub error_msg : String → String
  error_msg command = "Failed to execute ws command '" <> command <> "'"

  -- One round of the loop of `execute_ws_cmds`; the text is the id of the container, if there is one.
  unfoldable pub execute_ws_cmd : CreateArgs → String → List String → Prog (Unit {0})
  execute_ws_cmd a id ws_cmd = do
    let command = join " " ws_cmd
    done ← if a.docker then docker_exec_bash_cmd H id command else run_bash_command H command
    if done || a.ignore_ws_cmd_error then pure tt else do
      _ ← if a.docker then docker_stop H id else pure true
      throw runtime_error (error_msg command)

  unfoldable pub execute_ws_cmds : CreateArgs → List (List String) → String → Prog (Unit {0})
  execute_ws_cmds a [] id = pure tt
  execute_ws_cmds a (ws_cmd ∷ ws_cmds) id = do
    execute_ws_cmd a id ws_cmd
    execute_ws_cmds a ws_cmds id
