-- ===== src/Docker/Safety.antt =====
-- docker/verbs.py: which calls the container verbs make.
use ros_team_workspace.Base.{
  String, ◌<>◌, ◌≡◌, refl, ◌⊎◌, inl, inr, Bool, true, false, Option, none, some, List, [], ◌∷◌,
  if◌then◌else◌, is_set,
}
use ros_team_workspace.Base.Text.{has_text}
use ros_team_workspace.Workspace.{Workspace}
use ros_team_workspace.Host.{Host, Call}
use ros_team_workspace.Host.Prog.{pure, on_option}
use ros_team_workspace.Host.Record.{
  Only, Only-call, Only-lift, Only-bind, Only-try, Only-if, Only-option, only_rules,
}
use ros_team_workspace.Host.Calls
use ros_team_workspace.Utils.{dirname, create_file_if_not_exists, run_shell_command}
use ros_team_workspace.ConfigFile.{get_current_workspace}
use ros_team_workspace.Docker.{
  is_docker_container_running, docker_start, docker_stop, docker_exec_interactive_bash,
  fix_missing_xauth_file, make_xauth_file, restore_xauth_file, container_attrs, find_xauth,
  start_command, stop_command, xauth_command,
}
use ros_team_workspace.Docker.Verbs.{
  container_start_routine, container_stop_routine, enter_main, start_main, stop_main, restart_main,
}

-- The path names an `.xauth` file.
abbrev pub IsXauth : String → Type 0
IsXauth path = has_text ".xauth" path ≡ true

-- The command starts, stops or enters a container.
abbrev pub IsContainerCommand : List String → Type 0
IsContainerCommand command =
    (name : String) × ((command ≡ "docker" ∷ "start" ∷ name ∷ [])
      ⊎ (command ≡ "docker" ∷ "stop" ∷ name ∷ [])
      ⊎ (command ≡ "docker" ∷ "exec" ∷ "-it" ∷ name ∷ "/bin/bash" ∷ []))

-- The call only looks, or it starts, stops or enters a container, or it makes an `.xauth` file again: it creates the file or its
-- folder, fills it with xauth, or removes what stands in its place.
abbrev pub Gentle : Call → Type 0
Gentle (Call.is_file path) = Unit
Gentle (Call.is_dir path) = Unit
Gentle (Call.path_exists path) = Unit
Gentle (Call.read_yaml path) = Unit
Gentle Call.environment = Unit
Gentle (Call.get_container name) = Unit
Gentle (Call.run_process command cwd) = IsContainerCommand command
Gentle (Call.run_shell command) =
    (path : String) × IsXauth path
    × (command ≡ "xauth nlist :0 | sed -e 's/^..../ffff/' | xauth -f " <> path <> " nmerge -")
Gentle (Call.open_new path) = IsXauth path
Gentle (Call.unlink path) = IsXauth path
Gentle (Call.rmdir path) = IsXauth path
Gentle (Call.make_dirs folder) = (path : String) × IsXauth path × (folder ≡ dirname path)
Gentle _ = ⊥

-- The source that is found is that of an `.xauth` file.
find_xauth-IsXauth :
    (mounts : List (Option String)) (path : String) → find_xauth mounts ≡ some path → IsXauth path
unfolding find_xauth
find_xauth-IsXauth [] path h = absurd (cc h)
find_xauth-IsXauth (none ∷ mounts) path h = find_xauth-IsXauth mounts path h
find_xauth-IsXauth (some source ∷ mounts) path h =
    from (has_text ".xauth" source) refl (find_xauth-IsXauth mounts path) h
  where
    same : Path (Option String) (some source) (some path) → source ≡ path
    same e = cc e

    from :
        (b : Bool)
        → has_text ".xauth" source ≡ b
        → (find_xauth mounts ≡ some path → IsXauth path)
        → (if b then some source else find_xauth mounts) ≡ some path
        → IsXauth path
    from true named rest e = rw (same e) at named
    from false named rest e = rest e

module _ (H : Host) where
  current-Gentle : Only Gentle (get_current_workspace H)
  unfolding get_current_workspace
  current-Gentle = search only_rules depth 14

  create-Gentle : (path : String) → IsXauth path → Only Gentle (create_file_if_not_exists H path)
  unfolding create_file_if_not_exists
  create-Gentle path xauth =
      let folder : Gentle (Call.make_dirs (dirname path)) = (path, xauth, refl) in
      search (only_rules, xauth, folder) depth 14

  xauth-Gentle :
      (path : String) → IsXauth path → Only Gentle (run_shell_command H (xauth_command H path))
  unfolding run_shell_command
  xauth-Gentle path xauth =
      let filled : Gentle (Call.run_shell (xauth_command H path)) = (path, xauth, refl) in
      search (only_rules, filled) depth 14

  remove-Gentle : (path : String) → IsXauth path → Only Gentle (Calls.unlink H path)
  remove-Gentle path xauth = Only-call Gentle _ _ xauth

  clear-Gentle : (path : String) → IsXauth path → Only Gentle (Calls.rmdir H path)
  clear-Gentle path xauth = Only-call Gentle _ _ xauth

  make_xauth-Gentle : (path : String) → IsXauth path → Only Gentle (make_xauth_file H path)
  unfolding make_xauth_file
  make_xauth-Gentle path xauth = Only-bind Gentle _ _ (create-Gentle path xauth) λ created.
      Only-if Gentle _ _ _ (Only-lift Gentle _) (
        Only-bind Gentle _ _ (xauth-Gentle path xauth) λ done.
          Only-if Gentle _ _ _ (Only-lift Gentle _)
            (Only-bind Gentle _ _ (remove-Gentle path xauth) λ _. Only-lift Gentle _))

  restore_xauth-Gentle : (path : String) → IsXauth path → Only Gentle (restore_xauth_file H path)
  unfolding restore_xauth_file
  restore_xauth-Gentle path xauth = Only-bind Gentle _ _ (Only-call Gentle _ _ tt) λ there.
      Only-if Gentle _ _ _ (Only-lift Gentle _) (
        Only-bind Gentle _ _ (Only-call Gentle _ _ tt) λ directory.
          Only-bind Gentle _ _
            (Only-if Gentle _ _ _
              (Only-try Gentle _ _
                (Only-bind Gentle _ _ (clear-Gentle path xauth) λ _. Only-lift Gentle _)
                λ e. search only_rules depth 10)
              (Only-lift Gentle _))
            λ cleared. Only-if Gentle _ _ _ (make_xauth-Gentle path xauth) (Only-lift Gentle _))

  attrs-Gentle : (name : String) → Only Gentle (container_attrs H name)
  unfolding container_attrs
  attrs-Gentle name = search only_rules depth 14

  found-Gentle :
      (found : Option String)
      → ((path : String) → found ≡ some path → IsXauth path)
      → Only Gentle (
          on_option found
            (pure true)
            λ path. if is_set path then restore_xauth_file H path else pure true)
  found-Gentle none named = Only-lift Gentle _
  found-Gentle (some path) named =
      Only-if Gentle _ _ _ (restore_xauth-Gentle path (named path refl)) (Only-lift Gentle _)

  fix_xauth-Gentle : (name : String) → Only Gentle (fix_missing_xauth_file H name)
  unfolding fix_missing_xauth_file
  fix_xauth-Gentle name = Only-bind Gentle _ _ (attrs-Gentle name) λ got.
      Only-option Gentle got _ _ (Only-lift Gentle _) λ attrs.
        Only-option Gentle attrs _ _ (Only-lift Gentle _) λ mounts.
          Only-option Gentle mounts _ _ (Only-lift Gentle _)
            λ sources. found-Gentle (find_xauth sources) (find_xauth-IsXauth sources)

  running-Gentle : (name : String) → Only Gentle (is_docker_container_running H name)
  unfolding is_docker_container_running
  running-Gentle name = search only_rules depth 10

  docker_start-Gentle : (name : String) → Only Gentle (docker_start H name)
  unfolding docker_start
  docker_start-Gentle name =
      let known : IsContainerCommand (start_command H name) = (name, inl refl) in
      search (only_rules, known) depth 10

  docker_stop-Gentle : (name : String) → Only Gentle (docker_stop H name)
  unfolding docker_stop
  docker_stop-Gentle name =
      let known : IsContainerCommand (stop_command H name) = (name, inr (inl refl)) in
      search (only_rules, known) depth 10

  shell-Gentle : (name : String) → Only Gentle (docker_exec_interactive_bash H name)
  unfolding docker_exec_interactive_bash
  shell-Gentle name =
      let known : IsContainerCommand ("docker" ∷ "exec" ∷ "-it" ∷ name ∷ "/bin/bash" ∷ []) =
        (name, inr (inr refl)) in
      search (only_rules, known) depth 10

  start-Gentle : (ws : Option Workspace) → Only Gentle (container_start_routine H ws)
  unfolding container_start_routine
  start-Gentle ws =
      search (only_rules, running-Gentle, docker_start-Gentle, fix_xauth-Gentle) depth 10

  stop-Gentle : (ws : Option Workspace) → Only Gentle (container_stop_routine H ws)
  unfolding container_stop_routine
  stop-Gentle ws = search (only_rules, running-Gentle, docker_stop-Gentle) depth 10

  -- Entering, starting, stopping and restarting the current container makes calls of three kinds only: it looks at files, the
  -- configuration and containers; it runs `docker start`, `docker stop` or an interactive `docker exec`; and it makes an
  -- `.xauth` file again, for which it creates the file or its folder, runs xauth on it, or removes what stands in its place.
  pub verbs-Gentle :
      Only Gentle (enter_main H)
      × Only Gentle (start_main H)
      × Only Gentle (stop_main H)
      × Only Gentle (restart_main H)
  unfolding enter_main start_main stop_main restart_main
  verbs-Gentle = (
    search (only_rules, current-Gentle, start-Gentle, shell-Gentle) depth 10,
    search (only_rules, current-Gentle, start-Gentle) depth 8,
    search (only_rules, current-Gentle, stop-Gentle) depth 8,
    search (only_rules, current-Gentle, start-Gentle, stop-Gentle) depth 10,
  )
