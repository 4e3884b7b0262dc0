-- ===== src/Create/Cleanup.antt =====
-- create_verb.py: what happens after a creation that failed.
use ros_team_workspace.Base.{
  String, ◌<>◌, Bool, true, false, not, List, [], ◌∷◌, ◌++◌, if◌then◌else◌,
}
use ros_team_workspace.Host.{Host}
use ros_team_workspace.Host.Prog.{
  Prog, pure, try, on_option, except_return, is_exception, ◌>>=◌, ◌>>◌,
}
use ros_team_workspace.Host.Calls
use ros_team_workspace.Utils.{ask_yes_no}
use ros_team_workspace.Docker.{
  docker_container_exists, docker_stop, remove_docker_container, is_docker_tag_valid,
  remove_docker_image,
}
use ros_team_workspace.Create.Args.{CreateArgs, upstream_ws_abs_path}

module _ (H : Host) where
  -- "Stop and remove container"
  unfoldable pub delete_container : CreateArgs → Prog (Unit {0})
  delete_container a = do
    there ← docker_container_exists H a.container_name
    if not there then pure tt else do
      _ ← docker_stop H a.container_name
      _ ← remove_docker_container H a.container_name false
      pure tt

  -- "Remove Docker image"
  unfoldable pub delete_image : CreateArgs → Prog (Unit {0})
  delete_image a = do
    there ← is_docker_tag_valid H a.final_image_name
    if not there then pure tt else do _ ← remove_docker_image H a.final_image_name false; pure tt

  abbrev path_if : Bool → String → List String
  path_if b path = if b then path ∷ [] else []

  -- Whether there is an upstream workspace, and its folder.
  unfoldable pub upstream_exists : CreateArgs → Prog Bool
  upstream_exists a =
      if a.has_upstream_ws then Calls.path_exists H (upstream_ws_abs_path a) else pure false

  unfoldable pub fix_owners : List String → Prog (Unit {0})
  fix_owners [] = pure tt
  fix_owners (path ∷ paths) = do
    try (Calls.fix_owner H path) (except_return is_exception tt)
    fix_owners paths

  -- "Fix permissions using docker before deletion if docker was used"
  unfoldable pub fix_permissions : CreateArgs → Prog (Unit {0})
  fix_permissions a = if not a.docker then pure tt else do
    Calls.docker_client H
    main ← Calls.path_exists H a.ws_abs_path
    upstream ← upstream_exists a
    fix_owners (path_if main a.ws_abs_path ++ path_if upstream (upstream_ws_abs_path a))

  -- "Remove workspace folders"
  unfoldable pub delete_folders : CreateArgs → Prog (Unit {0})
  delete_folders a = if a.standalone then pure tt else do
    fix_permissions a
    main ← Calls.path_exists H a.ws_abs_path
    if main then Calls.rmtree H a.ws_abs_path else pure tt
    upstream ← upstream_exists a
    if upstream then Calls.rmtree H (upstream_ws_abs_path a) else pure tt

  unfoldable pub delete_workspace_resources : CreateArgs → Prog (Unit {0})
  delete_workspace_resources a = do
    if a.docker then (delete_container a >> delete_image a) else pure tt
    delete_folders a

  abbrev pub prompt_msg : CreateArgs → String
  prompt_msg a =
      "Workspace creation failed. Do you want to keep the workspace files and add it to the config?\n"
      <> (if a.docker
          then "(Note: For Docker workspaces, we cannot distinguish between dependency installation and compilation failures.\nIf you choose 'No', all created files and Docker resources will be deleted)"
          else "(If you choose 'no', all created files will be deleted)")

  -- Whether the workspace was kept.
  unfoldable pub handle_failed_workspace_creation : CreateArgs → Prog Bool
  handle_failed_workspace_creation a = do
    keep_workspace ← ask_yes_no H (prompt_msg a) false
    on_option keep_workspace (pure true)
        λ keep. if keep then pure true else (delete_workspace_resources a >>= λ _. pure false)
