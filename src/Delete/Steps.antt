-- ===== src/Delete/Steps.antt =====
-- rtwcli/rtw_cmds/rtw_cmds/workspace/delete_verb.py: the four removal steps.
use ros_team_workspace.Base.{String, ◌<>◌, Bool, true, false, not}
use ros_team_workspace.Base.{List, [], ◌∷◌, if◌then◌else◌, is_empty, is_given, or_text}
use ros_team_workspace.Base.Dict.{Dict, lookup, insert, keys}
use ros_team_workspace.Base.Text.{join_path, list_text}
use ros_team_workspace.Base.Result.{key_error}
use ros_team_workspace.Workspace.{Workspace}
use ros_team_workspace.Config.{WorkspacesConfig, remove_workspace}
use ros_team_workspace.Host.{Host}
use ros_team_workspace.Host.Prog.{Prog, pure, throw, on_option, ◌>>=◌, ◌>>◌}
use ros_team_workspace.Host.Calls
use ros_team_workspace.ConfigFile.{workspaces_path, save_workspaces_config}
use ros_team_workspace.Docker.{
  docker_container_exists, docker_stop, remove_docker_container, is_docker_tag_valid,
  remove_docker_image,
}

pub data StepStatus : Type 0 where
  not_started completed failed skipped : StepStatus

pub data StepName : Type 0 where
  remove_docker_container_step remove_docker_image_step : StepName
  remove_workspace_folder_step remove_configuration_step : StepName

-- `StepName.value`
abbrev pub name_text : StepName → String
name_text remove_docker_container_step = "Remove Docker Container"
name_text remove_docker_image_step = "Remove Docker Image"
name_text remove_workspace_folder_step = "Remove Workspace Folder"
name_text remove_configuration_step = "Remove Configuration"

abbrev pub removal_steps : List StepName
removal_steps =
    remove_docker_container_step ∷ remove_docker_image_step ∷ remove_workspace_folder_step
    ∷ remove_configuration_step ∷ []

pub record StepStats : Type 0 where
  pub name : StepName
  pub status : StepStatus
  pub message : String

abbrev pub same_length {ℓ κ} : {A : Type ℓ} {B : Type κ} → List A → List B → Bool
same_length [] [] = true
same_length (x ∷ xs) (y ∷ ys) = same_length xs ys
same_length _ _ = false

-- The returned flag, the message, and the config as the step leaves it.
abbrev pub Run : Type 0
Run = Bool × String × WorkspacesConfig

abbrev pub container_should_run : Workspace → Bool
container_should_run ws = ws.ws_docker_support

abbrev pub image_should_run : Workspace → Bool
image_should_run ws = ws.ws_docker_support

abbrev pub folder_should_run : Workspace → Bool
folder_should_run ws = not ws.standalone

abbrev pub configuration_should_run : Workspace → Bool
configuration_should_run ws = true

-- `get_removal_step(step_name).should_run(workspace)`
unfoldable pub should_run : StepName → Workspace → Bool
should_run remove_docker_container_step ws = container_should_run ws
should_run remove_docker_image_step ws = image_should_run ws
should_run remove_workspace_folder_step ws = folder_should_run ws
should_run remove_configuration_step ws = configuration_should_run ws

module _ (H : Host) where
  -- `RemoveDockerContainer.run`, where the name is set and the container exists
  stop_and_remove : String → Prog (Bool × String)
  stop_and_remove name = do
    stopped ← docker_stop H name
    if not stopped then pure (false, "Failed to stop Docker container '" <> name <> "'") else do
      removed ← remove_docker_container H name false
      pure (
          if removed
          then (true, "Removed Docker container '" <> name <> "'")
          else (false, "Failed to remove Docker container '" <> name <> "'"))

  unfoldable pub run_remove_container : Workspace → Prog (Bool × String)
  unfolding stop_and_remove
  run_remove_container ws =
      if not (is_given ws.docker_container_name)
      then pure (false, "Docker support is enabled but container name not set.")
      else do
        let name = or_text ws.docker_container_name ""
        there ← docker_container_exists H name
        if there
            then stop_and_remove name
            else pure (true, "Container '" <> name <> "' does not exist. Skipping removal.")

  unfoldable pub run_remove_image : Workspace → Prog (Bool × String)
  run_remove_image ws =
      if not (is_given ws.docker_tag)
      then pure (false, "Docker support is enabled but Docker tag not set.")
      else do
        let tag = or_text ws.docker_tag ""
        there ← is_docker_tag_valid H tag
        if not there
            then pure (true, "Docker image '" <> tag <> "' does not exist. Skipping removal.")
            else do
              removed ← remove_docker_image H tag false
              pure (
                  if removed
                  then (true, "Removed Docker image '" <> tag <> "'")
                  else (false, "Failed to remove Docker image '" <> tag <> "'"))

  -- `item_choices_to_delete`: each item's line in the dialog, and its path.
  unfoldable pub item_choices : String → List String → Dict String → Prog (Dict String)
  item_choices folder [] choices = pure choices
  item_choices folder (item ∷ items) choices = do
    let path = join_path folder item
    directory ← Calls.is_dir H path
    shown ←
        if directory then (do inner ← Calls.list_dir H path; pure (list_text inner)) else pure ""
    item_choices folder items (insert (item <> " " <> shown) path choices)

  -- `[item_choices_to_delete[item] for item in items_to_delete]`
  unfoldable pub chosen_paths : Dict String → List String → Prog (List String)
  chosen_paths choices [] = pure []
  chosen_paths choices (item ∷ items) =
      on_option (lookup item choices) (throw key_error item)
        λ path. chosen_paths choices items >>= λ paths. pure (path ∷ paths)

  unfoldable pub remove_item : String → Prog (Unit {0})
  remove_item path = do
    file ← Calls.is_file H path
    link ← if file then pure true else Calls.is_link H path
    if link
        then Calls.unlink H path
        else do directory ← Calls.is_dir H path; if directory then Calls.rmtree H path else pure tt

  unfoldable pub remove_items : List String → Prog (Unit {0})
  unfolding remove_item
  remove_items [] = pure tt
  remove_items (path ∷ paths) = remove_item path >>= λ _. remove_items paths

  -- From the point where the items have been listed.
  unfoldable pub ask_and_remove : String → List String → Prog (Bool × String)
  unfolding item_choices chosen_paths remove_items
  ask_and_remove folder items = do
    choices ← item_choices folder items []
    answer ←
        Calls.ask_checkbox H ("Select items to delete in workspace folder '" <> folder <> "'\n")
          (keys choices)
    on_option answer (pure (false, "User cancelled removal of workspace folder '" <> folder <> "'"))
        λ chosen. do
          paths ←
              if same_length chosen items then pure (folder ∷ []) else chosen_paths choices chosen
          remove_items paths
          pure (true, "Removed items: " <> list_text paths)

  unfoldable pub run_remove_folder : Workspace → Prog (Bool × String)
  unfolding ask_and_remove
  run_remove_folder ws =
      if not (is_given ws.ws_folder)
      then pure (false, "Workspace is not standalone but workspace folder not set.")
      else do
        let folder = or_text ws.ws_folder ""
        there ← Calls.path_exists H folder
        if not there
            then pure
                (true, "Workspace folder '" <> folder <> "' does not exist. Skipping removal.")
            else do
              items ← Calls.list_dir H folder
              if is_empty items
                  then pure (true, "Nothing to remove in workspace folder '" <> folder <> "'")
                  else ask_and_remove folder items

  unfoldable pub run_remove_from_config : Workspace → WorkspacesConfig → Prog Run
  unfolding remove_workspace save_workspaces_config
  run_remove_from_config ws config =
      let (removed, config') = remove_workspace ws.ws_name config in
      if not removed
      then pure (
        false,
        "Failed to remove workspace '" <> ws.ws_name <> "' from workspace config",
        config',
      )
      else do
        saved ← save_workspaces_config H (workspaces_path H) config'
        pure (
            if saved
            then (
              true,
              "Removed workspace '"
                  <> ws.ws_name
                  <> "' from config file '"
                  <> workspaces_path H
                  <> "'",
              config',
            )
            else (
              false,
              "Failed to save config file '" <> workspaces_path H <> "' after removing workspace",
              config',
            ))

  -- A step that does not touch the config.
  abbrev pub keeping : WorkspacesConfig → Prog (Bool × String) → Prog Run
  keeping config m = m >>= λ (done, message). pure (done, message, config)

  -- `get_removal_step(step_name).run`
  unfoldable pub run_step : StepName → Workspace → WorkspacesConfig → Prog Run
  run_step remove_docker_container_step ws config = keeping config (run_remove_container ws)
  run_step remove_docker_image_step ws config = keeping config (run_remove_image ws)
  run_step remove_workspace_folder_step ws config = keeping config (run_remove_folder ws)
  run_step remove_configuration_step ws config = run_remove_from_config ws config

  -- `RemovalStep.execute`: what `run` raises is raised again.
  unfoldable pub execute :
      StepName → Workspace → WorkspacesConfig → Prog (StepStats × WorkspacesConfig)
  unfolding should_run run_step
  execute s ws config =
      if should_run s ws
      then (run_step s ws config >>= λ (done, message, config'). pure (
        record {
          name = s;
          status = if done then StepStatus.completed else StepStatus.failed;
          message = message;
        },
        config',
      ))
      else pure (
        record {
          name = s;
          status = StepStatus.skipped;
          message = "Skipping " <> name_text s <> " (not applicable, e.g. no Docker support)";
        },
        config,
      )
