-- ===== src/Delete/Safety.antt =====
-- delete_verb.py: which calls the steps of a removal make.
use ros_team_workspace.Base.{◌≡◌, false, List}
use ros_team_workspace.Workspace.{Workspace}
use ros_team_workspace.Config.{WorkspacesConfig}
use ros_team_workspace.Host.{Host, Call}
use ros_team_workspace.Host.Record.{Only, only_rules}
use ros_team_workspace.ConfigFile.Backup.{NoWrite}
use ros_team_workspace.Docker.{
  docker_container_exists, docker_stop, remove_docker_container, is_docker_tag_valid,
  remove_docker_image,
}
use ros_team_workspace.Delete.Steps.{
  StepName, StepStats, remove_docker_container_step, remove_docker_image_step,
  remove_workspace_folder_step, remove_configuration_step, run_remove_container, run_remove_image,
  run_remove_folder, run_remove_from_config, execute, should_run, run_step,
}
use ros_team_workspace.Delete.Rules.{run_steps-Only, execute-Only, keeping-Only, folder-Only}
use ros_team_workspace.Delete.{run_steps}

-- The call deletes no file and no folder.
abbrev pub KeepsFiles : Call → Type 0
KeepsFiles (Call.unlink path) = ⊥
KeepsFiles (Call.rmdir path) = ⊥
KeepsFiles (Call.rmtree path) = ⊥
KeepsFiles _ = Unit

-- The call removes no container and no image, and runs no command.
abbrev pub KeepsDocker : Call → Type 0
KeepsDocker (Call.remove_container name force) = ⊥
KeepsDocker (Call.remove_image tag force) = ⊥
KeepsDocker (Call.run_process command cwd) = ⊥
KeepsDocker (Call.run_shell command) = ⊥
KeepsDocker _ = Unit

module _ (H : Host) where
  config-KeepsDocker :
      (ws : Workspace) (config : WorkspacesConfig)
      → Only KeepsDocker (run_remove_from_config H ws config)
  unfolding run_remove_from_config
  config-KeepsDocker ws config = search only_rules depth 12

  pub container-NoWrite : (ws : Workspace) → Only NoWrite (run_remove_container H ws)
  unfolding run_remove_container docker_container_exists docker_stop remove_docker_container
  container-NoWrite ws = search only_rules depth 12

  pub image-NoWrite : (ws : Workspace) → Only NoWrite (run_remove_image H ws)
  unfolding run_remove_image is_docker_tag_valid remove_docker_image
  image-NoWrite ws = search only_rules depth 12

module _ (H : Host) (ws : Workspace) where
  pub folder-NoWrite : Only NoWrite (run_remove_folder H ws)
  folder-NoWrite = folder-Only H NoWrite (λ path. (tt, tt, tt, tt, tt, tt, tt)) (λ m l. tt) ws

  folder-KeepsDocker : Only KeepsDocker (run_remove_folder H ws)
  folder-KeepsDocker =
      folder-Only H KeepsDocker (λ path. (tt, tt, tt, tt, tt, tt, tt)) (λ m l. tt) ws

  step-KeepsDocker :
      ws.ws_docker_support ≡ false
      → (s : StepName) (c : WorkspacesConfig) → Only KeepsDocker (execute H s ws c)
  unfolding should_run run_step
  step-KeepsDocker plain remove_docker_container_step c =
      execute-Only H KeepsDocker _ ws c λ runs. absurd (cc)
  step-KeepsDocker plain remove_docker_image_step c =
      execute-Only H KeepsDocker _ ws c λ runs. absurd (cc)
  step-KeepsDocker plain remove_workspace_folder_step c =
      execute-Only H KeepsDocker _ ws c λ _. keeping-Only H KeepsDocker c _ folder-KeepsDocker
  step-KeepsDocker plain remove_configuration_step c =
      execute-Only H KeepsDocker _ ws c λ _. config-KeepsDocker H ws c

  -- Whatever steps run, in whatever order, the removal of a workspace without Docker support removes
  -- no container and no image, and runs no command.
  pub plain-KeepsDocker :
      (ss : List StepName) (config : WorkspacesConfig) (steps : List StepStats)
      → ws.ws_docker_support ≡ false
      → Only KeepsDocker (run_steps H ss ws config steps)
  plain-KeepsDocker ss config steps plain =
      run_steps-Only H KeepsDocker ws (step-KeepsDocker plain) ss config steps
