-- ===== src/Create/Arguments.antt =====
-- create_verb.py: the arguments of the verb, the fields of `CreateVerbArgs`, and how main makes the one from the others.
use ros_team_workspace.Base.{String, ◌<>◌, false, some, List, [], ◌∷◌, ◌++◌}
use ros_team_workspace.Base.Dict.{Dict}
use ros_team_workspace.Base.Result.{Result}
use ros_team_workspace.Host.{Host}
use ros_team_workspace.Arguments.{
  Value, Argument, Field, none_value, text, flag, texts, dict, text_shape, flag_shape, texts_shape,
  dict_shape, optional, required_text, switch, several, field, field_or, get_filtered_args,
  with_entries, dataclass_init,
}
use ros_team_workspace.Base.Text.{normpath}
use ros_team_workspace.Create.Image.{abspath}
use ros_team_workspace.Create.Verb.{env_vars_dict}

-- Up to `--upstream-ws-name`.
abbrev pub workspace_arguments : List Argument
workspace_arguments =
    optional "--ws-name" none_value
    ∷ required_text "--ws-folder" []
    ∷ required_text "--ros-distro" ("humble" ∷ "jazzy" ∷ "kilted" ∷ "lyrical" ∷ "rolling" ∷ [])
    ∷ switch "--add-existing-workspace"
    ∷ switch "--docker"
    ∷ optional "--repos-containing-repository-url" none_value
    ∷ optional "--repos-branch" (text "master")
    ∷ switch "--repos-no-skip-existing"
    ∷ switch "--disable-nvidia"
    ∷ switch "--enable-input"
    ∷ switch "--enable-realtime"
    ∷ several "--devices" []
    ∷ record (several "--groups" []) { dest = some "use_groups" }
    ∷ switch "--enable-ipc"
    ∷ switch "--docker-disable-upgrade"
    ∷ switch "--enable-local-updates"
    ∷ optional "--ws-repos-file-name" none_value
    ∷ switch "--no-cache"
    ∷ optional "--upstream-ws-repos-file-name" none_value
    ∷ optional "--upstream-ws-name" none_value
    ∷ []

-- From `--base-image-name` on.
abbrev pub image_arguments : Host → List Argument
image_arguments H =
    optional "--base-image-name" none_value
    ∷ optional "--final-image-name" none_value
    ∷ optional "--container-name" none_value
    ∷ switch "--standalone"
    ∷ optional "--rtw-docker-repo-url"
        (text "https://github.com/b-robotized/ros_team_workspace.git")
    ∷ optional "--rtw-docker-branch" (text "master")
    ∷ optional "--rtw-docker-clone-abs-path" (text (H.home <> "/ros_team_workspace"))
    ∷ several "--additional_apt_packages" []
    ∷ switch "--no-base-apt-packages"
    ∷ several "--python_packages" ("pre-commit" ∷ [])
    ∷ optional "--ssh-abs-path" (text (H.home <> "/.ssh"))
    ∷ optional "--intermediate-dockerfile-name" (text "Dockerfile")
    ∷ optional "--intermediate-dockerfile-save-folder" none_value
    ∷ switch "--ignore-ws-cmd-error"
    ∷ optional "--hostname" none_value
    ∷ optional "--user-override-name" none_value
    ∷ switch "--update-key"
    ∷ optional "--env-file" none_value
    ∷ optional "--proxy-server" none_value
    ∷ optional "--proxy-ca-cert" none_value
    ∷ several "--env-vars" []
    ∷ []

abbrev pub create_arguments : Host → List Argument
create_arguments H = workspace_arguments ++ image_arguments H

abbrev pub create_fields : List Field
create_fields =
    field "ws_name" text_shape
    ∷ field "ws_abs_path" text_shape
    ∷ field "ros_distro" text_shape
    ∷ field "repos_containing_repository_url" text_shape
    ∷ field "repos_branch" text_shape
    ∷ field "ws_repos_file_name" text_shape
    ∷ field "upstream_ws_repos_file_name" text_shape
    ∷ field "upstream_ws_name" text_shape
    ∷ field "base_image_name" text_shape
    ∷ field "final_image_name" text_shape
    ∷ field "container_name" text_shape
    ∷ field "rtw_docker_repo_url" text_shape
    ∷ field "rtw_docker_branch" text_shape
    ∷ field "no_cache" flag_shape
    ∷ field "rtw_docker_clone_abs_path" text_shape
    ∷ field "ssh_abs_path" text_shape
    ∷ field "intermediate_dockerfile_name" text_shape
    ∷ field "intermediate_dockerfile_save_folder" text_shape
    ∷ field "hostname" text_shape
    ∷ field "user_override_name" text_shape
    ∷ field_or "has_upstream_ws" flag_shape (flag false)
    ∷ field_or "ignore_ws_cmd_error" flag_shape (flag false)
    ∷ field_or "additional_apt_packages" texts_shape (texts [])
    ∷ field_or "no_base_apt_packages" flag_shape (flag false)
    ∷ field_or "python_packages" texts_shape (texts [])
    ∷ field_or "standalone" flag_shape (flag false)
    ∷ field_or "repos_no_skip_existing" flag_shape (flag false)
    ∷ field_or "disable_nvidia" flag_shape (flag false)
    ∷ field_or "docker" flag_shape (flag false)
    ∷ field_or "enable_ipc" flag_shape (flag false)
    ∷ field_or "docker_disable_upgrade" flag_shape (flag false)
    ∷ field_or "enable_local_updates" flag_shape (flag false)
    ∷ field_or "update_key" flag_shape (flag false)
    ∷ field_or "env_file" text_shape (text "")
    ∷ field_or "proxy_server" text_shape (text "")
    ∷ field_or "proxy_ca_cert" text_shape (text "")
    ∷ field_or "env_vars" dict_shape (dict [])
    ∷ field_or "devices" texts_shape (texts [])
    ∷ field_or "use_groups" texts_shape (texts [])
    ∷ field_or "enable_input" flag_shape (flag false)
    ∷ field_or "enable_realtime" flag_shape (flag false)
    ∷ []

module _ (H : Host) where
  -- The entries that main sets: the last one first.
  abbrev pub create_entries : String → String → List String → Dict Value
  create_entries ws_name ws_folder env_vars =
      ("env_vars", dict (env_vars_dict env_vars []))
      ∷ ("ws_name", text ws_name)
      ∷ ("ws_abs_path", text (normpath (abspath H ws_folder)))
      ∷ []

  -- The fields that `CreateVerbArgs(**filtered_args)` sets before `__post_init__`, with the name, the folder and the assignments
  -- of the arguments.
  unfoldable pub create_verb_init : Dict Value → String → String → List String → Result (Dict Value)
  unfolding with_entries get_filtered_args dataclass_init
  create_verb_init args_dict ws_name ws_folder env_vars = dataclass_init create_fields (
      with_entries (get_filtered_args args_dict create_fields)
        (create_entries ws_name ws_folder env_vars))
