-- ===== src/Import/Arguments.antt =====
-- import_verb.py: the arguments of the verb, and the fields of `ImportVerbArgs`.
use ros_team_workspace.Base.{◌<>◌, false, true, List, [], ◌∷◌}
use ros_team_workspace.Base.Dict.{Dict}
use ros_team_workspace.Base.Result.{Result}
use ros_team_workspace.Host.{Host}
use ros_team_workspace.Arguments.{
  Value, Argument, Field, none_value, text, flag, text_shape, flag_shape, optional, required_text,
  switch, field, field_or, get_filtered_args, dataclass_init,
}

abbrev pub import_arguments : Host → List Argument
import_arguments H =
    required_text "--ws-name" []
    ∷ required_text "--ros-distro" ("humble" ∷ "rolling" ∷ [])
    ∷ optional "--standalone-docker-image" none_value
    ∷ switch "--disable-nvidia"
    ∷ switch "--enable-ipc"
    ∷ optional "--final-image-name" none_value
    ∷ optional "--container-name" none_value
    ∷ optional "--ssh-abs-path" (text (H.home <> "/.ssh"))
    ∷ optional "--hostname" none_value
    ∷ optional "--user-override-name" none_value
    ∷ []

abbrev pub import_fields : List Field
import_fields =
    field "ws_name" text_shape
    ∷ field "ros_distro" text_shape
    ∷ field "standalone_docker_image" text_shape
    ∷ field_or "docker" flag_shape (flag true)
    ∷ field_or "disable_nvidia" flag_shape (flag false)
    ∷ field_or "enable_ipc" flag_shape (flag false)
    ∷ field_or "standalone" flag_shape (flag true)
    ∷ field_or "final_image_name" text_shape (text "")
    ∷ field_or "container_name" text_shape (text "")
    ∷ field_or "ssh_abs_path" text_shape (text "")
    ∷ field_or "hostname" text_shape (text "")
    ∷ field_or "user_override_name" text_shape (text "")
    ∷ field_or "ws_abs_path" text_shape (text "")
    ∷ []

-- The fields that `ImportVerbArgs(**filtered_args)` sets before `__post_init__`
unfoldable pub import_verb_args : Dict Value → Result (Dict Value)
unfolding get_filtered_args dataclass_init
import_verb_args args_dict =
    dataclass_init import_fields (get_filtered_args args_dict import_fields)
