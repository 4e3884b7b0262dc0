-- ===== src/Workspace.antt =====
-- rtwcli/rtwcli/rtwcli/workspace_utils.py: the dataclass `Workspace` and its validation.
pub mod Validation
use ros_team_workspace.Base.{
  String, ◌≡◌, Bool, true, false, not, ◌&&◌, Option, none, some, List, [], ◌∷◌,
}
use ros_team_workspace.Base.{is_set, is_given, starts_with, ◌==◌, if◌then◌else◌}
use ros_team_workspace.Base.Dict.{Dict}
use ros_team_workspace.Base.Result.{Result, ok, reject, value_error}

-- `env_vars` may be `None`, and so may a value in it, when the YAML file says `null`.
abbrev pub EnvVars : Type 0
EnvVars = Option (Dict (Option String))

pub record Workspace : Type 0 where
  pub ws_name : String
  pub distro : String
  pub ws_folder : Option String
  pub ws_docker_support : Bool
  pub docker_tag : Option String
  pub docker_container_name : Option String
  pub base_ws : Option String
  pub standalone : Bool
  pub env_vars : EnvVars
  pub docker_devices : List String

-- `if self.f == "": self.f = None`
abbrev pub empty_to_none : Option String → Option String
empty_to_none none = none
empty_to_none (some s) = if s == "" then none else some s

-- `os.path.isabs`
abbrev pub is_abs : Option String → Bool
is_abs none = false
is_abs (some path) = starts_with path "/"

-- The first half of `__post_init__`.
unfoldable pub normalize : Workspace → Workspace
normalize ws = record ws {
  ws_folder = empty_to_none ws.ws_folder;
  docker_tag = empty_to_none ws.docker_tag;
  docker_container_name = empty_to_none ws.docker_container_name;
  base_ws = empty_to_none ws.base_ws;
}

-- The second half of `__post_init__`.
unfoldable pub validate : Workspace → Result Workspace
validate ws = reject (not (is_set ws.ws_name)) value_error "Workspace name cannot be empty." (
    reject (not (is_set ws.distro)) value_error "Distro cannot be empty." (
      reject (is_given ws.ws_folder && not (is_abs ws.ws_folder)) value_error
        "Workspace folder must be an absolute path."
        (reject (ws.standalone && not (is_given ws.ws_folder)) value_error
          "Standalone workspace requires a workspace folder."
          (reject (ws.ws_docker_support && not (is_given ws.docker_tag)) value_error
            "Docker-supported workspace requires a docker tag."
            (reject (ws.ws_docker_support && not (is_given ws.docker_container_name)) value_error
              "Docker-supported workspace requires a docker container name." (ok ws))))))

unfoldable pub post_init : Workspace → Result Workspace
unfolding normalize validate
post_init ws = validate (normalize ws)

-- An optional text that is `None` or not empty.
abbrev pub IsNormal : Option String → Type 0
IsNormal o = empty_to_none o ≡ o

-- What a constructed workspace promises.
pub record IsValid (ws : Workspace) : Type 0 where
  pub named : is_set ws.ws_name ≡ true
  pub has_distro : is_set ws.distro ≡ true
  pub folder_normal : IsNormal ws.ws_folder
  pub tag_normal : IsNormal ws.docker_tag
  pub container_normal : IsNormal ws.docker_container_name
  pub base_normal : IsNormal ws.base_ws
  pub folder_abs : is_given ws.ws_folder ≡ true → is_abs ws.ws_folder ≡ true
  pub standalone_folder : ws.standalone ≡ true → is_given ws.ws_folder ≡ true
  pub docker_tagged : ws.ws_docker_support ≡ true → is_given ws.docker_tag ≡ true
  pub docker_contained : ws.ws_docker_support ≡ true → is_given ws.docker_container_name ≡ true

-- `[field.name for field in dataclasses.fields(Workspace)]`
abbrev pub get_expected_ws_field_names : List String
get_expected_ws_field_names =
    "ws_name" ∷ "distro" ∷ "ws_folder" ∷ "ws_docker_support" ∷ "docker_tag"
    ∷ "docker_container_name" ∷ "base_ws" ∷ "standalone" ∷ "env_vars" ∷ "docker_devices" ∷ []
