-- ===== src/Config.antt =====
-- rtwcli/rtwcli/rtwcli/workspace_utils.py: the dataclass `WorkspacesConfig` and its YAML form.
pub mod RoundTrip
pub mod Operations
use ros_team_workspace.Base.{String, Bool, true, false, Option, none, some, List, [], ◌∷◌, map}
use ros_team_workspace.Base.{is_some, is_empty, not, if◌then◌else◌}
use ros_team_workspace.Base.Dict.{Dict, keys, lookup, has_key, insert, erase}
use ros_team_workspace.Base.Result.{Result, ok, raised, exception, type_error, reject, ◌>>=◌}
use ros_team_workspace.Workspace.{Workspace, EnvVars, post_init}

-- One workspace in a YAML document: each field is absent, or there with the type that the
-- dataclass annotates (`None` where the code handles it). `unknown` has the other keys.
pub record WsData : Type 0 where
  pub ws_name : Option String
  pub distro : Option String
  pub ws_folder : Option (Option String)
  pub ws_docker_support : Option Bool
  pub docker_tag : Option (Option String)
  pub docker_container_name : Option (Option String)
  pub base_ws : Option (Option String)
  pub standalone : Option Bool
  pub env_vars : Option EnvVars
  pub docker_devices : Option (List String)
  pub unknown : List String

-- What `yaml.safe_load` returns: `None` for an empty file, or a mapping.
abbrev pub Document : Type 0
Document = Option (Dict (Dict WsData))

pub record WorkspacesConfig : Type 0 where
  pub workspaces : Dict Workspace

abbrev pub workspaces_key : String
workspaces_key = "workspaces"

abbrev pub or_default {ℓ} : {A : Type ℓ} → Option A → A → A
or_default none d = d
or_default (some a) d = a

-- `dataclasses.asdict(self)`
unfoldable pub ws_to_dict : Workspace → WsData
ws_to_dict ws = record {
  ws_name = some ws.ws_name;
  distro = some ws.distro;
  ws_folder = some ws.ws_folder;
  ws_docker_support = some ws.ws_docker_support;
  docker_tag = some ws.docker_tag;
  docker_container_name = some ws.docker_container_name;
  base_ws = some ws.base_ws;
  standalone = some ws.standalone;
  env_vars = some ws.env_vars;
  docker_devices = some ws.docker_devices;
  unknown = [];
}

-- The binding of `Workspace(**ws_data)` to fields: unknown keys and missing fields are a
-- `TypeError`, the other fields have defaults.
unfoldable pub bind_fields : WsData → Result Workspace
bind_fields d =
    reject (not (is_empty d.unknown)) type_error "unexpected keyword argument" (elim d.ws_name [
      | none ↦ raised (exception type_error "missing argument: 'ws_name'")
      | some ws_name ↦ elim d.distro [
        | none ↦ raised (exception type_error "missing argument: 'distro'")
        | some distro ↦ ok (record {
          ws_name = ws_name;
          distro = distro;
          ws_folder = or_default d.ws_folder none;
          ws_docker_support = or_default d.ws_docker_support false;
          docker_tag = or_default d.docker_tag none;
          docker_container_name = or_default d.docker_container_name none;
          base_ws = or_default d.base_ws none;
          standalone = or_default d.standalone false;
          env_vars = or_default d.env_vars (some []);
          docker_devices = or_default d.docker_devices [];
        })
      ]
    ])

-- `Workspace(**ws_data)`
unfoldable pub workspace_of : WsData → Result Workspace
unfolding bind_fields
workspace_of d = bind_fields d >>= post_init

-- `if F_WS_NAME not in ws_data: ws_data[F_WS_NAME] = ws_name`
unfoldable pub with_name : String → WsData → WsData
with_name ws_name d = if is_some d.ws_name then d else record d { ws_name = some ws_name }

-- The loop of `from_dict`, with the dict that it has built.
unfoldable pub read_workspaces : Dict WsData → Dict Workspace → Result (Dict Workspace)
read_workspaces [] acc = ok acc
read_workspaces ((ws_name, d) ∷ rest) acc =
    workspace_of (with_name ws_name d) >>= λ ws. read_workspaces rest (insert ws_name ws acc)

unfoldable pub from_dict : Document → Result WorkspacesConfig
from_dict none = ok (record { workspaces = [] })
from_dict (some document) =
    read_workspaces (or_default (lookup workspaces_key document) []) [] >>= λ ws.
    ok (record { workspaces = ws })

unfoldable pub to_dict : WorkspacesConfig → Document
to_dict c = some ((workspaces_key, map (λ (k, ws). (k, ws_to_dict ws)) c.workspaces) ∷ [])

unfoldable pub get_ws_names : WorkspacesConfig → List String
get_ws_names c = if is_empty c.workspaces then [] else keys c.workspaces

-- The updated config, and the returned flag.
unfoldable pub add_workspace : Workspace → WorkspacesConfig → Bool × WorkspacesConfig
add_workspace ws c =
    if has_key ws.ws_name c.workspaces
    then (false, c)
    else (true, record { workspaces = insert ws.ws_name ws c.workspaces })

unfoldable pub remove_workspace : String → WorkspacesConfig → Bool × WorkspacesConfig
remove_workspace name c =
    if has_key name c.workspaces
    then (true, record { workspaces = erase name c.workspaces })
    else (false, c)
