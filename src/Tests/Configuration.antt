-- ===== src/Tests/Configuration.antt =====
-- Workspaces, configurations and the configuration file at concrete data.
use ros_team_workspace.Base.{String, ◌≡◌, ◌≢◌, ◌⊎◌, ◌↔◌, refl, true, false, none, some, [], ◌∷◌}
use ros_team_workspace.Base.{◌==◌, if◌then◌else◌}
use ros_team_workspace.Base.Dict.{lookup, insert}
use ros_team_workspace.Base.Result.{ok, raised, exception, value_error}
use ros_team_workspace.Workspace.{Workspace, IsValid, post_init}
use ros_team_workspace.Workspace.Validation.{post_init-IsValid, post_init-Settles}
use ros_team_workspace.Config.{
  WorkspacesConfig, from_dict, to_dict, add_workspace, remove_workspace, ws_to_dict,
  read_workspaces, workspace_of, with_name,
}
use ros_team_workspace.Config.RoundTrip.{IsConfig, from_dict-to_dict, from_dict-IsConfig}
use ros_team_workspace.Config.Operations.{workspace_at, operations_effect}
use ros_team_workspace.Host.{Host}
use ros_team_workspace.Host.Prog.{◌>>=◌}
use ros_team_workspace.ConfigFile.{update_workspaces_config}
use ros_team_workspace.ConfigFile.Backup.{Untouched, Backed, Loads, update-Backed}
use ros_team_workspace.ConfigFile.Stored.{Stores, update-Stores}
use ros_team_workspace.Tests.Machine.{smooth}

abbrev raw : Workspace
raw = record {
  ws_name = "ws";
  distro = "jazzy";
  ws_folder = some "/home/user/ws";
  ws_docker_support = true;
  docker_tag = some "rtw_ws_final";
  docker_container_name = some "rtw_ws_final-instance";
  base_ws = some "";
  standalone = false;
  env_vars = some [];
  docker_devices = [];
}

abbrev pub sample : Workspace
sample = record raw { base_ws = none }

abbrev pub other : Workspace
other = record sample {
  ws_name = "other";
  ws_docker_support = false;
  docker_tag = none;
  docker_container_name = none;
}

abbrev pub config : WorkspacesConfig
config = record { workspaces = ("other", other) ∷ [] }

empty_base : post_init raw ≡ ok sample
unfolding post_init
empty_base = refl

relative_folder :
    post_init (record raw { ws_folder = some "ws" })
    ≡ raised (exception value_error "Workspace folder must be an absolute path.")
unfolding post_init
relative_folder = refl

post_init-Settles_example : IsValid sample × (post_init sample ≡ ok sample)
post_init-Settles_example = post_init-Settles raw sample empty_base

other_passes : post_init other ≡ ok other
unfolding post_init
other_passes = refl

pub sample-IsValid : IsValid sample
sample-IsValid = post_init-IsValid raw sample empty_base

other-IsValid : IsValid other
other-IsValid = post_init-IsValid other other other_passes

config-IsConfig : IsConfig config
unfolding lookup
config-IsConfig = record { nodup = (refl, tt); valid = (other-IsValid, tt) }

from_dict-to_dict_example : from_dict (to_dict config) ≡ ok config
from_dict-to_dict_example = from_dict-to_dict config config-IsConfig

from_dict-IsConfig_example : IsConfig config
from_dict-IsConfig_example = from_dict-IsConfig (to_dict config) config from_dict-to_dict_example

operations_effect_example :
    (((workspace_at config sample.ws_name ≡ none)
        × ((add_workspace sample config).0 ≡ true)
        × ((name : String)
            → workspace_at (add_workspace sample config).1 name
              ≡ (if sample.ws_name == name then some sample else workspace_at config name)))
      ⊎ ((old : Workspace) × (workspace_at config sample.ws_name ≡ some old)
          × (add_workspace sample config ≡ (false, config))))
    × (((remove_workspace "other" config).0 ≡ true) ↔ (workspace_at config "other" ≢ none))
    × ((name : String)
        → workspace_at (remove_workspace "other" config).1 name
          ≡ (if "other" == name then none else workspace_at config name))
operations_effect_example = operations_effect sample "other" config

added : (add_workspace sample config).0 ≡ true
unfolding add_workspace lookup
added = refl

abbrev machine : Host
machine = smooth (some (("workspaces", ("other", ws_to_dict other) ∷ []) ∷ []))

update_succeeds : (update_workspaces_config machine "/ws.yaml" sample []).0 ≡ ok true
unfolding update_workspaces_config ◌>>=◌ post_init ws_to_dict lookup insert read_workspaces
    workspace_of with_name
update_succeeds = refl

update-Stores_example :
    Stores machine "/ws.yaml" sample [] (update_workspaces_config machine "/ws.yaml" sample []).1
update-Stores_example = update-Stores machine "/ws.yaml" sample [] sample-IsValid update_succeeds

update-Backed_example :
    Untouched machine [] (update_workspaces_config machine "/ws.yaml" sample [])
    ⊎ ((c : WorkspacesConfig) × Loads machine "/ws.yaml" [] c
        × (workspace_at c "ws" ≡ none)
        × Backed machine "/ws.yaml"
            (to_dict (add_workspace sample c).1)
            []
            (update_workspaces_config machine "/ws.yaml" sample []).1)
update-Backed_example = update-Backed machine "/ws.yaml" sample []
