-- ===== src/Tests/Porting.antt =====
-- The port verb at concrete data.
use ros_team_workspace.Base.{String, ◌≡◌, refl, true, false, none, some, [], ◌∷◌, All}
use ros_team_workspace.Base.Dict.{lookup, insert}
use ros_team_workspace.Base.Result.{ok}
use ros_team_workspace.Base.Text.{strip_left, strip_right}
use ros_team_workspace.Workspace.{Workspace, post_init}
use ros_team_workspace.Config.{ws_to_dict}
use ros_team_workspace.Host.{Host}
use ros_team_workspace.Port.{extract_workspaces, raw_of_function, raw_workspace}
use ros_team_workspace.Port.Functions.{find_functions, variables_and_values}
use ros_team_workspace.Port.Extracted.{Own, extract_workspaces-Own}
use ros_team_workspace.Port.Ported.{Ported}
use ros_team_workspace.Tests.Machine.{smooth}
use ros_team_workspace.Tests.Configuration.{other}

abbrev script : String
script =
    "alias a=b\nRosTeamWS_setup_old () {\n  RosTeamWS_BASE_WS=\"<current>\"\n  RosTeamWS_DISTRO=\"jazzy\"\n  RosTeamWS_WS_FOLDER=\"/home/user/old\"\n  RosTeamWS_WS_DOCKER_SUPPORT=\"true\"\n  RosTeamWS_DOCKER_TAG=\"tag\"\n source setup.bash \"$RosTeamWS_DISTRO\"\n}\nother_function () {\n  A=1 \n}\n"

abbrev old : Workspace
old = record {
  ws_name = "old";
  distro = "jazzy";
  ws_folder = some "/home/user/old";
  ws_docker_support = true;
  docker_tag = some "tag";
  docker_container_name = some "tag-instance";
  base_ws = none;
  standalone = false;
  env_vars = some [];
  docker_devices = [];
}

-- An unquoted value takes the end of its line along.
unquoted_value :
    variables_and_values "f () {\n  A=true\n  B='x y'\n}" ≡ ("A", "true\n") ∷ ("B", "'x y'") ∷ []
unfolding variables_and_values insert strip_left strip_right
unquoted_value = refl

extracted : extract_workspaces script ≡ ok (("old", old) ∷ [])
unfolding extract_workspaces find_functions raw_of_function raw_workspace variables_and_values
    insert lookup strip_left strip_right post_init
extracted = refl

extract_workspaces-Own_example : All Own (("old", old) ∷ [])
extract_workspaces-Own_example = extract_workspaces-Own script (("old", old) ∷ []) extracted

abbrev machine : Host
machine = smooth (some (("workspaces", ("other", ws_to_dict other) ∷ []) ∷ []))
