-- ===== src/Tests/Choosing.antt =====
-- The use verb and the import verb at concrete data.
use ros_team_workspace.Base.{◌≡◌, refl, true, some, [], ◌∷◌}
use ros_team_workspace.Base.Result.{raised, exception, attribute_error}
use ros_team_workspace.Base.Text.{upper, replace_from, strip_left}
use ros_team_workspace.Config.{ws_to_dict}
use ros_team_workspace.Host.{Host}
use ros_team_workspace.Script.{
  create_bash_script_content_for_using_ws, workspace_var_to_env_var, flag,
}
use ros_team_workspace.Script.Variables.{
  read_back, env_var_to_workspace_var-workspace_var_to_env_var,
}
use ros_team_workspace.Use.{use_main}
use ros_team_workspace.Use.Choice.{Used, use_main-Used}
use ros_team_workspace.Import.{import_main}
use ros_team_workspace.Import.Arguments.{import_arguments}
use ros_team_workspace.Import.Fails.{import_main_fails}
use ros_team_workspace.Arguments.Defaults.{defaults_of, is_declaration, defaults_of-IsParsed}
use ros_team_workspace.Tests.Machine.{smooth}
use ros_team_workspace.Tests.Configuration.{other}

abbrev machine : Host
machine = smooth (some (("workspaces", ("other", ws_to_dict other) ∷ []) ∷ []))

script_text :
    create_bash_script_content_for_using_ws
      (record other { env_vars = some (("A", some "1") ∷ []) })
      "/s.bash"
    ≡ "#!/bin/bash\nexport RosTeamWS_WS_NAME='other'\nexport RosTeamWS_DISTRO='jazzy'\nexport RosTeamWS_WS_FOLDER='/home/user/ws'\nexport RosTeamWS_WS_DOCKER_SUPPORT='false'\nexport RosTeamWS_DOCKER_TAG='None'\nexport RosTeamWS_DOCKER_CONTAINER_NAME='None'\nexport RosTeamWS_BASE_WS='None'\nexport RosTeamWS_STANDALONE='false'\nexport RosTeamWS_DOCKER_DEVICES='[]'\nexport A='1'\nsource /s.bash jazzy /home/user/ws\n"
unfolding create_bash_script_content_for_using_ws upper workspace_var_to_env_var
script_text = refl

use_main-Used_example : Used machine (some "other") [] (use_main machine (some "other") []).1
use_main-Used_example = use_main-Used machine (some "other") []

import_declared : (H : Host) → is_declaration (import_arguments H) ≡ true
unfolding replace_from strip_left
import_declared H = refl

import_main_fails_example :
    import_main machine (defaults_of (import_arguments machine)) []
    ≡ (raised (exception attribute_error "'ImportVerbArgs' object has no attribute 'devices'"), [])
import_main_fails_example =
    import_main_fails machine (defaults_of (import_arguments machine)) []
      (defaults_of-IsParsed (import_arguments machine) (import_declared machine))

env_var_to_workspace_var-workspace_var_to_env_var_example :
    read_back (workspace_var_to_env_var "standalone" (flag true)) ≡ ("standalone", flag true)
env_var_to_workspace_var-workspace_var_to_env_var_example =
    env_var_to_workspace_var-workspace_var_to_env_var "standalone" (flag true) refl tt
