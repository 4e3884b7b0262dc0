-- ===== src/Launch/Robot.antt =====
-- templates/ros2_control/robot_ros2_control.launch.py
use ros_team_workspace.Base.{ℕ, suc, String, some, List, [], ◌∷◌, ◌++◌}
use ros_team_workspace.Launch.{
  Substitution, text, launch_configuration, find_package_share, find_executable, path_join, command,
  parts, file, value, single, element, to, Node, new_node, Declaration, declare, Handler,
  on_process_start, on_process_exit, LaunchDescription,
}

abbrev pub declared_arguments : List Declaration
declared_arguments =
    declare "runtime_config_package" "$RUNTIME_CONFIG_PKG_NAME$"
    ∷ declare "controllers_file" "$ROBOT_NAME$_controllers.yaml"
    ∷ declare "description_package" "$DESCR_PKG_NAME$"
    ∷ declare "description_file" "$ROBOT_NAME$.urdf.xacro"
    ∷ declare "prefix" "\"\""
    ∷ declare "attach_world" "false"
    ∷ declare "use_mock" "true"
    ∷ declare "mock_sensor_commands" "false"
    ∷ record (declare "robot_controller" "joint_trajectory_controller") {
      choices = "forward_position_controller" ∷ "joint_trajectory_controller" ∷ [];
    }
    ∷ []

abbrev pub robot_description_content : Substitution
robot_description_content = command (
    parts (
      path_join (parts (find_executable "xacro" ∷ []))
      ∷ text " "
      ∷ path_join (
          parts (
            find_package_share (launch_configuration "description_package")
            ∷ text "urdf"
            ∷ launch_configuration "description_file"
            ∷ []))
      ∷ text " "
      ∷ text "prefix:="
      ∷ launch_configuration "prefix"
      ∷ text " "
      ∷ text "attach_world:="
      ∷ launch_configuration "attach_world"
      ∷ text " "
      ∷ text "use_mock:="
      ∷ launch_configuration "use_mock"
      ∷ text " "
      ∷ text "mock_sensor_commands:="
      ∷ launch_configuration "mock_sensor_commands"
      ∷ text " "
      ∷ []))

abbrev pub robot_controllers : Substitution
robot_controllers = path_join (
    parts (
      find_package_share (launch_configuration "runtime_config_package")
      ∷ text "config"
      ∷ launch_configuration "controllers_file"
      ∷ []))

abbrev pub rviz_config_file : Substitution
rviz_config_file = path_join (
    parts (
      find_package_share (launch_configuration "description_package")
      ∷ text "rviz"
      ∷ text "$ROBOT_NAME$.rviz"
      ∷ []))

abbrev pub control_node : Node
control_node = record (new_node (single "control_node") "controller_manager" "ros2_control_node") {
  output = to "both";
  parameters = value "robot_description" robot_description_content ∷ file robot_controllers ∷ [];
}

abbrev pub robot_state_pub_node : Node
robot_state_pub_node =
    record (new_node (single "robot_state_pub_node") "robot_state_publisher"
      "robot_state_publisher") {
        output = to "both";
        parameters = value "robot_description" robot_description_content ∷ [];
      }

abbrev pub rviz_node : Node
rviz_node = record (new_node (single "rviz_node") "rviz2" "rviz2") {
  name = some "rviz2";
  output = to "log";
  arguments = text "-d" ∷ rviz_config_file ∷ [];
}

abbrev pub joint_state_broadcaster_spawner : Node
joint_state_broadcaster_spawner =
    record (new_node (single "joint_state_broadcaster_spawner") "controller_manager" "spawner") {
      arguments =
          text "joint_state_broadcaster"
          ∷ text "--controller-manager"
          ∷ text "/controller_manager"
          ∷ [];
    }

-- The spawners of a list of controllers, from a place in the list on.
unfoldable pub spawners : String → List Substitution → ℕ → List Substitution → List Node
spawners variable options i [] = []
spawners variable options i (controller ∷ controllers) =
    record (new_node (element variable i) "controller_manager" "spawner") {
      arguments = controller ∷ text "-c" ∷ text "/controller_manager" ∷ options;
    }
    ∷ spawners variable options (suc i) controllers

abbrev pub robot_controller_spawners : List Substitution → List Node
robot_controller_spawners = spawners "robot_controller_spawners" [] 0

abbrev pub inactive_robot_controller_spawners : List Substitution → List Node
inactive_robot_controller_spawners =
    spawners "inactive_robot_controller_spawners" (text "--inactive" ∷ []) 0

-- Each node after the exit of the one before it in the list, the first one after the exit of the given one.
unfoldable pub delay_after : Node → List Node → List Handler
delay_after target [] = []
delay_after target (controller ∷ controllers) =
    on_process_exit target 0 controller ∷ delay_after controller controllers

-- `nodes[-1]`, of a list that is not empty.
abbrev pub last_of : Node → List Node → Node
last_of n [] = n
last_of n (m ∷ nodes) = last_of m nodes

abbrev pub delay_joint_state_broadcaster : Handler
delay_joint_state_broadcaster = on_process_start control_node 30 joint_state_broadcaster_spawner

-- The description for lists of controllers, of which the first has at least one.
unfoldable pub description_for :
    Substitution → List Substitution → List Substitution → LaunchDescription
unfolding spawners delay_after
description_for controller controllers inactive =
    let active = robot_controller_spawners (controller ∷ controllers) in
    record {
      declared_arguments = declared_arguments;
      includes = [];
      nodes = control_node ∷ robot_state_pub_node ∷ rviz_node ∷ [];
      handlers =
          delay_joint_state_broadcaster ∷ delay_after joint_state_broadcaster_spawner active
          ++ delay_after (last_of joint_state_broadcaster_spawner active)
              (inactive_robot_controller_spawners inactive);
    }

-- `generate_launch_description`
abbrev pub robot_launch_description : LaunchDescription
robot_launch_description =
    description_for (launch_configuration "robot_controller") []
      (text "add_some_controller_name" ∷ [])
