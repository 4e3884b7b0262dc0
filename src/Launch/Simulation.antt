-- ===== src/Launch/Simulation.antt =====
-- templates/ros2_control/robot_ros2_control_sim.launch.py
use ros_team_workspace.Base.{some, List, [], ◌∷◌}
use ros_team_workspace.Launch.Robot.{spawners, robot_controller_spawners}
use ros_team_workspace.Launch.{
  Include, Substitution, text, launch_configuration, find_package_share, find_executable, path_join,
  command, parts, value, single, to, Node, new_node, Declaration, declare, Handler,
  on_process_start, on_process_exit, LaunchDescription,
}

abbrev pub declared_arguments : List Declaration
declared_arguments =
    declare "runtime_config_package" "$RUNTIME_CONFIG_PKG_NAME$"
    ∷ declare "controllers_file" "$ROBOT_NAME$_controllers.yaml"
    ∷ declare "description_package" "$DESCR_PKG_NAME$"
    ∷ declare "description_file" "$ROBOT_NAME$.urdf.xacro"
    ∷ declare "prefix" "\"\""
    ∷ declare "attach_world" "false"
    ∷ record (declare "robot_controller" "forward_position_controller") {
      choices = "forward_position_controller" ∷ "joint_trajectory_controller" ∷ [];
    }
    ∷ []

abbrev pub robot_controllers : Substitution
robot_controllers = path_join (
    parts (
      find_package_share (launch_configuration "runtime_config_package")
      ∷ text "config"
      ∷ launch_configuration "controllers_file"
      ∷ []))

abbrev pub rviz_config_file : Substitution
rviz_config_file = path_join (
    parts (
      find_package_share (launch_configuration "description_package")
      ∷ text "rviz"
      ∷ text "$ROBOT_NAME$.rviz"
      ∷ []))

abbrev pub robot_description_content : Substitution
robot_description_content = command (
    parts (
      path_join (parts (find_executable "xacro" ∷ []))
      ∷ text " "
      ∷ path_join (
          parts (
            find_package_share (launch_configuration "description_package")
            ∷ text "urdf"
            ∷ launch_configuration "description_file"
            ∷ []))
      ∷ text " "
      ∷ text "prefix:="
      ∷ launch_configuration "prefix"
      ∷ text " "
      ∷ text "attach_world:="
      ∷ launch_configuration "attach_world"
      ∷ text " "
      ∷ text "use_mock:=false"
      ∷ text " "
      ∷ text "mock_sensor_commands:=false"
      ∷ text " "
      ∷ text "sim_gazebo:=true"
      ∷ text " "
      ∷ text "simulation_controllers:="
      ∷ robot_controllers
      ∷ text " "
      ∷ []))

abbrev pub robot_state_pub_node : Node
robot_state_pub_node =
    record (new_node (single "robot_state_pub_node") "robot_state_publisher"
      "robot_state_publisher") {
        output = to "both";
        parameters = value "robot_description" robot_description_content ∷ [];
      }

abbrev pub rviz_node : Node
rviz_node = record (new_node (single "rviz_node") "rviz2" "rviz2") {
  name = some "rviz2";
  output = to "log";
  arguments = text "-d" ∷ rviz_config_file ∷ [];
}

abbrev pub joint_state_broadcaster_spawner : Node
joint_state_broadcaster_spawner =
    record (new_node (single "joint_state_broadcaster_spawner") "controller_manager" "spawner") {
      arguments =
          text "joint_state_broadcaster"
          ∷ text "--controller-manager"
          ∷ text "/controller_manager"
          ∷ [];
    }

-- The file of Gazebo that is included.
abbrev pub gazebo : Include
gazebo = record {
  source =
      find_package_share (text "ros_ign_gazebo")
      ∷ text "/launch"
      ∷ text "/ign_gazebo.launch.py"
      ∷ [];
  launch_arguments = ("ign_args", " -r -v 3 empty.sdf") ∷ [];
}

abbrev pub gazebo_spawn_robot : Node
gazebo_spawn_robot = record (new_node (single "gazebo_spawn_robot") "ros_ign_gazebo" "create") {
  name = some "spawn_rrbot";
  output = to "screen";
  arguments = text "-name" ∷ text "$ROBOT_NAME$" ∷ text "-topic" ∷ text "robot_description" ∷ [];
}

-- Each spawner three seconds after the exit of the given node.
unfoldable pub delay_all : Node → List Node → List Handler
delay_all target [] = []
delay_all target (controller ∷ controllers) =
    on_process_exit target 30 controller ∷ delay_all target controllers

-- The description for a list of controllers.
unfoldable pub simulation_for : List Substitution → LaunchDescription
unfolding delay_all spawners
simulation_for controllers = record {
  declared_arguments = declared_arguments;
  includes = gazebo ∷ [];
  nodes = gazebo_spawn_robot ∷ robot_state_pub_node ∷ rviz_node ∷ [];
  handlers =
      on_process_start gazebo_spawn_robot 30 joint_state_broadcaster_spawner
      ∷ delay_all joint_state_broadcaster_spawner (robot_controller_spawners controllers);
}

-- `generate_launch_description`
abbrev pub simulation_launch_description : LaunchDescription
simulation_launch_description = simulation_for (launch_configuration "robot_controller" ∷ [])
