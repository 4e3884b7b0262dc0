-- ===== src/Launch/View.antt =====
-- templates/robot_description/view_robot.launch.py, and the two launch files of templates/ros2_control that publish goals
-- for a test.
use ros_team_workspace.Base.{String, some, List, [], ◌∷◌}
use ros_team_workspace.Launch.{
  Substitution, text, launch_configuration, find_package_share, find_executable, path_join, command,
  parts, file, value, single, to, streams, Node, new_node, Declaration, declare, LaunchDescription,
}

abbrev pub declared_arguments : List Declaration
declared_arguments = declare "description_package" "$PKG_NAME$" ∷ declare "prefix" "\"\"" ∷ []

abbrev pub robot_description_content : Substitution
robot_description_content = command (
    parts (
      path_join (parts (find_executable "xacro" ∷ []))
      ∷ text " "
      ∷ path_join (
          parts (
            find_package_share (launch_configuration "description_package")
            ∷ text "urdf"
            ∷ text "$ROBOT_NAME$.urdf.xacro"
            ∷ []))
      ∷ text " "
      ∷ text "prefix:="
      ∷ launch_configuration "prefix"
      ∷ text " "
      ∷ []))

abbrev pub rviz_config_file : Substitution
rviz_config_file = path_join (
    parts (
      find_package_share (launch_configuration "description_package")
      ∷ text "rviz"
      ∷ text "$ROBOT_NAME$.rviz"
      ∷ []))

abbrev pub joint_state_publisher_node : Node
joint_state_publisher_node =
    new_node (single "joint_state_publisher_node") "joint_state_publisher_gui"
      "joint_state_publisher_gui"

abbrev pub robot_state_publisher_node : Node
robot_state_publisher_node =
    record (new_node (single "robot_state_publisher_node") "robot_state_publisher"
      "robot_state_publisher") {
        output = to "both";
        parameters = value "robot_description" robot_description_content ∷ [];
      }

abbrev pub rviz_node : Node
rviz_node = record (new_node (single "rviz_node") "rviz2" "rviz2") {
  name = some "rviz2";
  output = to "log";
  arguments = text "-d" ∷ rviz_config_file ∷ [];
}

-- `generate_launch_description` of view_robot.launch.py
abbrev pub view_launch_description : LaunchDescription
view_launch_description = record {
  declared_arguments = declared_arguments;
  includes = [];
  nodes = joint_state_publisher_node ∷ robot_state_publisher_node ∷ rviz_node ∷ [];
  handlers = [];
}

abbrev pub position_goals : Substitution
position_goals = path_join (
    parts (
      find_package_share (text "$PKG_NAME$")
      ∷ text "config"
      ∷ text "test_goal_publishers_config.yaml"
      ∷ []))

-- The publisher of one of the two files.
abbrev pub goal_publisher : String → LaunchDescription
goal_publisher executable = record {
  declared_arguments = [];
  includes = [];
  nodes =
      record (new_node (single "publisher") "ros2_controllers_test_nodes" executable) {
        name = some executable;
        parameters = file position_goals ∷ [];
        output = streams (("stdout", "screen") ∷ ("stderr", "screen") ∷ []);
      }
      ∷ [];
  handlers = [];
}

-- `generate_launch_description` of test_forward_position_controller.launch.py
abbrev pub forward_position_test : LaunchDescription
forward_position_test = goal_publisher "publisher_forward_position_controller"

-- `generate_launch_description` of test_joint_trajectory_controller.launch.py
abbrev pub joint_trajectory_test : LaunchDescription
joint_trajectory_test = goal_publisher "publisher_joint_trajectory_controller"
