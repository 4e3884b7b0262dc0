-- ===== src/Launch/Moveit.antt =====
-- templates/moveit/moveit.launch.py
use ros_team_workspace.Base.{String, List, [], ◌∷◌}
use ros_team_workspace.Launch.{
  Substitution, text, launch_configuration, find_package_share, find_executable, path_join, command,
  parts, Parameter, file, value, single, to, Node, new_node, Declaration, declare,
  LaunchDescription,
}

abbrev pub robot_description_content : Substitution
robot_description_content = command (
    parts (
      path_join (parts (find_executable "xacro" ∷ []))
      ∷ text " "
      ∷ path_join (
          parts (
            find_package_share (launch_configuration "description_package")
            ∷ text "urdf"
            ∷ launch_configuration "description_file"
            ∷ []))
      ∷ text " "
      ∷ text "prefix:="
      ∷ launch_configuration "prefix"
      ∷ text " "
      ∷ text "use_mock:="
      ∷ launch_configuration "use_mock"
      ∷ text " "
      ∷ text "mock_sensor_commands:="
      ∷ launch_configuration "mock_sensor_commands"
      ∷ text " "
      ∷ []))

abbrev pub robot_description_semantic_content : Substitution
robot_description_semantic_content = command (
    parts (
      path_join (parts (find_executable "xacro" ∷ []))
      ∷ text " "
      ∷ path_join (
          parts (
            find_package_share (launch_configuration "moveit_package")
            ∷ text "srdf"
            ∷ launch_configuration "semantic_description_file"
            ∷ []))
      ∷ []))

-- A file in the folder of the package with the configuration.
abbrev pub moveit_file : String → String → Substitution
moveit_file folder name = path_join (
    parts
      (find_package_share (launch_configuration "moveit_package") ∷ text folder ∷ text name ∷ []))

-- The parameters of both nodes.
abbrev pub moveit_parameters : List Parameter
moveit_parameters =
    value "robot_description" robot_description_content
    ∷ value "robot_description_semantic" robot_description_semantic_content
    ∷ file (moveit_file "config" "ompl_planning.yaml")
    ∷ file (moveit_file "config" "move_group.yaml")
    ∷ value "use_sim_time" (launch_configuration "use_sim_time")
    ∷ []

abbrev pub move_group_node : Node
move_group_node =
    record (new_node (single "move_group_node") "moveit_ros_move_group" "move_group") {
      output = to "screen";
      arguments = text "--ros-args" ∷ text "--log-level" ∷ launch_configuration "severity" ∷ [];
      parameters = moveit_parameters;
    }

abbrev pub rviz_node : Node
rviz_node = record (new_node (single "rviz_node") "rviz2" "rviz2") {
  output = to "log";
  arguments =
      text "-d"
      ∷ moveit_file "rviz" "moveit.rviz"
      ∷ text "--ros-args"
      ∷ text "--log-level"
      ∷ text "WARN"
      ∷ [];
  parameters = moveit_parameters;
}

-- `launch_setup`
abbrev pub launch_setup : List Node
launch_setup = move_group_node ∷ rviz_node ∷ []

abbrev pub declared_arguments : List Declaration
declared_arguments =
    declare "description_package" "$DESCR_PKG_NAME$"
    ∷ declare "description_file" "$ROBOT_NAME$.urdf.xacro"
    ∷ declare "moveit_package" "$PKG_NAME$"
    ∷ declare "semantic_description_file" "$ROBOT_NAME$.srdf.xacro"
    ∷ declare "prefix" "\"\""
    ∷ declare "use_mock" "true"
    ∷ declare "mock_sensor_commands" "false"
    ∷ declare "use_sim_time" "false"
    ∷ record (declare "severity" "INFO") {
      choices = "INFO" ∷ "WARN" ∷ "ERROR" ∷ "DEBUG" ∷ "FATAL" ∷ [];
    }
    ∷ []

-- `generate_launch_description`: the nodes are those that the `OpaqueFunction` makes at the launch.
abbrev pub moveit_launch_description : LaunchDescription
moveit_launch_description = record {
  declared_arguments = declared_arguments;
  includes = [];
  nodes = launch_setup;
  handlers = [];
}
