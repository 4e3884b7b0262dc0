-- ===== src/Tests/Launching.antt =====
-- Runs of robot_ros2_control.launch.py.
use ros_team_workspace.Base.{refl, List, [], ◌∷◌, inl, inr, arith}
use ros_team_workspace.Launch.{
  text, launch_configuration, single, element, Event, started, exited, Run, ready, start_node,
  handle, exit,
}
use ros_team_workspace.Launch.Robot.{
  control_node, spawners, delay_after, description_for, robot_launch_description,
}
use ros_team_workspace.Launch.Ordered.{inactive, process_of, Before, spawner-Ordered}
use ros_team_workspace.Launch.Started.{spawner-Starts}

abbrev events : List Event
events =
    exited (element "robot_controller_spawners" 0)
    ∷ started (element "robot_controller_spawners" 0)
    ∷ exited (single "joint_state_broadcaster_spawner")
    ∷ started (single "joint_state_broadcaster_spawner")
    ∷ started (single "control_node")
    ∷ []

-- The spawners exit in their order.
first_run : Run robot_launch_description events
unfolding description_for delay_after spawners
first_run =
    exit _
      (handle _
        (exit _ (handle _ (start_node control_node ready (inl refl)) (inl refl) (inl refl))
          (inl refl))
        (inr (inl refl)) (inl refl))
      (inl refl)

whole_run : Run robot_launch_description (started (process_of (inactive 0)) ∷ events)
whole_run =
    spawner-Starts (launch_configuration "robot_controller") []
      (text "add_some_controller_name" ∷ []) (inactive 0) events (omega arith) first_run (inl refl)

spawner-Starts_example : Run robot_launch_description (started (process_of (inactive 0)) ∷ events)
spawner-Starts_example =
    spawner-Starts (launch_configuration "robot_controller") []
      (text "add_some_controller_name" ∷ []) (inactive 0) events (omega arith) first_run (inl refl)

spawner-Ordered_example : Before 1 (inactive 0) events
spawner-Ordered_example =
    spawner-Ordered (launch_configuration "robot_controller") []
      (text "add_some_controller_name" ∷ []) (inactive 0) events whole_run
