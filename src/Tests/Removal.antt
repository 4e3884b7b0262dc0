-- ===== src/Tests/Removal.antt =====
-- The removal of workspaces at concrete data.
use ros_team_workspace.Base.{refl, true, none, []}
use ros_team_workspace.Workspace.{Workspace}
use ros_team_workspace.Host.{Host}
use ros_team_workspace.Host.Record.{Only}
use ros_team_workspace.Delete.Steps.{removal_steps}
use ros_team_workspace.Delete.{run_steps}
use ros_team_workspace.Delete.Safety.{KeepsDocker, plain-KeepsDocker}
use ros_team_workspace.Delete.Order.{Ordered, removal-Ordered}
use ros_team_workspace.Tests.Machine.{smooth}
use ros_team_workspace.Tests.Configuration.{sample, other, config}

abbrev machine : Host
machine = smooth none

abbrev alone : Workspace
alone = record sample { standalone = true }

plain-KeepsDocker_example : Only KeepsDocker (run_steps machine removal_steps other config [])
plain-KeepsDocker_example = plain-KeepsDocker machine other removal_steps config [] refl

removal-Ordered_example :
    Ordered machine sample config [] (run_steps machine removal_steps sample config [] [])
removal-Ordered_example = removal-Ordered machine sample config []
