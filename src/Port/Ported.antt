-- ===== src/Port/Ported.antt =====
-- What port_verb.py reports as ported.
use ros_team_workspace.Base.{String, ◌≡◌, true, some, List, All}
use ros_team_workspace.Base.Dict.{Dict, lookup}
use ros_team_workspace.Base.Result.{Result, ok, raised}
use ros_team_workspace.Workspace.{Workspace}
use ros_team_workspace.ConfigFile.{workspaces_path, update_workspaces_config}
use ros_team_workspace.Host.{Host, Trace}
use ros_team_workspace.Host.Prog.{Prog}

module _ (H : Host) (workspaces : Dict Workspace) where
  -- The script's workspace of that name was added to the configuration file.
  abbrev pub Ported : String → Type 0
  Ported name =
      (ws : Workspace) × (t : Trace) × (lookup name workspaces ≡ some ws)
      × ((update_workspaces_config H (workspaces_path H) ws t).0 ≡ ok true)

  abbrev AllPorted : Result (List String) → Type 0
  AllPorted (ok names) = All Ported names
  AllPorted (raised e) = Unit

  abbrev Reports : Result (List String) × Trace → Type 0
  Reports (r, u) = AllPorted r
