-- ===== src/Port/Report.antt =====
-- port_verb.py: the tree that `print_port_stats` prints, as its lines with their depths.
use ros_team_workspace.Base.{
  ℕ, suc, String, ◌<>◌, Bool, List, [], ◌∷◌, contains, length, if◌then◌else◌,
}
use ros_team_workspace.Base.Number.{number_text}
use ros_team_workspace.Delete.Report.{Tree}

-- `PortStatus(…).name`
abbrev pub port_status_name : Bool → String
port_status_name is_ported = if is_ported then "SUCCESS" else "FAILED"

unfoldable pub port_nodes : ℕ → List String → List String → Tree
port_nodes ws_i ported [] = []
port_nodes ws_i ported (ws_name ∷ names) =
    (
      1,
      "[bold blue]"
          <> number_text ws_i
          <> ". "
          <> ws_name
          <> " - [bold magenta]"
          <> port_status_name (contains ported ws_name),
    )
    ∷ port_nodes (suc ws_i) ported names

unfoldable pub print_port_stats : List String → List String → Tree
unfolding port_nodes
print_port_stats ported to_be_ported =
    (
      0,
      "[bold green]Workspace Porting Statistics: "
          <> number_text (length ported)
          <> "/"
          <> number_text (length to_be_ported),
    )
    ∷ port_nodes 1 ported to_be_ported
