-- ===== src/Plugins/Installed.antt =====
-- The entry points that rtwcli/rtwcli/setup.py, rtwcli/rtw_cmds/setup.py and rtwcli/rtw_rocker_extensions/setup.py declare.
use ros_team_workspace.Base.{String, Bool, true, not, ◌&&◌, Option, none, some, [], ◌∷◌, is_empty}
use ros_team_workspace.Base.Dict.{Dict, has_key, lookup}

-- The entry points of a distribution by their groups, each with its module and class.
abbrev pub EntryPoints : Type 0
EntryPoints = Dict (Dict String)

abbrev pub rtwcli_entry_points : EntryPoints
rtwcli_entry_points =
    (
      "rtwcli.command",
      ("extension_points", "rtwcli.command.extension_points:ExtensionPointsCommand")
          ∷ ("extensions", "rtwcli.command.extensions:ExtensionsCommand")
          ∷ ("info", "rtwcli.command.info:InfoCommand")
          ∷ [],
    )
    ∷ ("rtwcli.extension_point", ("rtwcli.command", "rtwcli.command:CommandExtension") ∷ [])
    ∷ ("console_scripts", ("rtw", "rtwcli.cli:main") ∷ [])
    ∷ []

abbrev pub rtw_cmds_entry_points : EntryPoints
rtw_cmds_entry_points =
    (
      "rtwcli.command",
      ("docker", "rtw_cmds.commands:DockerCommand")
          ∷ ("pkg", "rtw_cmds.commands:PkgCommand")
          ∷ ("workspace", "rtw_cmds.commands:WorkspaceCommand")
          ∷ ("ws", "rtw_cmds.aliases:WSAlias")
          ∷ [],
    )
    ∷ (
      "rtwcli.extension_point",
      ("rtw_cmds.docker.verbs", "rtwcli.verb:VerbExtension")
          ∷ ("rtw_cmds.pkg.verbs", "rtwcli.verb:VerbExtension")
          ∷ ("rtw_cmds.workspace.verbs", "rtwcli.verb:VerbExtension")
          ∷ [],
    )
    ∷ (
      "rtw_cmds.docker.verbs",
      ("enter", "rtw_cmds.docker.verbs:EnterVerb")
          ∷ ("restart", "rtw_cmds.docker.verbs:RestartVerb")
          ∷ ("start", "rtw_cmds.docker.verbs:StartVerb")
          ∷ ("stop", "rtw_cmds.docker.verbs:StopVerb")
          ∷ [],
    )
    ∷ ("rtw_cmds.pkg.verbs", ("create", "rtw_cmds.pkg.verbs:CreateVerb") ∷ [])
    ∷ (
      "rtw_cmds.workspace.verbs",
      ("create", "rtw_cmds.workspace.create_verb:CreateVerb")
          ∷ ("delete", "rtw_cmds.workspace.delete_verb:DeleteVerb")
          ∷ ("edit", "rtw_cmds.workspace.edit_verb:EditVerb")
          ∷ ("import", "rtw_cmds.workspace.import_verb:ImportVerb")
          ∷ ("list", "rtw_cmds.workspace.list_verb:ListVerb")
          ∷ ("port", "rtw_cmds.workspace.port_verb:PortVerb")
          ∷ ("use", "rtw_cmds.workspace.use_verb:UseVerb")
          ∷ [],
    )
    ∷ []

abbrev pub rocker_entry_points : EntryPoints
rocker_entry_points =
    (
      "rocker.extensions",
      ("rtw_tmpfs", "rtw_rocker_extensions.rtw_tmpfs:RTWTmpfs")
          ∷ ("rtw_update", "rtw_rocker_extensions.rtw_update:RTWUPdate")
          ∷ [],
    )
    ∷ []

-- The groups from which the commands with verbs load their verbs.
abbrev pub verb_groups : Dict String
verb_groups =
    ("docker", "rtw_cmds.docker.verbs")
    ∷ ("pkg", "rtw_cmds.pkg.verbs")
    ∷ ("workspace", "rtw_cmds.workspace.verbs")
    ∷ []

-- The entry points of a group.
unfoldable pub group_of : String → EntryPoints → Dict String
unfolding lookup
group_of group points = or_empty (lookup group points)
  where
    or_empty : Option (Dict String) → Dict String
    or_empty none = []
    or_empty (some entries) = entries

-- Each command with verbs is declared, its group is an extension point, and the group has verbs.
unfoldable pub is_installed : Dict String → EntryPoints → Bool
unfolding lookup group_of
is_installed [] points = true
is_installed ((command, group) ∷ rest) points =
    let others = is_installed rest points in
    has_key command (group_of "rtwcli.command" points)
    && has_key group (group_of "rtwcli.extension_point" points)
    && not (is_empty (group_of group points))
    && others
