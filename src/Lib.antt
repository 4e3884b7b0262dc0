-- ===== src/Lib.antt =====
-- The workspace tool `rtw` of ros_team_workspace: its configuration of ROS workspaces, the Docker
-- containers of workspaces, and the verbs that change them.
--
-- The program keeps one YAML file, ~/.ros_team_workspace/workspaces.yaml, with a record for each
-- workspace. The verbs of rtwcli/rtw_cmds load it, look up or change workspaces, and save it; on the
-- way they run commands, talk to the Docker daemon and ask the user.
--
-- Files, and the code that they model:
--   Base          the conditional, Python's `dict` in insertion order, exceptions as values,
--                 the methods of `str` and the functions of `os.path`
--   Workspace     rtwcli/rtwcli/rtwcli/workspace_utils.py: `Workspace` and `__post_init__`
--   Config        the same file: `WorkspacesConfig`, `from_dict`, `to_dict`, adding and removing
--   Host          the machine: every call that the code makes of files, YAML, processes, the Docker
--                 SDK and the user. A call is put on a record, the newest first, and the machine
--                 answers from the record so far, with a value or an exception. `Host.Prog` has the
--                 programs over it: a result or an exception, and the record after it. The machine is
--                 a parameter of the whole development, so what is shown holds for every behaviour
--                 of it; the theorems on containers name what they assume of the daemon.
--   Utils         rtwcli/rtwcli/rtwcli/utils.py: files, YAML, commands, vcs, git
--   ConfigFile    workspace_utils.py: loading, saving, `update_workspaces_config`; the paths are from
--                 rtwcli/rtwcli/rtwcli/constants.py
--   Docker        rtwcli/rtwcli/rtwcli/docker_utils.py; Docker.Verbs is
--                 rtwcli/rtw_cmds/rtw_cmds/docker/verbs.py
--   Delete        rtwcli/rtw_cmds/rtw_cmds/workspace/delete_verb.py: the removal steps and loops;
--                 Delete.Report is the tree that is printed, and Port.Report that of the port verb
--   Edit          rtwcli/rtw_cmds/rtw_cmds/workspace/edit_verb.py: the environment of a workspace
--   Select        workspace_utils.py: the dialog in which the user selects workspaces
--   Script        workspace_utils.py: the script that makes a shell use a workspace with its
--                 variables, the build command
--   Rocker        rtwcli/rtwcli/rtwcli/rocker_utils.py: the flags of the rocker command, and what
--                 the extensions of rocker in rtwcli/rtw_rocker_extensions add
--   Create        rtwcli/rtw_cmds/rtw_cmds/workspace/create_verb.py: Create.Args has the arguments and
--                 their paths, Create.Repos `__post_init__`, Create.Dockerfile and Create.Image the
--                 image and the intermediate container, Create.Commands the commands that build the
--                 workspace, Create.Cleanup what happens after a failure, Create.Verb main,
--                 Create.Instance the instance that `CreateVerbArgs(**filtered_args)` makes
--   Import        rtwcli/rtw_cmds/rtw_cmds/workspace/import_verb.py
--   Port          rtwcli/rtw_cmds/rtw_cmds/workspace/port_verb.py; Port.Functions has its two regular
--                 expressions as scans of the text
--   Use           rtwcli/rtw_cmds/rtw_cmds/workspace/use_verb.py
--   Plugins       rtwcli/rtwcli/rtwcli/plugin_system.py and entry_points.py: loading the extensions
--                 and making one instance of each; Plugins.Version is the check of versions,
--                 Plugins.Docs the first line of a docstring, Plugins.Order the order,
--                 Plugins.Installed the entry points that the three setup.py declare
--   Command       rtwcli/rtwcli/rtwcli/command/__init__.py: the parsers of the commands;
--                 Command.Demand has `add_subparsers_on_demand`, Command.Suppress
--                 `SuppressUsageOutput`, Command.Verbs also rtwcli/rtwcli/rtwcli/verb/__init__.py,
--                 Command.Main rtwcli/rtwcli/rtwcli/cli.py and rtwcli/rtw_cmds/rtw_cmds/commands.py.
--                 What argparse and argcomplete make of the command line, and the package
--                 `packaging`, are parameters
--   Arguments     the arguments that the verbs declare and the dataclasses that are made from them:
--                 `get_filtered_args` of utils.py; Create.Arguments and Import.Arguments have those of
--                 the two verbs, Arguments.Verbs the others
--   Listing       rtwcli/rtwcli/rtwcli/command/info.py and the verb list_verb.py; Listing.Entries has
--                 the commands that list extensions, command/extensions.py and extension_points.py
--   Launch        the launch files in templates/: Launch.Robot is ros2_control/robot_ros2_control.launch.py,
--                 Launch.Simulation its variant for Gazebo, Launch.Moveit moveit/moveit.launch.py,
--                 Launch.View the others. `Run` says how the library `launch` runs a description:
--                 which processes may start or exit, given what happened before
--   Site          docs/conf.py: Site.Redirects has the directive for old addresses and its pages,
--                 Site.Branches what the build for a branch changes and the macros. The functions
--                 of Sphinx are parameters
--   Urdf          templates/robot_description/test_urdf_xacro.py
--   Tests         runs on concrete data, and the theorems at concrete inputs
--
-- How the code is read. A stored workspace (`WsData`) has its fields with the types that the
-- dataclass annotates, or lacks them; a YAML value of another type is outside the model. `docker_api`
-- stands for the SDK's `APIError` with its subclasses. `docker.from_env()` and the `get` after it are
-- one call. `str` of a list of file names is written for names that need no escapes. The messages of
-- the `TypeError`s that Python raises are shortened. What `config` holds after a step that raised is
-- not kept, since the loop stops and drops it. The loops run over lists. Only `ask_yes_no` has fuel:
-- it calls itself until an answer is valid, and its fuel is how deep Python can still call, which is a
-- parameter; when it is used up the result is Python's RecursionError. The order in which Python walks
-- a set is a parameter too. `textwrap.dedent` and `strip` are written for texts without line breaks of
-- their own and for ASCII white space, `lower` and `upper` for ASCII letters. An argument that argparse
-- leaves at `None` is the empty text in `CreateArgs`, since the code only asks whether it is true.
--
-- What argparse makes of the command line is a parameter; Arguments.Typed says which namespaces
-- it can make. The lines that a tree or a list prints are texts; their layout by rich is not modelled.
--
-- Not modelled: logging, what argparse does inside, the other templates, the settings in
-- docs/conf.py that only Sphinx reads, and shell scripts.
pub mod Base
pub mod Workspace
pub mod Config
pub mod Host
pub mod Utils
pub mod ConfigFile
pub mod Docker
pub mod Delete
pub mod Edit
pub mod Script
pub mod Rocker
pub mod Create
pub mod Import
pub mod Use
pub mod Port
pub mod Plugins
pub mod Command
pub mod Arguments
pub mod Listing
pub mod Launch
pub mod Site
pub mod Urdf
pub mod Select
mod Tests
