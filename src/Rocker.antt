-- ===== src/Rocker.antt =====
-- rtwcli/rtwcli/rtwcli/rocker_utils.py: the flags of the `rocker` command.
use ros_team_workspace.Base.{
  String, ◌<>◌, Bool, none, List, [], ◌∷◌, ◌++◌, ◌==◌, not, is_empty, is_given, is_set, or_text,
  if◌then◌else◌,
}
use ros_team_workspace.Base.Result.{runtime_error, key_error}
use ros_team_workspace.Base.Text.{join}
use ros_team_workspace.Host.{Host}
use ros_team_workspace.Host.Prog.{
  Prog, pure, try, throw, on_option, except_raise, is_key_error, ◌>>=◌,
}
use ros_team_workspace.Host.Calls
use ros_team_workspace.Utils.{get_display_manager, get_os_id, run_command}

-- The parameters of `generate_rocker_flags`; an empty text or list where there is none.
pub record RockerOptions : Type 0 where
  pub disable_nvidia : Bool
  pub container_name : String
  pub hostname : String
  pub enable_ipc : Bool
  pub ssh_abs_path : String
  pub ssh_abs_path_in_docker : String
  pub final_image_name : String
  pub ws_volumes : List String
  pub user_override_name : String
  pub env_file : String
  pub devices : List String
  pub enable_input : Bool
  pub enable_realtime : Bool
  pub use_groups : List String

abbrev flags_if : Bool → List String → List String
flags_if b flags = if b then flags else []

unfoldable pub device_flags : List String → List String
device_flags [] = []
device_flags (device ∷ devices) = "--device" ∷ device ∷ device_flags devices

abbrev pub groups_to_add : RockerOptions → List String
groups_to_add o =
    o.use_groups
    ++ (flags_if o.enable_input ("input" ∷ []) ++ flags_if o.enable_realtime ("realtime" ∷ []))

abbrev oyr_run_args : RockerOptions → List String
oyr_run_args o =
    flags_if o.enable_input ("--device-cgroup-rule='c 13:* rmw'" ∷ [])
    ++ flags_if o.enable_realtime ("--cap-add=sys_nice" ∷ [])

-- The flags before those of the display.
abbrev driver_flags : RockerOptions → String → List String
driver_flags o os_id =
    ("--nocache" ∷ "--nocleanup" ∷ "--git" ∷ "-e" ∷ "QT_QPA_PLATFORM=xcb" ∷ [])
    ++ (flags_if (os_id == "debian") (
          "-e" ∷ "QT_X11_NO_MITSHM=1" ∷ "-e" ∷ "LIBGL_ALWAYS_SOFTWARE=1" ∷ "--device" ∷ "/dev/dri"
          ∷ [])
        ++ flags_if (not o.disable_nvidia)
            ("-e" ∷ "__GLX_VENDOR_LIBRARY_NAME=nvidia" ∷ "-e" ∷ "__NV_PRIME_RENDER_OFFLOAD=1" ∷ []))

-- The flags between those of the display and those of the groups.
abbrev container_flags : RockerOptions → List String
container_flags o =
    ("--hostname" ∷ o.hostname ∷ "--name" ∷ o.container_name ∷ "--network" ∷ "host" ∷ [])
    ++ (flags_if o.enable_ipc ("--ipc" ∷ "host" ∷ [])
        ++ (flags_if (not o.disable_nvidia) ("--nvidia" ∷ "gpus" ∷ [])
            ++ (("--user" ∷ "--user-preserve-home" ∷ [])
                ++ (flags_if (is_set o.user_override_name)
                      ("--user-override-name" ∷ o.user_override_name ∷ [])
                    ++ (flags_if (is_set o.env_file) ("--env-file" ∷ o.env_file ∷ [])
                        ++ (("--volume"
                              ∷ (o.ssh_abs_path <> ":" <> o.ssh_abs_path_in_docker <> ":ro")
                              ∷ [])
                            ++ (o.ws_volumes
                                ++ (("--rtw-tmpfs" ∷ "--rtw-update" ∷ "--x11" ∷ [])
                                    ++ (device_flags o.devices
                                        ++ (flags_if o.enable_input
                                              ("--volume" ∷ "/dev/input:/dev/input" ∷ [])
                                            ++ flags_if o.enable_realtime (
                                                "--ulimit" ∷ "rtprio=99" ∷ "--ulimit" ∷ "memlock=-1"
                                                ∷ [])))))))))))

abbrev last_flags : RockerOptions → List String
last_flags o =
    flags_if (not (is_empty (oyr_run_args o))) ("--oyr-run-arg" ∷ join " " (oyr_run_args o) ∷ [])
    ++ ("--mode" ∷ "interactive" ∷ "--image-name" ∷ o.final_image_name ∷ [])

module _ (H : Host) where
  -- The flags of a Wayland display.
  unfoldable pub wayland_flags : Prog (List String)
  wayland_flags = do
    wayland_display ← Calls.variable H "WAYLAND_DISPLAY"
    if not (is_given wayland_display) then throw runtime_error "WAYLAND_DISPLAY is not set." else do
      runtime_dir ← Calls.variable H "XDG_RUNTIME_DIR"
      let display = or_text wayland_display ""
      on_option runtime_dir (throw key_error "XDG_RUNTIME_DIR") λ dir. pure (
          "-e"
          ∷ "XDG_RUNTIME_DIR=/tmp"
          ∷ "-e"
          ∷ ("WAYLAND_DISPLAY=" <> display)
          ∷ "--volume"
          ∷ (dir <> "/" <> display <> ":/tmp/" <> display)
          ∷ [])

  unfoldable pub display_flags : Prog (List String)
  display_flags = do
    manager ← get_display_manager H
    if manager == "wayland" then wayland_flags else pure []

  -- "Resolve and add GIDs for all requested groups"
  unfoldable pub group_flags : List String → Prog (List String)
  group_flags [] = pure []
  group_flags (group ∷ groups) = do
    gid ← try (Calls.group_id H group) (
        except_raise is_key_error (
          "Requested group '" <> group
          <> "' does not exist on the host system. Please create it or remove the flag."))
    rest ← group_flags groups
    pure ("--group-add" ∷ gid ∷ rest)

  unfoldable pub generate_rocker_flags : RockerOptions → Prog (List String)
  generate_rocker_flags o = do
    os_id ← get_os_id H
    display ← display_flags
    groups ← group_flags (H.set_order (groups_to_add o))
    pure (driver_flags o os_id ++ (display ++ (container_flags o ++ (groups ++ last_flags o))))

  unfoldable pub execute_rocker_cmd : List String → String → Prog Bool
  execute_rocker_cmd rocker_flags base_image =
      run_command H ("rocker" ∷ rocker_flags ++ (base_image ∷ [])) none []

-- `RTWTmpfs.get_docker_args` and `RTWUPdate.get_user_snippet` of the rocker extensions
-- in rtwcli/rtw_rocker_extensions.
abbrev pub tmpfs_docker_args : String
tmpfs_docker_args = join " " (" " ∷ "--tmpfs" ∷ "/tmp" ∷ " " ∷ [])

abbrev pub update_user_snippet : String
update_user_snippet = "RUN sudo apt-get update && rosdep update"
