-- ===== src/Create/Dockerfile.antt =====
-- create_verb.py: the Dockerfile of the intermediate image. `textwrap.dedent` is written out, for
-- option values without line breaks.
use ros_team_workspace.Base.{
  String, ◌<>◌, not, List, [], ◌∷◌, ◌++◌, is_empty, is_set, if◌then◌else◌,
}
use ros_team_workspace.Base.Text.{join, basename}
use ros_team_workspace.Host.{Host}
use ros_team_workspace.Host.Prog.{Prog, pure, try, except_raise, is_key_error, ◌>>=◌}
use ros_team_workspace.Host.Calls
use ros_team_workspace.Create.Args.{
  CreateArgs, upstream_ws_abs_path_in_docker, ws_abs_path_in_docker,
}

abbrev pub base_apt_packages : List String
base_apt_packages =
    "bash-completion" ∷ "git" ∷ "git-lfs" ∷ "iputils-ping" ∷ "nano" ∷ "openssh-client"
    ∷ "python3-colcon-common-extensions" ∷ "python3-pip" ∷ "python3-vcstool" ∷ "sudo" ∷ "tmux"
    ∷ "trash-cli" ∷ "tree" ∷ "vim" ∷ "wget" ∷ []

abbrev apt_install : List String → String
apt_install packages = join " " ("RUN" ∷ "apt-get" ∷ "install" ∷ "-y" ∷ packages)

unfoldable pub apt_packages_cmd : CreateArgs → String
apt_packages_cmd a =
    (if a.no_base_apt_packages
      then "# no apt packages to install"
      else apt_install base_apt_packages)
    <> (if is_empty a.additional_apt_packages
        then ""
        else "\n" <> apt_install a.additional_apt_packages)

-- "hack to install system-wide python packages"
abbrev mv_externally_managed_cmd : String
mv_externally_managed_cmd =
    "\n"
    <> "RUN python_version=$(python3 -c \"import sys; print(f'{sys.version_info.major}.{sys.version_info.minor}')\")                     && echo \"Python version is $python_version\"                     && externally_managed_file_path=\"/usr/lib/python${python_version}/EXTERNALLY-MANAGED\"                     && if [ -f \"$externally_managed_file_path\" ]; then mv \"$externally_managed_file_path\" \"$externally_managed_file_path.old\"; fi\n"

abbrev trusted_hosts : CreateArgs → List String
trusted_hosts a =
    if is_set a.proxy_server
    then "--trusted-host" ∷ "pypi.org" ∷ "--trusted-host" ∷ "pypi.python.org" ∷ "--trusted-host"
      ∷ "files.pythonhosted.org" ∷ []
    else []

unfoldable pub python_packages_cmd : CreateArgs → String
python_packages_cmd a =
    if is_empty a.python_packages
    then "# no python packages to install"
    else mv_externally_managed_cmd
      <> join " " (
          ("RUN" ∷ "pip3" ∷ "install" ∷ "-U" ∷ "-I" ∷ []) ++ (trusted_hosts a ++ a.python_packages))

-- The groups of the host that the container needs, with repetitions.
abbrev pub groups_to_sync : CreateArgs → List String
groups_to_sync a =
    a.use_groups
    ++ ((if a.enable_input then "input" ∷ [] else [])
        ++ (if a.enable_realtime then "realtime" ∷ [] else []))

unfoldable pub rtw_clone_cmd : CreateArgs → String
rtw_clone_cmd a = join " " (
    "RUN" ∷ "git" ∷ "clone" ∷ "-b" ∷ a.rtw_docker_branch ∷ a.rtw_docker_repo_url
    ∷ a.rtw_docker_clone_abs_path ∷ [])

unfoldable pub rtw_install_cmd : CreateArgs → String
rtw_install_cmd a = join " " (
    "RUN"
    ∷ "cd"
    ∷ (a.rtw_docker_clone_abs_path <> "/rtwcli")
    ∷ "&&"
    ∷ "pip3"
    ∷ "install"
    ∷ "-r"
    ∷ "requirements.txt"
    ∷ "&&"
    ∷ "cd"
    ∷ "-"
    ∷ [])

unfoldable pub update_key_cmds : CreateArgs → String
update_key_cmds a =
    if not a.update_key
    then ""
    else "\n" <> "RUN if [ -f /usr/share/keyrings/ros2-latest-archive-keyring.gpg ]; then \\\n"
      <> "      gpg_file=\"/usr/share/keyrings/ros2-latest-archive-keyring.gpg\"; \\\n"
      <> "    elif [ -f /usr/share/keyrings/ros-archive-keyring.gpg ]; then \\\n"
      <> "      gpg_file=\"/usr/share/keyrings/ros-archive-keyring.gpg\"; \\\n"
      <> "    elif [ -f /usr/share/keyrings/ros2-archive-keyring.gpg ]; then \\\n"
      <> "      gpg_file=\"/usr/share/keyrings/ros2-archive-keyring.gpg\"; \\\n" <> "    else \\\n"
      <> "      echo \"No ROS GPG keyring found!\" && exit 1; \\\n" <> "    fi && \\\n"
      <> "    echo \"Using GPG file: $gpg_file\" && \\\n" <> "    rm -f \"$gpg_file\" && \\\n"
      <> "    curl -sSL https://raw.githubusercontent.com/ros/rosdistro/master/ros.key -o \"$gpg_file\"\n"

unfoldable pub proxy_env_cmds : CreateArgs → String
proxy_env_cmds a =
    if not (is_set a.proxy_server)
    then ""
    else "\n" <> "ENV http_proxy=" <> a.proxy_server <> "\n" <> "ENV https_proxy=" <> a.proxy_server
      <> "\n" <> "ENV HTTP_PROXY=" <> a.proxy_server <> "\n" <> "ENV HTTPS_PROXY=" <> a.proxy_server
      <> "\n" <> "ENV PIP_PROXY=" <> a.proxy_server <> "\n" <> "ENV no_proxy=localhost,127.0.0.1\n"
      <> "ENV NO_PROXY=localhost,127.0.0.1\n"

unfoldable pub apt_proxy_cmd : CreateArgs → String
apt_proxy_cmd a =
    if not (is_set a.proxy_server)
    then ""
    else "\n" <> "RUN mkdir -p /etc/apt/apt.conf.d && \\\n" <> "    echo 'Acquire::http::Proxy \""
      <> a.proxy_server <> "\";' > /etc/apt/apt.conf.d/95proxies && \\\n"
      <> "    echo 'Acquire::https::Proxy \"" <> a.proxy_server
      <> "\";' >> /etc/apt/apt.conf.d/95proxies\n"

unfoldable pub proxy_ca_cert_cmd : CreateArgs → String
proxy_ca_cert_cmd a =
    let name = basename a.proxy_ca_cert in
    if not (is_set a.proxy_ca_cert)
    then ""
    else "\n" <> "COPY " <> name <> " /usr/local/share/ca-certificates/" <> name <> "\n"
      <> "RUN update-ca-certificates\n"
      <> "ENV REQUESTS_CA_BUNDLE=/etc/ssl/certs/ca-certificates.crt\n"

unfoldable pub pip_config_cmd : CreateArgs → String
pip_config_cmd a =
    if not (is_set a.proxy_server)
    then ""
    else "\n" <> "RUN mkdir -p /root/.config/pip && \\\n"
      <> "    echo \"[global]\" > /root/.config/pip/pip.conf && \\\n" <> "    echo \"proxy = "
      <> a.proxy_server <> "\" >> /root/.config/pip/pip.conf && \\\n"
      <> "    echo \"trusted-host = pypi.org\" >> /root/.config/pip/pip.conf && \\\n"
      <> "    echo \"               pypi.python.org\" >> /root/.config/pip/pip.conf && \\\n"
      <> "    echo \"               files.pythonhosted.org\" >> /root/.config/pip/pip.conf\n"

unfoldable pub git_config_cmd : CreateArgs → String
git_config_cmd a =
    let proxies =
      ("git config --global http.proxy " <> a.proxy_server)
      ∷ ("git config --global https.proxy " <> a.proxy_server)
      ∷ [] in
    let lines =
      "git config --global --add safe.directory \"*\""
      ∷ (if is_set a.proxy_server then proxies else []) in
    "RUN " <> join " && " lines

module _ (H : Host) where
  abbrev group_cmd : String → String → String
  group_cmd group gid =
      "RUN if getent group " <> group <> " > /dev/null 2>&1; then groupmod -g " <> gid <> " "
      <> group <> " || true; else groupadd -g " <> gid <> " " <> group <> "; fi"

  -- "SYNC HOST GROUPS TO CONTAINER"
  unfoldable pub group_sync_cmds : List String → Prog (List String)
  group_sync_cmds [] = pure []
  group_sync_cmds (group ∷ groups) = do
    gid ← try (Calls.group_id H group) (
        except_raise is_key_error
          ("Requested group '" <> group <> "' does not exist on the host system."))
    rest ← group_sync_cmds groups
    pure (group_cmd group gid ∷ rest)

  unfoldable pub copy_workspace_cmd : CreateArgs → String
  copy_workspace_cmd a =
      if a.standalone
      then join " " ("ADD" ∷ a.ws_name ∷ ws_abs_path_in_docker H a ∷ [])
      else "# workspace will be mounted as volume"

  unfoldable pub copy_upstream_workspace_cmd : CreateArgs → String
  copy_upstream_workspace_cmd a =
      if not a.standalone
      then "# upstream workspace will be mounted as volume"
      else if a.has_upstream_ws
      then join " " ("ADD" ∷ a.upstream_ws_name ∷ upstream_ws_abs_path_in_docker H a ∷ [])
      else "# no upstream workspace to copy"

  unfoldable pub dockerfile_lines : CreateArgs → List String → List String
  dockerfile_lines a group_cmds =
      ""
      ∷ ("FROM " <> a.base_image_name)
      ∷ proxy_env_cmds a
      ∷ apt_proxy_cmd a
      ∷ proxy_ca_cert_cmd a
      ∷ update_key_cmds a
      ∷ ("RUN apt-get update "
          <> (if a.docker_disable_upgrade then "" else "&& apt-get upgrade -y"))
      ∷ apt_packages_cmd a
      ∷ join "\n" group_cmds
      ∷ pip_config_cmd a
      ∷ git_config_cmd a
      ∷ python_packages_cmd a
      ∷ rtw_clone_cmd a
      ∷ rtw_install_cmd a
      ∷ copy_workspace_cmd a
      ∷ copy_upstream_workspace_cmd a
      ∷ "RUN rm -rf /var/lib/apt/lists/*"
      ∷ ""
      ∷ []

  unfoldable pub generate_intermediate_dockerfile_content : CreateArgs → Prog String
  generate_intermediate_dockerfile_content a = do
    cmds ← group_sync_cmds (H.set_order (groups_to_sync a))
    pure (join "\n" (dockerfile_lines a cmds))
