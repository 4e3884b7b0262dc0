-- ===== src/Create/Repos.antt =====
-- create_verb.py: `CreateVerbArgs.__post_init__`, with the import of repositories.
use ros_team_workspace.Base.{
  String, ◌<>◌, Bool, true, false, not, Option, none, some, is_empty, is_set, if◌then◌else◌,
}
use ros_team_workspace.Base.Result.{raised, system_exit, runtime_error}
use ros_team_workspace.Base.Text.{list_text}
use ros_team_workspace.Host.{Host}
use ros_team_workspace.Host.Prog.{Prog, pure, lift, throw, ◌>>=◌, ◌>>◌}
use ros_team_workspace.Host.Calls
use ros_team_workspace.Utils.{ask_yes_no, git_clone, vcs_import, replace_user_name_in_path}
use ros_team_workspace.Create.Args.{
  CreateArgs, or_new, set_default_values, ws_src_abs_path, upstream_ws_abs_path,
  upstream_ws_src_abs_path, repos_containing_repository_name, repos_clone_abs_path,
  ws_repos_file_abs_path, upstream_ws_repos_file_abs_path,
}

-- `if not answer:` for an answer that is `None` where the user cancels.
abbrev pub agreed : Option Bool → Bool
agreed none = false
agreed (some b) = b

module _ (H : Host) where
  unfoldable pub handle_non_empty_src_folder : String → String → Prog (Unit {0})
  handle_non_empty_src_folder ws_type ws_src_path = do
    still_create_ws ←
        ask_yes_no H
          (ws_type <> " src folder '" <> ws_src_path
            <> "' is not empty. Do you still want to proceed and create the workspace?")
          false
    if agreed still_create_ws
        then pure tt
        else lift (raised (system_exit "Not creating the workspace."))

  -- `vcs_import` with the arguments that the class leaves at their defaults.
  abbrev import_repos : CreateArgs → String → String → Prog Bool
  import_repos a file path = vcs_import H file path true true true (not a.repos_no_skip_existing)

  unfoldable pub handle_main_ws_repos : CreateArgs → Prog (Unit {0})
  handle_main_ws_repos a = do
    imported ← import_repos a (ws_repos_file_abs_path a) (ws_src_abs_path a)
    if imported
        then pure tt
        else throw runtime_error
            ("Failed to import ws repos from='" <> ws_repos_file_abs_path a <> "'")

  -- After the import: an upstream workspace that is still empty is removed if the user agrees.
  unfoldable pub keep_upstream : CreateArgs → Prog CreateArgs
  keep_upstream a = do
    imported ← Calls.list_dir H (upstream_ws_src_abs_path a)
    if not (is_empty imported) then pure a else do
      listed ← Calls.list_dir H (upstream_ws_src_abs_path a)
      remove_upstream_ws ←
          ask_yes_no H
            ("Upstream workspace src folder '"
              <> upstream_ws_src_abs_path a
              <> "' is empty after importing the repos. Do you want to remove the upstream workspace folder "
              <> upstream_ws_abs_path a
              <> " ("
              <> list_text listed
              <> ")and create only the main workspace?")
            false
      if not (agreed remove_upstream_ws) then pure a else do
        Calls.rmtree H (upstream_ws_abs_path a)
        pure (record a { has_upstream_ws = false })

  unfoldable pub handle_upstream_ws_repos : CreateArgs → Prog CreateArgs
  handle_upstream_ws_repos a = do
    Calls.make_dirs H (upstream_ws_src_abs_path a)
    present ← Calls.list_dir H (upstream_ws_src_abs_path a)
    (if is_empty present
        then pure tt
        else handle_non_empty_src_folder "Upstream workspace" (upstream_ws_src_abs_path a))
    imported ← import_repos a (upstream_ws_repos_file_abs_path a) (upstream_ws_src_abs_path a)
    if imported
        then keep_upstream (record a { has_upstream_ws = true })
        else throw runtime_error (
            "Failed to import upstream ws repos from='" <> upstream_ws_repos_file_abs_path a <> "'")

  -- The default names of the two files in the repository.
  abbrev pub name_files : CreateArgs → CreateArgs
  name_files a =
      let stem = repos_containing_repository_name a <> "." <> a.ros_distro in
      record a {
        ws_repos_file_name = or_new a.ws_repos_file_name (stem <> ".repos");
        upstream_ws_repos_file_name =
            or_new a.upstream_ws_repos_file_name (stem <> ".upstream.repos");
      }

  unfoldable pub import_all : CreateArgs → Prog CreateArgs
  import_all a = do
    cloned ← git_clone H a.repos_containing_repository_url a.repos_branch (repos_clone_abs_path a)
    if not cloned
        then throw runtime_error
            ("Failed to clone repo='" <> a.repos_containing_repository_url <> "'")
        else do
          main ← Calls.path_exists H (ws_repos_file_abs_path a)
          if main then handle_main_ws_repos a else pure tt
          upstream ← Calls.is_file H (upstream_ws_repos_file_abs_path a)
          if upstream then handle_upstream_ws_repos a else pure a

  unfoldable pub handle_repos : CreateArgs → Prog CreateArgs
  handle_repos a = import_all (name_files a)

  unfoldable pub rename_clone : CreateArgs → CreateArgs
  rename_clone a =
      if is_set a.user_override_name
      then record a {
        rtw_docker_clone_abs_path =
            replace_user_name_in_path H a.rtw_docker_clone_abs_path a.user_override_name;
      }
      else a

  -- What `__post_init__` does after the default values are set.
  unfoldable pub prepare : CreateArgs → Prog CreateArgs
  prepare a = do
    Calls.make_dirs H (ws_src_abs_path a)
    present ← Calls.list_dir H (ws_src_abs_path a)
    (if is_empty present
        then pure tt
        else handle_non_empty_src_folder "Main workspace" (ws_src_abs_path a))
    handled ← if is_set a.repos_containing_repository_url then handle_repos a else pure a
    pure (rename_clone handled)

  unfoldable pub create_post_init : CreateArgs → Prog CreateArgs
  create_post_init a = prepare (set_default_values a)
