-- ===== src/Utils.antt =====
-- rtwcli/rtwcli/rtwcli/utils.py: files, YAML, commands.
pub mod Commands
pub mod Answers
use ros_team_workspace.Base.{
  ℕ, zero, String, ◌<>◌, Bool, true, false, not, ◌&&◌, ◌||◌, Option, none, some,
}
use ros_team_workspace.Base.{List, [], ◌∷◌, ◌++◌, ◌==◌, if◌then◌else◌}
use ros_team_workspace.Base.{suc, starts_with}
use ros_team_workspace.Base.Result.{Error, exception, keyboard_interrupt, eof_error, runtime_error}
use ros_team_workspace.Base.Text.{replace, lower, strip, strip_of, after_first, split}
use ros_team_workspace.Config.{Document, or_default as or_else}
use ros_team_workspace.Host.{Host, ReturnCode, exited, killed}
use ros_team_workspace.Host.Prog.{
  Prog, pure, try, throw, on_option, except_return, is_os_error, is_yaml_error, is_exception, ◌>>=◌,
  ◌>>◌,
}
use ros_team_workspace.Host.Calls
use Prim.Native.Nat.{compare, Ordering}

-- The text up to and with its last slash.
abbrev pub dir_part : String → String
dir_part String.[] = ""
dir_part (String.◌∷◌ c s) =
    let rest = dir_part s in
    if rest == "" then (if String.◌∷◌ c "" == "/" then "/" else "") else String.◌∷◌ c rest

-- `s.rstrip("/")`
abbrev pub strip_slashes : String → String
strip_slashes String.[] = ""
strip_slashes (String.◌∷◌ c s) =
    let rest = strip_slashes s in
    if rest == "" && String.◌∷◌ c "" == "/" then "" else String.◌∷◌ c rest

-- `os.path.dirname`
unfoldable pub dirname : String → String
dirname path =
    let head = dir_part path in
    let stripped = strip_slashes head in if stripped == "" then head else stripped

abbrev pub eq_nat : ℕ → ℕ → Bool
eq_nat a b = elim (compare a b) [ Ordering.eq ↦ true | _ ↦ false ]

abbrev pub eq_code : ReturnCode → ReturnCode → Bool
eq_code (exited a) (exited b) = eq_nat a b
eq_code (killed a) (killed b) = eq_nat a b
eq_code _ _ = false

abbrev pub has_code : List ReturnCode → ReturnCode → Bool
has_code [] c = false
has_code (d ∷ ds) c = eq_code d c || has_code ds c

-- Whether a return code counts as success.
abbrev pub exit_status : List ReturnCode → ReturnCode → Bool
exit_status ignore_codes (exited zero) = true
exit_status ignore_codes code = has_code ignore_codes code

module _ (H : Host) where
  unfoldable pub create_file_if_not_exists : String → Prog Bool
  create_file_if_not_exists path = do
    there ← Calls.is_file H path
    if there
        then pure true
        else try
            (do
              let directory = dirname path
              present ← Calls.path_exists H directory
              if present then pure tt else Calls.make_dirs H directory
              Calls.open_new H path
              pure true)
            (except_return is_os_error false)

  -- `None` where the file cannot be read or parsed.
  unfoldable pub load_yaml_file : String → Prog Document
  load_yaml_file path = try (Calls.read_yaml H path) (except_return is_yaml_error none)

  unfoldable pub write_to_yaml_file : String → Document → Prog Bool
  write_to_yaml_file path yaml_data =
      try (do Calls.write_yaml H path yaml_data; pure true) (except_return is_yaml_error false)

  unfoldable pub create_file_and_write : String → String → Prog Bool
  unfolding create_file_if_not_exists
  create_file_and_write path content = do
    created ← create_file_if_not_exists path
    if not created
        then pure false
        else try (do Calls.write_text H path content; pure true) (except_return is_os_error false)

  -- `subprocess.run(command, check=True)`; `shell=True` where the command is one text.
  unfoldable pub run_command : List String → Option String → List ReturnCode → Prog Bool
  run_command command cwd ignore_codes =
      try (do code ← Calls.run_process H command cwd; pure (exit_status ignore_codes code))
        (except_return is_exception false)

  unfoldable pub run_shell_command : String → Prog Bool
  run_shell_command command =
      try (do code ← Calls.run_shell H command; pure (exit_status [] code))
        (except_return is_exception false)

  unfoldable pub run_bash_command : String → Prog Bool
  unfolding run_command
  run_bash_command command = run_command ("bash" ∷ "-c" ∷ command ∷ []) none []

  unfoldable pub vcs_import : String → String → Bool → Bool → Bool → Bool → Prog Bool
  unfolding run_command
  vcs_import repos_file_path path non_existing_ok empty_ok makedirs skip_existing = do
    there ← Calls.is_file H repos_file_path
    if not there then pure non_existing_ok else do
      size ← Calls.file_size H repos_file_path
      if eq_nat size zero then pure empty_ok else do
        if makedirs then Calls.make_dirs H path else pure tt
        let base =
            "vcs" ∷ "import" ∷ "--recursive" ∷ "--input" ∷ repos_file_path ∷ "--workers" ∷ "1" ∷ []
        run_command (if skip_existing then base ++ ("--skip-existing" ∷ []) else base) (some path)
            []

  -- `path.replace(f"/home/{current_user}", f"/home/{new_user}")`
  unfoldable pub replace_user_name_in_path : String → String → String
  replace_user_name_in_path path new_user = replace path ("/home/" <> H.user) ("/home/" <> new_user)

  unfoldable pub create_temp_file : String → Prog String
  create_temp_file content = Calls.temp_file H content

  -- The answer that a typed line gives, and `none` where the question is asked again.
  abbrev pub read_answer : Bool → String → Option Bool
  read_answer default response =
      if response == ""
      then some default
      else if response == "yes" || response == "y"
      then some true
      else if response == "no" || response == "n"
      then some false
      else none

  -- `except (KeyboardInterrupt, EOFError): return None`
  abbrev pub cancelled : Error → Bool
  cancelled keyboard_interrupt = true
  cancelled (exception eof_error m) = true
  cancelled e = false

  -- The number is how often the function can still call itself before Python's limit.
  unfoldable pub ask_yes_no_within : ℕ → String → Bool → Prog (Option Bool)
  ask_yes_no_within zero prompt default = throw runtime_error "maximum recursion depth exceeded"
  ask_yes_no_within (suc depth) prompt default =
      try
        (do
          line ←
              Calls.ask_line H
                (prompt <> (if default then " (yes/no) [yes]: " else " (yes/no) [no]: "))
          on_option (read_answer default (lower (strip line)))
              (ask_yes_no_within depth prompt default) λ answer. pure (some answer))
        (except_return cancelled none)

  unfoldable pub ask_yes_no : String → Bool → Prog (Option Bool)
  unfolding ask_yes_no_within
  ask_yes_no prompt default = ask_yes_no_within H.depth_left prompt default

  -- The value of a line `ID=…` of /etc/os-release, and `none` for another line.
  abbrev pub os_id_of : String → Option String
  os_id_of line =
      if starts_with line "ID="
      then some (lower (strip_of "\"" (after_first "=" (strip line))))
      else none

  unfoldable pub find_os_id : List String → String
  find_os_id [] = ""
  find_os_id (line ∷ rest) = let found = find_os_id rest in or_else (os_id_of line) found

  -- What the command says, without the white space around it.
  abbrev pub get_display_manager : Prog String
  get_display_manager = do stdout ← Calls.display_manager H; pure (strip stdout)

  unfoldable pub get_os_id : Prog String
  unfolding find_os_id
  get_os_id =
      try (do text ← Calls.read_text H "/etc/os-release"; pure (find_os_id (split "\n" text)))
        (except_return is_os_error "")

  unfoldable pub git_clone : String → String → String → Prog Bool
  unfolding run_command
  git_clone url branch path =
      run_command ("git" ∷ "clone" ∷ url ∷ "--branch" ∷ branch ∷ path ∷ []) none []
