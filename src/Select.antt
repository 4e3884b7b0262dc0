-- ===== src/Select.antt =====
-- rtwcli/rtwcli/rtwcli/workspace_utils.py: the dialog in which the user selects workspaces.
pub mod Selected
pub mod Folderless
use Prim.Native.Nat.{◌-◌, compare, Ordering}
use Prim.Native.String.{count}
use ros_team_workspace.Base.Text.{join}
use ros_team_workspace.Base.Number.{number_text}
use ros_team_workspace.Base.{
  ℕ, zero, suc, ◌+◌, String, ◌<>◌, Bool, true, false, not, Option, none, some, List, [], ◌∷◌,
  is_empty, ◌==◌, if◌then◌else◌,
}
use ros_team_workspace.Base.Dict.{Dict, keys, lookup, insert}
use ros_team_workspace.Base.Result.{
  Result, ok, raised, exception, type_error, value_error, key_error, system_exit, ◌>>=◌ as ◌>>?◌,
}
use ros_team_workspace.Workspace.{Workspace}
use ros_team_workspace.Host.{Host}
use ros_team_workspace.Host.Prog.{Prog, pure, lift, on_option, ◌>>=◌}
use ros_team_workspace.Host.Calls

abbrev pub max : ℕ → ℕ → ℕ
max a b = elim (compare a b) [ Ordering.lt ↦ b | _ ↦ a ]

-- `max(len(text) for text in texts)`
unfoldable pub max_width : List String → Result ℕ
max_width [] = raised (exception value_error "max() arg is an empty sequence")
max_width (x ∷ []) = ok (count x)
max_width (x ∷ y ∷ r) = max_width (y ∷ r) >>? λ n. ok (max (count x) n)

unfoldable pub spaces : ℕ → String
spaces zero = ""
spaces (suc n) = " " <> spaces n

-- `{text:<width}`
abbrev pub pad : ℕ → String → String
pad width text = text <> spaces (width - count text)

abbrev pub none_text : Option String → String
none_text none = "None"
none_text (some s) = s

abbrev pub ws_texts : (Workspace → String) → Dict Workspace → List String
ws_texts f [] = []
ws_texts f ((name, ws) ∷ rest) = f ws ∷ ws_texts f rest

-- The widths of the columns, with two spaces after each.
pub record Widths : Type 0 where
  pub ws_name_width : ℕ
  pub distro_width : ℕ
  pub ws_folder_width : ℕ

unfoldable pub widths_of : Dict Workspace → Result Widths
unfolding max_width
widths_of workspaces = max_width (keys workspaces) >>? λ n.
    max_width (ws_texts (λ ws. ws.distro) workspaces) >>? λ d.
    max_width (ws_texts (λ ws. none_text ws.ws_folder) workspaces) >>? λ f.
    ok (record { ws_name_width = n + 2; distro_width = d + 2; ws_folder_width = f + 2 })

-- One line of the dialog. Python formats a text with a width, but not `None`.
unfoldable pub row_of : Widths → String → Workspace → Option String → Result String
row_of w ws_name ws none =
    raised (exception type_error "unsupported format string passed to NoneType.__format__")
row_of w ws_name ws (some folder) = ok (
    pad w.ws_name_width ws_name
    <> " "
    <> pad w.distro_width ws.distro
    <> " "
    <> pad w.ws_folder_width folder
    <> " "
    <> none_text ws.docker_tag)

abbrev pub choice_row : Widths → String → Workspace → Result String
choice_row w ws_name ws = row_of w ws_name ws ws.ws_folder

-- The name behind each line.
unfoldable pub choice_data : Widths → Dict Workspace → Dict String → Result (Dict String)
unfolding row_of
choice_data w [] acc = ok acc
choice_data w ((ws_name, ws) ∷ rest) acc =
    choice_row w ws_name ws >>? λ row. choice_data w rest (insert row ws_name acc)

abbrev pub first_name : String → Option String → Result (List String) → Result (List String)
first_name choice none names = raised (exception key_error choice)
first_name choice (some name) names = names >>? λ rest. ok (name ∷ rest)

-- `[choice_data[choice] for choice in choices]`
unfoldable pub chosen_names : Dict String → List String → Result (List String)
chosen_names choices [] = ok []
chosen_names choices (choice ∷ rest) =
    first_name choice (lookup choice choices) (chosen_names choices rest)

-- `f"{i}. {choice}"` for the choices from a number on.
unfoldable pub numbered : ℕ → List String → List String
numbered i [] = []
numbered i (choice ∷ rest) = (number_text i <> ". " <> choice) ∷ numbered (suc i) rest

abbrev choice_format_template : String
choice_format_template = "[<ws_name> <distro> <ws_folder> <docker_tag>]"

module _ (H : Host) where
  -- A cancelled question ends the program.
  unfoldable pub after_confirm : Dict String → List String → Option Bool → Prog (List String)
  after_confirm choices chosen none = lift (raised (system_exit "0"))
  after_confirm choices chosen (some false) = lift (raised (system_exit "0"))
  after_confirm choices chosen (some true) = lift (chosen_names choices chosen)

  unfoldable pub after_dialog : Dict String → String → Option (List String) → Prog (List String)
  after_dialog choices confirm_question_msg none = lift (raised (system_exit "0"))
  after_dialog choices confirm_question_msg (some []) = lift (raised (system_exit "0"))
  after_dialog choices confirm_question_msg (some (c ∷ cs)) = do
    confirmed ← Calls.ask_confirm H (
        confirm_question_msg
        <> " "
        <> choice_format_template
        <> "\n"
        <> join "\n" (numbered 1 (c ∷ cs))
        <> "\n")
    after_confirm choices (c ∷ cs) confirmed

  unfoldable pub ask_selection : Dict String → String → String → Prog (List String)
  ask_selection choices select_question_msg confirm_question_msg = do
    answer ←
        Calls.ask_checkbox H (select_question_msg <> " " <> choice_format_template <> "\n")
          (keys choices)
    after_dialog choices confirm_question_msg answer

  unfoldable pub get_selected_ws_names_from_user :
      Dict Workspace → String → String → Prog (List String)
  get_selected_ws_names_from_user workspaces select_question_msg confirm_question_msg = do
    w ← lift (widths_of workspaces)
    choices ← lift (choice_data w workspaces [])
    ask_selection choices select_question_msg confirm_question_msg
