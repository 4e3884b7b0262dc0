-- ===== src/Tests/Selection.antt =====
-- The selection of workspaces at concrete data.
use ros_team_workspace.Base.{◌≡◌, refl, none, [], ◌∷◌}
use ros_team_workspace.Base.Number.{number_text}
use ros_team_workspace.Base.Dict.{Dict, lookup, insert}
use ros_team_workspace.Base.Result.{ok, raised}
use ros_team_workspace.Workspace.{Workspace}
use ros_team_workspace.Host.{Host}
use ros_team_workspace.Host.Prog.{◌>>=◌}
use ros_team_workspace.Select.{
  get_selected_ws_names_from_user, widths_of, choice_data, row_of, spaces, chosen_names,
  ask_selection, after_dialog, after_confirm, numbered,
}
use ros_team_workspace.Select.Folderless.{
  Folderless, this_one, a_later, format_error, Folderless-fails,
}
use ros_team_workspace.Tests.Machine.{smooth}
use ros_team_workspace.Tests.Configuration.{sample, other}

abbrev machine : Host
machine = smooth none

abbrev two : Dict Workspace
two = ("ws", sample) ∷ ("other", other) ∷ []

numbers : numbered 9 ("a" ∷ "b" ∷ []) ≡ "9. a" ∷ "10. b" ∷ []
unfolding numbered number_text
numbers = refl

both_selected :
    (get_selected_ws_names_from_user machine two "Select" "Sure?" []).0 ≡ ok ("ws" ∷ "other" ∷ [])
unfolding get_selected_ws_names_from_user widths_of choice_data row_of spaces chosen_names
    ask_selection after_dialog after_confirm lookup insert ◌>>=◌
both_selected = refl

abbrev bare : Dict Workspace
bare = ("other", other) ∷ ("ws", record sample { ws_folder = none }) ∷ []

bare-Folderless : Folderless bare
bare-Folderless = a_later (this_one refl)

Folderless-fails_example :
    get_selected_ws_names_from_user machine bare "Select" "Sure?" [] ≡ (raised format_error, [])
Folderless-fails_example = Folderless-fails machine bare "Select" "Sure?" [] bare-Folderless
