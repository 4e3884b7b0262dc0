-- ===== src/Plugins/Docs.antt =====
-- rtwcli/rtwcli/rtwcli/entry_points.py: the first line of a docstring.
use Prim.Native.Char.{Char}
use ros_team_workspace.Base.{
  String, Bool, false, ◌&&◌, Option, none, some, List, [], ◌∷◌, ◌==◌, is_set, ◌||◌, if◌then◌else◌,
}
use ros_team_workspace.Base.Text.{strip, strip_right}
use ros_team_workspace.Base.Result.{Result, ok, raised, exception, unbound_local_error}

abbrev character : Char → String
character c = String.◌∷◌ c ""

abbrev push : Char → List String → List String
push c [] = character c ∷ []
push c (line ∷ lines) = String.◌∷◌ c line ∷ lines

-- `text.splitlines()` for the line breaks `\n`, `\r` and `\r\n`. The flag: after a `\r`.
unfoldable pub lines_after : Bool → String → List String
lines_after after_return String.[] = []
lines_after after_return (String.◌∷◌ c s) =
    let rest = lines_after (character c == "\r") s in
    if character c == "\n" && after_return
    then rest
    else if character c == "\n" || character c == "\r"
    then "" ∷ rest
    else push c rest

unfoldable pub splitlines : String → List String
unfolding lines_after
splitlines text = lines_after false text

-- `line.strip().rstrip(".")`
abbrev pub tidy : String → String
tidy line = strip_right "." (strip line)

-- `line` has no value where the first line is empty and there is no second one.
unfoldable pub second_line : List String → Result String
second_line [] = raised (exception unbound_local_error "line")
second_line (line ∷ lines) = ok (tidy line)

unfoldable pub first_line : List String → Result String
unfolding second_line
first_line [] = ok ""
first_line (line ∷ lines) = if is_set line then ok (tidy line) else second_line lines

-- The argument is the `__doc__` of the type.
unfoldable pub get_first_line_doc : Option String → Result String
unfolding first_line splitlines
get_first_line_doc none = ok ""
get_first_line_doc (some doc) = if is_set doc then first_line (splitlines doc) else ok ""
