-- ===== src/Port/Functions.antt =====
-- rtwcli/rtw_cmds/rtw_cmds/workspace/port_verb.py: the two regular expressions, as scans of the text.
-- A word is made of ASCII letters, digits and underscores.
use Prim.Native.Nat.{◌-◌}
use Prim.Native.Char.{Char}
use Prim.Native.String.{count}
use ros_team_workspace.Base.{
  ℕ, zero, suc, ◌+◌, String, ◌<>◌, Bool, Option, none, some, List, [], ◌∷◌, ◌==◌, starts_with,
  if◌then◌else◌,
}
use ros_team_workspace.Base.Dict.{Dict, insert}
use ros_team_workspace.Base.Text.{has_text, strip_of}

abbrev one : Char → String
one c = String.◌∷◌ c ""

-- `\w`
abbrev is_word : String → Bool
is_word c = has_text c "abcdefghijklmnopqrstuvwxyzABCDEFGHIJKLMNOPQRSTUVWXYZ0123456789_"

-- The longest word at the start of a text.
unfoldable pub word_of : String → String
word_of String.[] = ""
word_of (String.◌∷◌ c s) = let rest = word_of s in if is_word (one c) then String.◌∷◌ c rest else ""

unfoldable pub drop_count : ℕ → String → String
drop_count zero s = s
drop_count (suc n) String.[] = ""
drop_count (suc n) (String.◌∷◌ c s) = drop_count n s

-- What is left of a text after as many characters as another one has.
abbrev pub drop_chars : String → String → String
drop_chars prefix text = drop_count (count prefix) text

abbrev cons_some : String → Option String → Option String
cons_some c none = none
cons_some c (some s) = some (c <> s)

-- The text before the first `stop`, if there is one and none of the `barriers` is before it.
unfoldable pub text_until : String → String → String → Option String
text_until stop barriers String.[] = none
text_until stop barriers (String.◌∷◌ c s) =
    let rest = text_until stop barriers s in
    if one c == stop
    then some ""
    else if has_text (one c) barriers
    then none
    else cons_some (one c) rest

-- `[^ ]+`: what stands before the first space.
unfoldable pub until_space : String → String
until_space String.[] = ""
until_space (String.◌∷◌ c s) =
    let rest = until_space s in if one c == " " then "" else String.◌∷◌ c rest

-- `[^}]+\}` at the start of a text: what stands before the brace.
abbrev body_of : String → Option String
body_of text = elim (text_until "}" "" text) [
  | none ↦ none
  | some body ↦ if body == "" then none else some body
]

abbrev with_word : String → Option String → Option (String × String)
with_word w none = none
with_word w (some b) = some (w, b)

-- `(\w+ \(\) \{[^}]+\})` at the start of a text: the name and the body of the function.
unfoldable pub match_function : String → Option (String × String)
unfolding word_of drop_count text_until
match_function text =
    let w = word_of text in
    let rest = drop_chars w text in
    if w == ""
    then none
    else if starts_with rest " () {"
    then with_word w (body_of (drop_count 5 rest))
    else none

abbrev pub function_text : String → String → String
function_text name body = name <> " () {" <> body <> "}"

-- The quoted text with its quotes, where it ends on its line.
abbrev quoted : String → String → Option String
quoted quote text =
    if starts_with text quote
    then (elim (text_until quote "\n" (drop_count 1 text)) [
      | none ↦ none
      | some inside ↦ some (quote <> inside <> quote)
    ])
    else none

abbrev unquoted : String → Option String
unquoted text = if until_space text == "" then none else some (until_space text)

abbrev first_of : Option String → Option String → Option String
first_of none o = o
first_of (some s) o = some s

-- `(\w+)=(".*?"|'.*?'|[^ ]+)` at the start of a text. The `export ` before it changes no group.
unfoldable pub match_variable : String → Option (String × String)
unfolding word_of drop_count text_until until_space
match_variable text =
    let w = word_of text in
    let rest = drop_chars w text in
    let value = drop_count 1 rest in
    if w == ""
    then none
    else if starts_with rest "="
    then with_word w (first_of (quoted "\"" value) (first_of (quoted "'" value) (unquoted value)))
    else none

-- `re.findall`: the matches from left to right, each after the end of the one before. The number says
-- how many characters still belong to the last match.
unfoldable pub find_all :
    (String → Option (String × String))
    → (String × String → ℕ)
    → ℕ
    → String
    → List (String × String)
find_all match size n String.[] = []
find_all match size (suc n) (String.◌∷◌ c s) = find_all match size n s
find_all match size zero (String.◌∷◌ c s) = elim (match (String.◌∷◌ c s)) [
  | none ↦ find_all match size zero s
  | some m ↦ m ∷ find_all match size (size m - 1) s
]

abbrev function_size : String × String → ℕ
function_size (name, body) = count (function_text name body)

abbrev variable_size : String × String → ℕ
variable_size (name, value) = count name + 1 + count value

unfoldable pub find_functions : String → List (String × String)
unfolding match_function find_all
find_functions script = find_all match_function function_size zero script

abbrev strip_values : List (String × String) → Dict String → Dict String
strip_values [] variables = variables
strip_values ((name, value) ∷ rest) variables =
    strip_values rest (insert name (strip_of "\"" value) variables)

unfoldable pub variables_and_values : String → Dict String
unfolding match_variable find_all
variables_and_values function =
    strip_values (find_all match_variable variable_size zero function) []
