-- ===== src/Base/Text.antt =====
-- Python's methods of `str` and the functions of `os.path`, as the code uses them.
use Prim.Native.Nat.{ℕ, zero, suc}
use Prim.Native.Char.{Char}
use Prim.Native.String.{String, ◌++◌ as ◌<>◌, count, slice}
use mathlib.Core.Path.{◌≡◌, refl}
use mathlib.Core.Bool.{Bool, true, false, not, ◌&&◌, ◌||◌}
use mathlib.Core.Option.{none, some}
use mathlib.Core.List.{List, [], ◌∷◌}
use text.Mathlib.Text.{◌==◌, starts_with, find?}
use ros_team_workspace.Base.{if◌then◌else◌, is_some}

abbrev one : Char → String
one c = String.◌∷◌ c ""

-- `needle in text`
abbrev pub has_text : String → String → Bool
has_text needle text = is_some (find? text needle)

-- `separator.join(xs)`
unfoldable pub join : String → List String → String
join separator [] = ""
join separator (x ∷ []) = x
join separator (x ∷ y ∷ r) = x <> separator <> join separator (y ∷ r)

abbrev push : String → List String → List String
push c [] = c ∷ []
push c (x ∷ xs) = (c <> x) ∷ xs

-- `text.split(separator)` for a separator of one character: never an empty list.
unfoldable pub split : String → String → List String
split separator String.[] = "" ∷ []
split separator (String.◌∷◌ c s) =
    let rest = split separator s in if one c == separator then "" ∷ rest else push (one c) rest

-- `text.split(separator)[0]` and `text.split(separator)[-1]`
abbrev first_part : List String → String
first_part [] = ""
first_part (x ∷ xs) = x

abbrev last_part : List String → String
last_part [] = ""
last_part (x ∷ []) = x
last_part (x ∷ y ∷ r) = last_part (y ∷ r)

abbrev pub before : String → String → String
before separator text = first_part (split separator text)

abbrev pub after_last : String → String → String
after_last separator text = last_part (split separator text)

-- `text.split(separator, 1)[1]`: what stands after the first separator.
unfoldable pub after_first : String → String → String
after_first separator String.[] = ""
after_first separator (String.◌∷◌ c s) =
    let rest = after_first separator s in if one c == separator then s else rest

-- `text.lstrip(characters)`
unfoldable pub strip_left : String → String → String
strip_left characters String.[] = ""
strip_left characters (String.◌∷◌ c s) =
    let rest = strip_left characters s in
    if has_text (one c) characters then rest else String.◌∷◌ c s

-- `text.rstrip(characters)`
unfoldable pub strip_right : String → String → String
strip_right characters String.[] = ""
strip_right characters (String.◌∷◌ c s) =
    let rest = strip_right characters s in
    if rest == "" && has_text (one c) characters then "" else String.◌∷◌ c rest

abbrev pub strip_of : String → String → String
strip_of characters text = strip_left characters (strip_right characters text)

-- `text.strip()`, for ASCII white space.
abbrev pub strip : String → String
strip text = strip_of " \n\t\r" text

abbrev upper_letters : String
upper_letters = "ABCDEFGHIJKLMNOPQRSTUVWXYZ"

abbrev lower_letters : String
lower_letters = "abcdefghijklmnopqrstuvwxyz"

abbrev change_case : String → String → String → String
change_case from to c = elim (find? from c) [ none ↦ c | some i ↦ slice to i (suc i) ]

-- `text.lower()` and `text.upper()`, for ASCII letters.
unfoldable pub lower : String → String
lower String.[] = ""
lower (String.◌∷◌ c s) = change_case upper_letters lower_letters (one c) <> lower s

unfoldable pub upper : String → String
upper String.[] = ""
upper (String.◌∷◌ c s) = change_case lower_letters upper_letters (one c) <> upper s

abbrev pred : ℕ → ℕ
pred zero = zero
pred (suc n) = n

-- The scan of `replace`: as many characters as the number says are still part of the last match.
unfoldable pub replace_from : ℕ → String → String → String → String
replace_from n old new String.[] = ""
replace_from (suc n) old new (String.◌∷◌ c s) = replace_from n old new s
replace_from zero old new (String.◌∷◌ c s) = elim (starts_with (String.◌∷◌ c s) old) [
  | true ↦ new <> replace_from (pred (count old)) old new s
  | false ↦ String.◌∷◌ c (replace_from zero old new s)
]

-- `text.replace(old, new)` for a text `old` that is not empty.
abbrev pub replace : String → String → String → String
replace text old new = replace_from zero old new text

abbrev pub ends_with_slash : String → Bool
ends_with_slash String.[] = false
ends_with_slash (String.◌∷◌ c String.[]) = one c == "/"
ends_with_slash (String.◌∷◌ c s) = ends_with_slash s

-- `os.path.join` of two parts.
unfoldable pub join_path : String → String → String
join_path a b =
    if starts_with b "/" then b else if a == "" || ends_with_slash a then a <> b else a <> "/" <> b

-- One component in the loop of `os.path.normpath`, with the components kept so far, the last one first.
abbrev step_path : Bool → String → List String → List String
step_path rooted part kept =
    if part == "" || part == "."
    then kept
    else if part == ".."
    then (elim kept [
      | [] ↦ if rooted then [] else ".." ∷ []
      | last ∷ rest ↦ if last == ".." then ".." ∷ last ∷ rest else rest
    ])
    else part ∷ kept

unfoldable pub norm_parts : Bool → List String → List String → List String
norm_parts rooted [] kept = kept
norm_parts rooted (part ∷ parts) kept = norm_parts rooted parts (step_path rooted part kept)

abbrev reversed : List String → List String → List String
reversed [] acc = acc
reversed (x ∷ xs) acc = reversed xs (x ∷ acc)

-- Two slashes at the start of a path stay, three or more are one.
abbrev root_of : String → String
root_of path =
    if starts_with path "///"
    then "/"
    else if starts_with path "//"
    then "//"
    else if starts_with path "/"
    then "/"
    else ""

-- `os.path.normpath`
unfoldable pub normpath : String → String
unfolding norm_parts join split
normpath path =
    let root = root_of path in
    let parts = reversed (norm_parts (not (root == "")) (split "/" path) []) [] in
    let text = root <> join "/" parts in if text == "" then "." else text

-- `os.path.basename`
abbrev pub basename : String → String
basename path = after_last "/" path

-- `str` of a list of texts that need no escapes.
abbrev pub list_text : List String → String
list_text xs = "[" <> items xs <> "]"
  where
    items : List String → String
    items [] = ""
    items (x ∷ []) = "'" <> x <> "'"
    items (x ∷ y ∷ r) = "'" <> x <> "', " <> items (y ∷ r)

normal_path : normpath "/home/user//ws/./../ws_upstream/" ≡ "/home/user/ws_upstream"
unfolding normpath
normal_path = refl

replaced : replace "/home/user/home/user" "/home/user" "/home/x" ≡ "/home/x/home/x"
unfolding replace_from
replaced = refl

words : lower (strip "  YES\n") ≡ "yes"
unfolding lower strip_left strip_right
words = refl
