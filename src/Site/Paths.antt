-- ===== src/Site/Paths.antt =====
-- The functions of `os.path` that docs/conf.py uses, in a folder that is the current one.
use ros_team_workspace.Base.{
  String, ◌≡◌, refl, Bool, false, ◌||◌, List, [], ◌∷◌, ◌==◌, if◌then◌else◌, is_set,
}
use ros_team_workspace.Base.Text.{split, join, join_path, normpath}
use ros_team_workspace.Base.Result.{Result, ok, reject, value_error}

-- `os.path.abspath`
unfoldable pub abspath : String → String → String
unfolding normpath join_path
abspath cwd path = normpath (join_path cwd path)

-- `[part for part in parts if part]`
unfoldable pub only_set : List String → List String
only_set [] = []
only_set (part ∷ parts) = let rest = only_set parts in if is_set part then part ∷ rest else rest

abbrev climb : List String → List String → List String
climb [] path = path
climb (part ∷ start) path = ".." ∷ climb start path

-- The way from the components of the second path to those of the first.
unfoldable pub relative_parts : List String → List String → List String
relative_parts [] start = climb start []
relative_parts (p ∷ path) [] = p ∷ path
relative_parts (p ∷ path) (s ∷ start) =
    let rest = relative_parts path start in if p == s then rest else climb (s ∷ start) (p ∷ path)

abbrev dot_if_empty : List String → List String
dot_if_empty [] = "." ∷ []
dot_if_empty (part ∷ parts) = part ∷ parts

-- `os.path.relpath`
unfoldable pub relpath : String → String → String → Result String
unfolding abspath only_set relative_parts split join
relpath cwd path start = reject (path == "") value_error "no path specified" (
    ok (
      join "/" (
        dot_if_empty (
          relative_parts (only_set (split "/" (abspath cwd path)))
            (only_set (split "/" (abspath cwd start)))))))

abbrev but_last : List String → List String
but_last [] = []
but_last (part ∷ []) = []
but_last (part ∷ next ∷ parts) = part ∷ but_last (next ∷ parts)

abbrev some_set : List String → Bool
some_set [] = false
some_set (part ∷ parts) = is_set part || some_set parts

-- A file name without its extension. A dot at the start begins none.
abbrev stem_of : List String → String → String
stem_of before name = if some_set before then join "." before else name

abbrev change_last : (String → String) → List String → List String
change_last f [] = []
change_last f (part ∷ []) = f part ∷ []
change_last f (part ∷ next ∷ parts) = part ∷ change_last f (next ∷ parts)

-- `os.path.splitext(path)[0]`
unfoldable pub without_extension : String → String
unfolding split join
without_extension path =
    join "/" (change_last (λ name. stem_of (but_last (split "." name)) name) (split "/" path))

relative_file : relpath "/docs" "/docs/guides/create.rst" "/docs" ≡ ok "guides/create.rst"
unfolding relpath
relative_file = refl

relative_page : relpath "/docs" "guides/create" "old/create" ≡ ok "../../guides/create"
unfolding relpath
relative_page = refl

stem : without_extension "guides.d/.create.rst" ≡ "guides.d/.create"
unfolding without_extension
stem = refl

hidden_stem : without_extension "guides.d/.rst" ≡ "guides.d/.rst"
unfolding without_extension
hidden_stem = refl
