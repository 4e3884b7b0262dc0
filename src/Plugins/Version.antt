-- ===== src/Plugins/Version.antt =====
-- rtwcli/rtwcli/rtwcli/plugin_system.py: the check of an extension against the version of the plugin
-- system. `packaging.version.Version` is a parameter: its parsing, its `base_version` and its order.
pub mod Caret
use ros_team_workspace.Base.{
  ℕ, ◌+◌, String, ◌<>◌, Bool, Option, none, some, List, [], ◌∷◌, starts_with, if◌then◌else◌, ltb,
}
use ros_team_workspace.Base.Number.{number_text, int_of}
use ros_team_workspace.Base.Text.{split}
use ros_team_workspace.Base.Result.{
  Result, ok, raised, exception, plugin_error, value_error, assertion_error, ◌>>=◌, reject,
}
use Prim.Native.String

-- The class `Version` of the package `packaging`.
pub record VersionClass (V : Type 0) : Type 0 where
  pub parse : String → Result V
  pub base_version : V → String
  -- `a < b` and `a >= b`
  pub is_less : V → V → Bool
  pub is_at_least : V → V → Bool
  pub text : V → String

-- `int(p)`; the texts are parts of a `base_version`.
abbrev pub int : Option ℕ → Result ℕ
int none = raised (exception value_error "invalid literal for int() with base 10")
int (some n) = ok n

-- `major, minor`: the first two parts, 0 where there is no second one. A text is never split into no part.
unfoldable pub major_minor : List String → Result (ℕ × ℕ)
major_minor [] = ok (0, 0)
major_minor (major ∷ []) = int (int_of major) >>= λ a. ok (a, 0)
major_minor (major ∷ minor ∷ rest) =
    int (int_of major) >>= λ a. int (int_of minor) >>= λ b. ok (a, b)

-- `if major > 0: … else: …`
abbrev pub next_version : ℕ × ℕ → ℕ × ℕ
next_version (major, minor) = if ltb 0 major then (major + 1, 0) else (major, minor + 1)

-- `"%d.%d.0"`
abbrev pub version_text : ℕ × ℕ → String
version_text (major, minor) = number_text major <> "." <> number_text minor <> ".0"

abbrev pub plugin_system_version : String
plugin_system_version = "0.1"

-- `caret_range[1:]`
abbrev pub after_caret : String → String
after_caret String.[] = ""
after_caret (String.◌∷◌ c s) = s

module _ {V : Type 0} (version : VersionClass V) where
  unfoldable pub get_upper_bound_caret_version : V → Result V
  unfolding major_minor split
  get_upper_bound_caret_version v = major_minor (split "." (version.base_version v)) >>= λ parts.
      version.parse (version_text (next_version parts))

  abbrev pub too_old : V → V → String
  too_old point wanted =
      "Extension point is too old ("
      <> version.text point
      <> "), the extension requires '"
      <> version.text wanted
      <> "'"

  abbrev pub too_new : V → V → String
  too_new point wanted =
      "Extension point is newer ("
      <> version.text point
      <> "), than what the extension supports '"
      <> version.text wanted
      <> "'"

  -- The two tests at the end of `satisfies_version`.
  unfoldable pub check_version : V → V → V → Result (Unit {0})
  check_version point wanted next =
      reject (version.is_less point wanted) plugin_error (too_old point wanted)
        (reject (version.is_at_least point next) plugin_error (too_new point wanted) (ok tt))

  unfoldable pub satisfies_version : String → String → Result (Unit {0})
  unfolding get_upper_bound_caret_version check_version
  satisfies_version text caret_range =
      if starts_with caret_range "^"
      then (version.parse text >>= λ point. version.parse (after_caret caret_range) >>= λ wanted.
          get_upper_bound_caret_version wanted >>= λ next. check_version point wanted next)
      else raised (exception assertion_error "Only supports caret ranges")
