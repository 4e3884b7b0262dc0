-- ===== src/Tests/Versions.antt =====
-- A version class on the numbers of a text, and the caret range `^0.1` of the extensions.
use ros_team_workspace.Base.{ℕ, String, ◌<>◌, ◌≡◌, refl, not}
use ros_team_workspace.Base.Number.{number_text, int_of, int_of-number_text, number_text-Without}
use ros_team_workspace.Base.Split.{split-append}
use ros_team_workspace.Base.Text.{split}
use ros_team_workspace.Base.Result.{ok, ◌>>=◌}
use ros_team_workspace.Plugins.Version.{
  VersionClass, major_minor, version_text, satisfies_version, plugin_system_version,
}
use ros_team_workspace.Plugins.Version.Caret.{
  release_text, precedes, Releases, Compatible, Accepts, major_minor-release,
  satisfies_version-Compatible,
}

abbrev Numbered : Type 0
Numbered = (ℕ × ℕ) × String

abbrev numbered_version : VersionClass Numbered
numbered_version = record {
  parse = λ s. major_minor (split "." s) >>= λ numbers. ok (numbers, s);
  base_version = λ v. v.1;
  is_less = λ v w. precedes v.0.0 v.0.1 w.0.0 w.0.1;
  is_at_least = λ v w. not (precedes v.0.0 v.0.1 w.0.0 w.0.1);
  text = λ v. v.1;
}

numbers_of : (a b : ℕ) → major_minor (split "." (version_text (a, b))) ≡ ok (a, b)
unfolding major_minor split
numbers_of a b =
    rw
      (
        split-append (number_text a) (number_text b <> ".0") (number_text-Without a),
        split-append (number_text b) "0" (number_text-Without b),
        int_of-number_text a,
        int_of-number_text b,
      )
      refl

abbrev numbered_releases : Releases numbered_version
numbered_releases = record {
  release = λ a b. ((a, b), release_text a b);
  release_zero = λ a b. ((a, b), version_text (a, b));
  parse_two = λ a b. rw (major_minor-release a b) refl;
  parse_three = λ a b. rw (numbers_of a b) refl;
  base = λ a b. refl;
  less = λ a b c d. refl;
  at_least = λ a b c d. refl;
}

satisfies_version-Compatible_example :
    Accepts
      (Compatible 0 1 0 1)
      (satisfies_version numbered_version (release_text 0 1) ("^" <> release_text 0 1))
satisfies_version-Compatible_example =
    satisfies_version-Compatible numbered_version numbered_releases 0 1 0 1

accepted : satisfies_version numbered_version plugin_system_version "^0.1" ≡ ok tt
unfolding satisfies_version major_minor split int_of number_text
accepted = refl
