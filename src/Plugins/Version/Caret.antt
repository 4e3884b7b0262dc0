-- ===== src/Plugins/Version/Caret.antt =====
-- What a caret range accepts.

use text.Mathlib.TextLemmas.{nil-append, cons-append}
use text.Mathlib.TextPositions.{starts_with-append}
use ros_team_workspace.Base.{
  ℕ, zero, suc, ◌≤◌, ◌<◌, String, ◌<>◌, ◌≡◌, refl, Bool, true, false, not, ◌&&◌, ◌||◌, arith, ltb,
  ◌⊎◌, inl, inr,
}
use ros_team_workspace.Base.Number.{number_text, int_of-number_text, number_text-Without}
use ros_team_workspace.Base.Split.{split-Without, split-append}
use ros_team_workspace.Base.Text.{split}
use ros_team_workspace.Base.Result.{Result, ok, raised, exception, plugin_error, reject}
use ros_team_workspace.Plugins.Version.{
  VersionClass, major_minor, next_version, version_text, get_upper_bound_caret_version,
  check_version, satisfies_version, after_caret,
}

-- `"%d.%d"`
abbrev pub release_text : ℕ → ℕ → String
release_text a b = number_text a <> "." <> number_text b

abbrev pub precedes : ℕ → ℕ → ℕ → ℕ → Bool
precedes a b c d = ltb a c || (not (ltb c a) && ltb b d)

-- What `packaging` documents of releases of two or three numbers: they are parsed, `base_version` is
-- the text of the numbers, and the order is that of the numbers, where a zero at the end does not count.
pub record Releases {V : Type 0} (version : VersionClass V) : Type 0 where
  pub release : ℕ → ℕ → V
  pub release_zero : ℕ → ℕ → V
  pub parse_two : (a b : ℕ) → version.parse (release_text a b) ≡ ok (release a b)
  pub parse_three : (a b : ℕ) → version.parse (version_text (a, b)) ≡ ok (release_zero a b)
  pub base : (a b : ℕ) → version.base_version (release a b) ≡ release_text a b
  pub less : (a b c d : ℕ) → version.is_less (release a b) (release c d) ≡ precedes a b c d
  pub at_least :
      (a b c d : ℕ) → version.is_at_least (release a b) (release_zero c d) ≡ not (precedes a b c d)

-- A version `a.b` is compatible with `^major.minor`: the major numbers are the same, the minor number is not
-- smaller, and with the major number zero it is the same.
abbrev pub Compatible : (a b major minor : ℕ) → Type 0
Compatible a b major minor = (a ≡ major) × (minor ≤ b) × ((0 < major) ⊎ (b ≡ minor))

pub major_minor-release : (a b : ℕ) → major_minor (split "." (release_text a b)) ≡ ok (a, b)
unfolding major_minor
major_minor-release a b =
    rw
      (
        split-append (number_text a) (number_text b) (number_text-Without a),
        split-Without "." (number_text b) (number_text-Without b),
        int_of-number_text a,
        int_of-number_text b,
      )
      refl

caret-after : (s : String) → after_caret ("^" <> s) ≡ s
caret-after s = rw (cons-append, nil-append) refl

-- The outcome of a check: accepted where `P` holds, a `PluginException` where it does not.
abbrev pub Accepts : Type 0 → Result (Unit {0}) → Type 0
Accepts P r =
    (P × (r ≡ ok tt))
    ⊎ ((¬ P) × ((message : String) × (r ≡ raised (exception plugin_error message))))

verdict :
    (P : Type 0) (old new : Bool) (m n : String)
    → (old ≡ true → ¬ P)
    → (new ≡ true → ¬ P)
    → (old ≡ false → new ≡ false → P)
    → Accepts P (reject old plugin_error m (reject new plugin_error n (ok tt)))
verdict P true new m n old_out new_out between = inr (old_out refl, (m, refl))
verdict P false true m n old_out new_out between = inr (new_out refl, (n, refl))
verdict P false false m n old_out new_out between = inl (between refl refl, refl)

module _ {V : Type 0} (version : VersionClass V) (releases : Releases version) where
  upper-release :
      (major minor : ℕ)
      → get_upper_bound_caret_version version (releases.release major minor)
        ≡ version.parse (version_text (next_version (major, minor)))
  unfolding get_upper_bound_caret_version
  upper-release major minor = rw (releases.base major minor, major_minor-release major minor) refl

  checked :
      (a b major minor : ℕ)
      → Accepts (Compatible a b major minor) (
          check_version version
            (releases.release a b)
            (releases.release major minor)
            (releases.release_zero (next_version (major, minor)).0 (next_version (major, minor)).1))
  unfolding check_version
  checked a b zero minor =
      rw (releases.less, releases.at_least)
        (verdict (Compatible a b zero minor) (precedes a b zero minor)
          (not (precedes a b (next_version (zero, minor)).0 (next_version (zero, minor)).1)) _ _
          (λ h. ground (arith, h)) (λ h. ground (arith, h)) (λ h k. ground (arith, h, k)))
  checked a b (suc major) minor =
      rw (releases.less, releases.at_least)
        (verdict (Compatible a b (suc major) minor) (precedes a b (suc major) minor)
          (not (
            precedes a b (next_version ((suc major), minor)).0
              (next_version ((suc major), minor)).1))
          _ _ (λ h. ground (arith, h)) (λ h. ground (arith, h)) (λ h k. ground (arith, h, k)))

  satisfies_version-checked :
      (a b major minor : ℕ)
      → satisfies_version version (release_text a b) ("^" <> release_text major minor)
        ≡ check_version version
            (releases.release a b)
            (releases.release major minor)
            (releases.release_zero (next_version (major, minor)).0 (next_version (major, minor)).1)
  unfolding satisfies_version
  satisfies_version-checked a b major minor =
      rw
        (
          starts_with-append "^" (release_text major minor),
          caret-after (release_text major minor),
          releases.parse_two a b,
          releases.parse_two major minor,
          upper-release major minor,
          releases.parse_three (next_version (major, minor)).0 (next_version (major, minor)).1,
        )
        refl

  -- For the versions and the order that `packaging` documents, the check of a version `a.b` against
  -- `^major.minor` succeeds if the two are compatible, and otherwise raises a `PluginException`.
  pub satisfies_version-Compatible :
      (a b major minor : ℕ)
      → Accepts
          (Compatible a b major minor)
          (satisfies_version version (release_text a b) ("^" <> release_text major minor))
  satisfies_version-Compatible a b major minor =
      rw (satisfies_version-checked a b major minor) (checked a b major minor)
