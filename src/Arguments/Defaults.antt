-- ===== src/Arguments/Defaults.antt =====
-- The namespace of the defaults, which argparse starts from.
use ros_team_workspace.Base.{
  String, ◌≡◌, refl, Bool, true, false, ◌&&◌, List, [], ◌∷◌, All, ◌==◌, arith, eq_iff, some, none,
}
use ros_team_workspace.Base.Dict.{Dict, lookup}
use ros_team_workspace.Arguments.{Value, Argument, dest_of, fits}
use ros_team_workspace.Arguments.Typed.{is_absent, IsParsed}

abbrev pub defaults_of : List Argument → Dict Value
defaults_of [] = []
defaults_of (a ∷ arguments) = (dest_of a, a.default) ∷ defaults_of arguments

-- No two arguments have the same key, and each default is of the argument's type.
abbrev pub is_declaration : List Argument → Bool
is_declaration [] = true
is_declaration (a ∷ arguments) =
    is_absent arguments (dest_of a) && fits a.shape a.default && is_declaration arguments

abbrev Given : Dict Value → Argument → Type 0
Given d a = (v : Value) × (lookup (dest_of a) d ≡ some v) × (fits a.shape v ≡ true)

later-Given :
    (key : String) (value : Value) (d : Dict Value) (arguments : List Argument)
    → is_absent arguments key ≡ true
    → All (Given d) arguments
    → All (Given ((key, value) ∷ d)) arguments
unfolding lookup
later-Given key value d [] absent all = tt
later-Given key value d (a ∷ arguments) absent ((v, there, typed), all) = (
  (v, rw (not_first (ground (arith, absent))) there, typed),
  later-Given key value d arguments (ground (arith, absent)) all,
)
  where
    not_first : (dest_of a == key) ≡ false → (key == dest_of a) ≡ false
    not_first other = ground (arith, other, eq_iff key (dest_of a), eq_iff (dest_of a) key)

all-Given :
    (arguments : List Argument)
    → is_declaration arguments ≡ true
    → All (Given (defaults_of arguments)) arguments
unfolding lookup
all-Given [] e = tt
all-Given (a ∷ arguments) e = (
  (a.default, ground (arith, eq_iff (dest_of a) (dest_of a)), ground (arith, e)),
  later-Given (dest_of a) a.default (defaults_of arguments) arguments (ground (arith, e))
      (all-Given arguments (ground (arith, e))),
)

absent-lookup :
    (arguments : List Argument) (key : String)
    → is_absent arguments key ≡ true
    → lookup key (defaults_of arguments) ≡ none
unfolding lookup
absent-lookup [] key absent = refl
absent-lookup (a ∷ arguments) key absent =
    ground (arith, absent, absent-lookup arguments key, eq_iff (dest_of a) key)

-- A namespace of defaults is one that argparse can make, up to the arguments that are required.
pub defaults_of-IsParsed :
    (arguments : List Argument)
    → is_declaration arguments ≡ true
    → IsParsed arguments (defaults_of arguments)
defaults_of-IsParsed arguments e = record {
  given = all-Given arguments e;
  only = λ key absent internal. absent-lookup arguments key absent;
}
