-- ===== src/Base/Split.antt =====
-- Splitting at a character that does not stand in the first part.

use Prim.Native.String.{String, ◌++◌ as ◌<>◌}
use mathlib.Core.Path.{◌≡◌, refl}
use mathlib.Core.List.{[], ◌∷◌}
use text.Mathlib.TextLemmas.{nil-append, cons-append}
use ros_team_workspace.Base.Text.{split}
use ros_team_workspace.Base.Number.{Without}

pub split-Without : (c s : String) → Without c s → split c s ≡ s ∷ []
unfolding split
split-Without c String.[] free = refl
split-Without c (String.◌∷◌ d s) (other, free) =
    rw (other, split-Without c s free, cons-append, nil-append) refl

pub split-append : (s t : String) → Without "." s → split "." (s <> "." <> t) ≡ s ∷ split "." t
unfolding split
split-append String.[] t free = rw (nil-append, cons-append, nil-append) refl
split-append (String.◌∷◌ d s) t (other, free) =
    rw (cons-append d s ("." <> t), other, split-append s t free, cons-append, nil-append) refl
