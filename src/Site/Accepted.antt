-- ===== src/Site/Accepted.antt =====
-- That `RedirectFrom` of docs/conf.py refuses no redirects but conflicting ones.
use ros_team_workspace.Base.{
  String, ◌≡◌, refl, true, false, ◌||◌, none, List, [], ◌∷◌, ◌++◌, arith, contains,
}
use ros_team_workspace.Base.Dict.{keys}
use ros_team_workspace.Base.Result.{ok}
use ros_team_workspace.Site.Distinct.{Distinct, Apart, contains-append}
use ros_team_workspace.Site.Redirects.{
  Redirections, canonical, intersection, conflict_with, redirection_conflict, all_redirect_urls,
  Build, pages_of, generate,
}

Apart-intersection : (a b : List String) → Apart a b → intersection a b ≡ []
unfolding intersection
Apart-intersection [] b apart = refl
Apart-intersection (x ∷ a) b (fresh, apart) = rw (fresh, Apart-intersection a b apart) refl

Apart-parts : (xs ys zs : List String) → Apart xs (ys ++ zs) → Apart xs ys × Apart xs zs
Apart-parts [] ys zs apart = (tt, tt)
Apart-parts (x ∷ xs) ys zs (fresh, apart) =
    let neither : (contains ys x || contains zs x) ≡ false =
      rw (contains-append x ys zs) at fresh in
    let (left, right) = Apart-parts xs ys zs apart in ((ground arith, left), (ground arith, right))

Distinct-parts : (xs ys : List String) → Distinct (xs ++ ys) → Apart xs ys × Distinct ys
Distinct-parts [] ys a = (tt, a)
Distinct-parts (x ∷ xs) ys (fresh, a) =
    let neither : (contains xs x || contains ys x) ≡ false =
      rw (contains-append x xs ys) at fresh in
    let (apart, rest) = Distinct-parts xs ys a in ((ground arith, apart), rest)

Apart-conflict_with :
    (one : String) (urls : List String) (d : Redirections)
    → Apart urls (all_redirect_urls d)
    → conflict_with one urls d ≡ none
unfolding conflict_with all_redirect_urls
Apart-conflict_with one urls [] apart = refl
Apart-conflict_with one urls ((other, its_urls) ∷ d) apart =
    let (here, later) = Apart-parts urls its_urls (all_redirect_urls d) apart in
    rw (Apart-intersection urls its_urls here, Apart-conflict_with one urls d later) refl

Distinct-redirection_conflict :
    (d : Redirections) → Distinct (all_redirect_urls d) → redirection_conflict d ≡ none
unfolding redirection_conflict all_redirect_urls
Distinct-redirection_conflict [] a = refl
Distinct-redirection_conflict ((one, urls) ∷ d) a =
    let (apart, rest) = Distinct-parts urls (all_redirect_urls d) a in
    rw (Apart-conflict_with one urls d apart, Distinct-redirection_conflict d rest) refl

-- Redirects of which no two have the same old address, and none that of a document with the directive, are not refused: the
-- pages for them are made.
pub generate_accepted :
    (B : Build) (redirections found : Redirections)
    → B.is_html ≡ true
    → canonical B.cwd B.srcdir redirections [] ≡ ok found
    → Distinct (all_redirect_urls found)
    → Apart (keys found) (all_redirect_urls found)
    → generate B redirections ≡ pages_of B found
unfolding generate
generate_accepted B redirections found html same a apart =
    rw
      (
        html,
        same,
        Distinct-redirection_conflict found a,
        Apart-intersection (keys found) (all_redirect_urls found) apart,
      )
      refl
