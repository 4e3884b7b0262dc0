-- ===== src/Site/Distinct.antt =====
-- That the directives of docs/conf.py keep no old address of a document twice.
use ros_team_workspace.Base.{
  String, ◌≡◌, refl, Bool, true, false, ◌||◌, List, [], ◌∷◌, ◌++◌, arith, eq_iff, if◌then◌else◌,
  contains,
}
use ros_team_workspace.Base.Dict.{lookup, insert}
use ros_team_workspace.Site.Redirects.{Redirections, update, urls_at, with_document, run, run_each}

-- No element twice.
abbrev pub Distinct : List String → Type 0
Distinct [] = Unit
Distinct (x ∷ xs) = (contains xs x ≡ false) × Distinct xs

-- No element of the first list stands in the second one.
abbrev pub Apart : List String → List String → Type 0
Apart [] ys = Unit
Apart (x ∷ xs) ys = (contains ys x ≡ false) × Apart xs ys

pub contains-append :
    (x : String) (xs ys : List String) → contains (xs ++ ys) x ≡ contains xs x || contains ys x
contains-append x [] ys = refl
contains-append x (y ∷ xs) ys = ground (arith, contains-append x xs ys)

pub append-Distinct :
    (xs ys : List String) → Distinct xs → Distinct ys → Apart xs ys → Distinct (xs ++ ys)
append-Distinct [] ys a b apart = b
append-Distinct (x ∷ xs) ys (fresh, a) b (new, apart) =
    (rw (contains-append x xs ys, fresh, new) refl, append-Distinct xs ys a b apart)

added-Distinct :
    (xs : List String) (x : String) → Distinct xs → contains xs x ≡ false → Distinct (xs ++ x ∷ [])
added-Distinct [] x a fresh = (refl, tt)
added-Distinct (y ∷ xs) x (first, a) fresh = (
  rw (contains-append y xs (x ∷ [])) ground (arith, eq_iff x y, eq_iff y x),
  added-Distinct xs x a (ground arith),
)

update-Distinct : (content urls : List String) → Distinct urls → Distinct (update urls content)
unfolding update
update-Distinct [] urls a = a
update-Distinct (url ∷ content) urls a =
    update-Distinct content _ (one_more (contains urls url) refl)
  where
    one_more :
        (known : Bool)
        → contains urls url ≡ known
        → Distinct (if known then urls else urls ++ url ∷ [])
    one_more true known = a
    one_more false fresh = added-Distinct urls url a fresh

-- Each entry has no address twice.
abbrev pub EachDistinct : Redirections → Type 0
EachDistinct [] = Unit
EachDistinct ((document, urls) ∷ rest) = Distinct urls × EachDistinct rest

pub insert-EachDistinct :
    (key : String) (urls : List String) (d : Redirections)
    → Distinct urls
    → EachDistinct d
    → EachDistinct (insert key urls d)
unfolding insert
insert-EachDistinct key urls [] a each = (a, tt)
insert-EachDistinct key urls ((j, w) ∷ d) a (first, each) =
    ground (arith, insert-EachDistinct key urls d a each)

lookup-Distinct :
    (key : String) (d : Redirections) → EachDistinct d → Distinct (urls_at (lookup key d))
unfolding lookup
lookup-Distinct key [] each = tt
lookup-Distinct key ((j, w) ∷ d) (first, each) = ground (arith, lookup-Distinct key d each)

with_document-EachDistinct :
    (document : String) (d : Redirections)
    → EachDistinct d
    → EachDistinct (with_document document d)
with_document-EachDistinct document d each =
    ground (arith, insert-EachDistinct document [] d tt each)

run-EachDistinct :
    (document : String) (content : List String) (d : Redirections)
    → EachDistinct d
    → EachDistinct (run document content d)
unfolding run
run-EachDistinct document content d each =
    let there = with_document-EachDistinct document d each in
    insert-EachDistinct document _ (with_document document d)
      (update-Distinct content _ (lookup-Distinct document (with_document document d) there)) there

pub run_each-EachDistinct :
    (directives : List (String × List String)) (d : Redirections)
    → EachDistinct d
    → EachDistinct (run_each directives d)
unfolding run_each
run_each-EachDistinct [] d each = each
run_each-EachDistinct ((document, content) ∷ directives) d each =
    run_each-EachDistinct directives (run document content d)
      (run-EachDistinct document content d each)
