-- ===== src/Site/Pages.antt =====
-- Which pages `RedirectFrom` of docs/conf.py makes: one for each old address, none in the place of another.
use ros_team_workspace.Base.{
  String, ◌≡◌, refl, sym, ap, ◌∙◌, Bool, true, false, not, Option, none, some, List, [], ◌∷◌, ◌++◌,
  map, if◌then◌else◌, contains,
}
use ros_team_workspace.Base.Dict.{insert, keys}
use ros_team_workspace.Base.Result.{Result, ok, first_of_bind, ◌>>=◌}
use ros_team_workspace.Site.Paths.{relpath, without_extension}
use ros_team_workspace.Site.Distinct.{
  Distinct, Apart, EachDistinct, contains-append, append-Distinct, insert-EachDistinct,
  run_each-EachDistinct,
}
use ros_team_workspace.Site.Redirects.{
  Redirections, run_each, canonical, intersection, Conflict, conflict_or, conflict_with, or_later,
  redirection_conflict, all_redirect_urls, Page, Build, page, pages_for, pages_of, checked_urls,
  checked, generate,
}

same_ok : {A : Type 0} {a b : A} → Path (Result A) (ok a) (ok b) → a ≡ b
same_ok h = cc h

canonical-EachDistinct :
    (cwd srcdir : String) (d done found : Redirections)
    → EachDistinct d
    → EachDistinct done
    → canonical cwd srcdir d done ≡ ok found
    → EachDistinct found
unfolding canonical
canonical-EachDistinct cwd srcdir [] done found each kept same = rw (same_ok same) at kept
canonical-EachDistinct cwd srcdir ((path, urls) ∷ d) done found (first, each) kept same =
    let (file, _, rest) =
      first_of_bind (λ f. canonical cwd srcdir d (insert (without_extension f) urls done))
        (relpath cwd path srcdir) same in
    canonical-EachDistinct cwd srcdir d _ found each
      (insert-EachDistinct (without_extension file) urls done first kept) rest

intersection-Apart : (a b : List String) → intersection a b ≡ [] → Apart a b
unfolding intersection
intersection-Apart [] b none_left = tt
intersection-Apart (x ∷ a) b none_left = from (contains b x) refl (intersection-Apart a b) none_left
  where
    from :
        (known : Bool)
        → contains b x ≡ known
        → (intersection a b ≡ [] → Apart a b)
        → (if known then x ∷ intersection a b else intersection a b) ≡ []
        → Apart (x ∷ a) b
    from true known others e = absurd (cc e)
    from false known others e = (known, others e)

Apart-append : (xs ys zs : List String) → Apart xs ys → Apart xs zs → Apart xs (ys ++ zs)
Apart-append [] ys zs a b = tt
Apart-append (x ∷ xs) ys zs (a, apart) (b, apart') =
    (rw (contains-append x ys zs, a, b) refl, Apart-append xs ys zs apart apart')

Apart-nil : (xs : List String) → Apart xs []
Apart-nil [] = tt
Apart-nil (x ∷ xs) = (refl, Apart-nil xs)

conflict_with-Apart :
    (one : String) (urls : List String) (d : Redirections)
    → conflict_with one urls d ≡ none
    → Apart urls (all_redirect_urls d)
unfolding conflict_with all_redirect_urls
conflict_with-Apart one urls [] none_found = Apart-nil urls
conflict_with-Apart one urls ((other, its_urls) ∷ d) none_found =
    let (here, later) = from (intersection urls its_urls) none_found in
    Apart-append urls its_urls (all_redirect_urls d) (intersection-Apart urls its_urls here)
      (conflict_with-Apart one urls d later)
  where
    from :
        (shared : List String)
        → conflict_or one other shared (conflict_with one urls d) ≡ none
        → (shared ≡ []) × (conflict_with one urls d ≡ none)
    from [] e = (refl, e)
    from (url ∷ shared) e = absurd (cc e)

redirection_conflict-Distinct :
    (d : Redirections)
    → redirection_conflict d ≡ none
    → EachDistinct d
    → Distinct (all_redirect_urls d)
unfolding redirection_conflict all_redirect_urls
redirection_conflict-Distinct [] none_found each = tt
redirection_conflict-Distinct ((one, urls) ∷ d) none_found (first, each) =
    let (here, later) = from (conflict_with one urls d) none_found in
    append-Distinct urls (all_redirect_urls d) first (redirection_conflict-Distinct d later each)
      (conflict_with-Apart one urls d here)
  where
    from :
        (found : Option Conflict)
        → or_later found (redirection_conflict d) ≡ none
        → (found ≡ none) × (redirection_conflict d ≡ none)
    from none e = (refl, e)
    from (some conflict) e = absurd (cc e)

module _ (B : Build) where
  abbrev names : List Page → List String
  names = map (λ p. p.name)

  pages_for-names :
      (canonical_url : String) (urls : List String) (others : Result (List Page))
      (pages : List Page)
      → pages_for B canonical_url urls others ≡ ok pages
      → (later : List Page) × (others ≡ ok later) × (names pages ≡ urls ++ names later)
  unfolding pages_for page
  pages_for-names canonical_url [] others pages same = (pages, same, refl)
  pages_for-names canonical_url (url ∷ urls) others pages same =
      let (way, _, rest) =
        first_of_bind
          (λ w.
            pages_for B canonical_url urls others >>= λ ps. ok (page B canonical_url url w ∷ ps))
          (relpath B.cwd canonical_url url) same in
      let (tail, tail_same, whole) =
        first_of_bind (λ ps. ok (page B canonical_url url way ∷ ps))
          (pages_for B canonical_url urls others) rest in
      let (later, later_same, tail_names) =
        pages_for-names canonical_url urls others tail tail_same in
      (later, later_same, ap names (sym (same_ok whole)) ∙ ap (λ ns. url ∷ ns) tail_names)

  pages_of-names :
      (d : Redirections) (pages : List Page)
      → pages_of B d ≡ ok pages
      → names pages ≡ all_redirect_urls d
  unfolding pages_of all_redirect_urls
  pages_of-names [] pages same = ap names (sym (same_ok same))
  pages_of-names ((canonical_url, urls) ∷ d) pages same =
      let (later, later_same, found) =
        pages_for-names canonical_url urls (pages_of B d) pages same in
      found ∙ ap (λ ns. urls ++ ns) (pages_of-names d later later_same)

  checked-passed :
      (d : Redirections) (pages : List Page)
      → checked B d (redirection_conflict d) ≡ ok pages
      → (redirection_conflict d ≡ none)
        × (intersection (keys d) (all_redirect_urls d) ≡ [])
        × (pages_of B d ≡ ok pages)
  checked-passed d pages same = from (redirection_conflict d) same
    where
      urls_from :
          (found : List String)
          → checked_urls B d found ≡ ok pages
          → (found ≡ []) × (pages_of B d ≡ ok pages)
      urls_from [] e = (refl, e)
      urls_from (url ∷ urls) e = absurd (cc e)

      from :
          (found : Option Conflict)
          → checked B d found ≡ ok pages
          → (found ≡ none)
            × (intersection (keys d) (all_redirect_urls d) ≡ [])
            × (pages_of B d ≡ ok pages)
      from none e =
          let (nothing, made) = urls_from (intersection (keys d) (all_redirect_urls d)) e in
          (refl, nothing, made)
      from (some (one, other, urls)) e = absurd (cc e)

  -- The pages that a build makes from the directives of the documents: each has the name of an old address of a document, no
  -- two have the same name, and none has the name of a document with the directive.
  pub generate-Distinct :
      (directives : List (String × List String)) (pages : List Page)
      → B.is_html ≡ true
      → generate B (run_each directives []) ≡ ok pages
      → (found : Redirections) × (canonical B.cwd B.srcdir (run_each directives []) [] ≡ ok found)
        × (map (λ p. p.name) pages ≡ all_redirect_urls found)
        × Distinct (all_redirect_urls found)
        × Apart (keys found) (all_redirect_urls found)
  unfolding generate
  generate-Distinct directives pages html made =
      let (found, found_same, rest) =
        first_of_bind (λ d. checked B d (redirection_conflict d))
          (canonical B.cwd B.srcdir (run_each directives []) []) (from B.is_html html made) in
      let (no_conflict, no_document, written) = checked-passed found pages rest in
      (
        found,
        found_same,
        pages_of-names found pages written,
        redirection_conflict-Distinct found no_conflict (
            canonical-EachDistinct B.cwd B.srcdir (run_each directives []) [] found
              (run_each-EachDistinct directives [] tt) tt found_same),
        intersection-Apart (keys found) (all_redirect_urls found) no_document,
      )
    where
      from :
          (html : Bool)
          → html ≡ true
          → (if not html
              then ok []
              else canonical B.cwd B.srcdir (run_each directives []) [] >>= λ d.
                  checked B d (redirection_conflict d))
            ≡ ok pages
          → (canonical B.cwd B.srcdir (run_each directives []) [] >>= λ d.
              checked B d (redirection_conflict d))
            ≡ ok pages
      from true h e = e
      from false h e = absurd (cc h)
