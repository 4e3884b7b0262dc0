-- ===== src/Site/Redirects.antt =====
-- docs/conf.py: `RedirectFrom`, the directive that names the old addresses of a document, and the pages that lead from
-- them to it. A set is a list that has no element twice.
use ros_team_workspace.Base.{
  String, ◌<>◌, Bool, not, Option, none, some, List, [], ◌∷◌, ◌++◌, if◌then◌else◌, contains,
}
use ros_team_workspace.Base.Dict.{Dict, lookup, insert, has_key, keys}
use ros_team_workspace.Base.Text.{split, basename}
use ros_team_workspace.Base.Result.{Result, ok, raised, exception, runtime_error, ◌>>=◌}
use ros_team_workspace.Site.Paths.{relpath, without_extension}

abbrev pub Redirections : Type 0
Redirections = Dict (List String)

-- `urls.update(content)`
unfoldable pub update : List String → List String → List String
update urls [] = urls
update urls (url ∷ content) = update (if contains urls url then urls else urls ++ url ∷ []) content

-- `redirections[document_path]` after the key was added.
abbrev pub urls_at : Option (List String) → List String
urls_at none = []
urls_at (some urls) = urls

abbrev pub with_document : String → Redirections → Redirections
with_document document redirections =
    if has_key document redirections then redirections else insert document [] redirections

-- `RedirectFrom.run`: the directive in a document, with its content.
unfoldable pub run : String → List String → Redirections → Redirections
unfolding lookup insert update
run document content redirections =
    let there = with_document document redirections in
    insert document (update (urls_at (lookup document there)) content) there

-- The directives in the order in which Sphinx reads them.
unfoldable pub run_each : List (String × List String) → Redirections → Redirections
run_each [] redirections = redirections
run_each ((document, content) ∷ directives) redirections =
    run_each directives (run document content redirections)

-- The addresses of the documents, without the extension of the file, with the old ones.
unfoldable pub canonical : String → String → Redirections → Redirections → Result Redirections
canonical cwd srcdir [] done = ok done
canonical cwd srcdir ((path, urls) ∷ rest) done = relpath cwd path srcdir >>= λ file.
    canonical cwd srcdir rest (insert (without_extension file) urls done)

-- `a.intersection(b)`
unfoldable pub intersection : List String → List String → List String
intersection [] b = []
intersection (x ∷ a) b = let rest = intersection a b in if contains b x then x ∷ rest else rest

abbrev pub Conflict : Type 0
Conflict = String × String × List String

-- The first later document that shares an old address with this one.
abbrev pub conflict_or : String → String → List String → Option Conflict → Option Conflict
conflict_or one other [] later = later
conflict_or one other (url ∷ urls) later = some (one, other, url ∷ urls)

unfoldable pub conflict_with : String → List String → Redirections → Option Conflict
unfolding intersection
conflict_with one urls [] = none
conflict_with one urls ((other, its_urls) ∷ rest) =
    conflict_or one other (intersection urls its_urls) (conflict_with one urls rest)

abbrev pub or_later : Option Conflict → Option Conflict → Option Conflict
or_later none later = later
or_later (some conflict) later = some conflict

-- `redirection_conflict`
unfoldable pub redirection_conflict : Redirections → Option Conflict
unfolding conflict_with
redirection_conflict [] = none
redirection_conflict ((one, urls) ∷ rest) =
    or_later (conflict_with one urls rest) (redirection_conflict rest)

-- `all_redirect_urls`
unfoldable pub all_redirect_urls : Redirections → List String
all_redirect_urls [] = []
all_redirect_urls ((document, urls) ∷ rest) = urls ++ all_redirect_urls rest

pub record Context : Type 0 where
  pub canonical_url : String
  pub title : String
  pub metatags : String

pub record Page : Type 0 where
  pub name : String
  pub context : Context
  pub template_name : String

-- `redirect_html_fragment.format(base_url=base_url, url=url)`
abbrev pub redirect_html_fragment : String → String → String
redirect_html_fragment base_url url =
    "\n            <link rel=\"canonical\" href=\"" <> base_url <> "/" <> url
    <> "\" />\n            <meta http-equiv=\"refresh\" content=\"0; url=" <> url
    <> "\" />\n            <script>\n                window.location.href = '" <> url
    <> "';\n            </script>\n        "

-- What the build gives: the current folder, the folder of the sources, the value of `html_baseurl`, the builder's
-- `get_relative_uri`, and the text of a set, whose order is Python's.
pub record Build : Type 0 where
  pub cwd : String
  pub srcdir : String
  pub html_baseurl : String
  pub is_html : Bool
  pub get_relative_uri : String → String → String
  pub set_text : List String → String

module _ (B : Build) where
  unfoldable pub page : String → String → String → Page
  unfolding split
  page canonical_url redirect_url way = record {
    name = redirect_url;
    context = record {
      canonical_url = way;
      title = basename redirect_url;
      metatags =
          redirect_html_fragment B.html_baseurl (B.get_relative_uri redirect_url canonical_url);
    };
    template_name = "layout.html";
  }

  -- The pages for the old addresses of one document, before those of the others.
  unfoldable pub pages_for : String → List String → Result (List Page) → Result (List Page)
  pages_for canonical_url [] others = others
  pages_for canonical_url (url ∷ urls) others = relpath B.cwd canonical_url url >>= λ way.
      pages_for canonical_url urls others >>= λ pages. ok (page canonical_url url way ∷ pages)

  unfoldable pub pages_of : Redirections → Result (List Page)
  unfolding pages_for
  pages_of [] = ok []
  pages_of ((canonical_url, urls) ∷ rest) = pages_for canonical_url urls (pages_of rest)

  abbrev pub checked_urls : Redirections → List String → Result (List Page)
  checked_urls redirections [] = pages_of redirections
  checked_urls redirections (url ∷ urls) = raised (
      exception runtime_error
        ("Some redirects conflict with existing documents: " <> B.set_text (url ∷ urls)))

  abbrev pub checked : Redirections → Option Conflict → Result (List Page)
  checked redirections (some (one, other, urls)) = raised (
      exception runtime_error (
        "Documents "
        <> one
        <> " and "
        <> other
        <> " define conflicting redirects: "
        <> B.set_text urls))
  checked redirections none =
      checked_urls redirections (intersection (keys redirections) (all_redirect_urls redirections))

  -- `RedirectFrom.generate`. What it yields before an error is left out.
  unfoldable pub generate : Redirections → Result (List Page)
  unfolding canonical redirection_conflict all_redirect_urls intersection pages_of
  generate redirections =
      if not B.is_html
      then ok []
      else canonical B.cwd B.srcdir redirections [] >>= λ found.
          checked found (redirection_conflict found)
