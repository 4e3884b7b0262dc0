-- ===== src/Tests/Documentation.antt =====
-- The redirects and the configuration of a small documentation, and the test of a generated package.
use ros_team_workspace.Host.{Host, temp_file, unlink}
use ros_team_workspace.Urdf.{check_description, test_urdf_xacro}
use ros_team_workspace.Urdf.Removed.{test_urdf_xacro-removed}
use ros_team_workspace.Tests.Machine.{smooth}
use ros_team_workspace.Base.{
  Option, none, some, String, ◌≡◌, refl, true, ◌||◌, List, [], ◌∷◌, ◌==◌, map,
}
use ros_team_workspace.Base.Dict.{keys}
use ros_team_workspace.Base.Text.{list_text}
use ros_team_workspace.Base.Result.{Result, ok, raised, exception, runtime_error}
use ros_team_workspace.Site.Paths.{relpath, without_extension}
use ros_team_workspace.Site.Distinct.{Distinct, Apart}
use ros_team_workspace.Site.Redirects.{
  Redirections, Page, Build, page, run, run_each, canonical, all_redirect_urls, generate, pages_of,
}
use ros_team_workspace.Site.Pages.{generate-Distinct}
use ros_team_workspace.Site.Accepted.{generate_accepted}
use ros_team_workspace.Site.Branches.{
  Config, initial, smv_branch_whitelist, smv_rewrite_configs, expand_macros,
}
use ros_team_workspace.Site.Known.{is_ok, smv_rewrite_configs-known}

abbrev build : Build
build = record {
  cwd = "/docs";
  srcdir = "/docs";
  html_baseurl = "https://rtw.b-robotized.com/jazzy/";
  is_html = true;
  get_relative_uri = λ from to. to;
  set_text = list_text;
}

abbrev directives : List (String × List String)
directives =
    ("/docs/guides/create.rst", "create" ∷ "old/create" ∷ [])
    ∷ ("/docs/use.rst", "old/use" ∷ [])
    ∷ ("/docs/guides/create.rst", "old/create" ∷ "older/create" ∷ [])
    ∷ []

abbrev found : Redirections
found =
    ("guides/create", "create" ∷ "old/create" ∷ "older/create" ∷ []) ∷ ("use", "old/use" ∷ []) ∷ []

canonical_names : canonical "/docs" "/docs" (run_each directives []) [] ≡ ok found
unfolding canonical run_each run relpath without_extension
canonical_names = refl

abbrev pages_from : Result (List Page) → List Page
pages_from (ok pages) = pages
pages_from (raised e) = []

abbrev pages : List Page
unfolding generate run_each
pages = pages_from (generate build (run_each directives []))

generated : generate build (run_each directives []) ≡ ok pages
unfolding generate run_each pages run relpath without_extension
generated = refl

page_ways :
    map (λ p. p.context.canonical_url) pages
    ≡ "../guides/create" ∷ "../../guides/create" ∷ "../../guides/create" ∷ "../../use" ∷ []
unfolding pages run relpath without_extension page
page_ways = refl

generate-Distinct_example :
    (d : Redirections) × (canonical "/docs" "/docs" (run_each directives []) [] ≡ ok d)
    × (map (λ p. p.name) pages ≡ all_redirect_urls d)
    × Distinct (all_redirect_urls d)
    × Apart (keys d) (all_redirect_urls d)
generate-Distinct_example = generate-Distinct build directives pages refl generated

generate_accepted_example : generate build (run_each directives []) ≡ pages_of build found
unfolding all_redirect_urls
generate_accepted_example =
    generate_accepted build (run_each directives []) found refl canonical_names
      (refl, (refl, (refl, (refl, tt)))) (refl, (refl, tt))

two_documents :
    generate build (run_each (("/docs/a.rst", "old" ∷ []) ∷ ("/docs/b.rst", "old" ∷ []) ∷ []) [])
    ≡ raised (exception runtime_error "Documents a and b define conflicting redirects: ['old']")
unfolding generate run_each run relpath without_extension
two_documents = refl

smv_rewrite_configs-known_example :
    is_ok (smv_rewrite_configs (initial "jazzy")) ≡ ("jazzy" == "" || smv_branch_whitelist "jazzy")
smv_rewrite_configs-known_example = smv_rewrite_configs-known (initial "jazzy")

abbrev baseurl : Result Config → String
baseurl (ok config) = config.html_baseurl
baseurl (raised e) = ""

-- The address of a branch contains the default distribution too.
humble_baseurl :
    baseurl (smv_rewrite_configs (initial "humble")) ≡ "https://rtw.b-robotized.com/jazzy//humble/"
unfolding smv_rewrite_configs
humble_baseurl = refl

expanded : expand_macros (initial "") "ros-{DISTRO} on {REPOS_FILE_BRANCH}" ≡ "ros-jazzy on master"
unfolding expand_macros
expanded = refl

abbrev machine : Host
machine = smooth none

abbrev share_of : String → Result String
share_of package_name = ok "/opt/share"

abbrev which : String → Option String
which command = some command

test_urdf_xacro-removed_example :
    (test_urdf_xacro machine share_of which []).1
    ≡ unlink "/tmp/file"
      ∷ (check_description machine share_of which "/opt/share" "/tmp/file" (temp_file "" ∷ [])).1
test_urdf_xacro-removed_example =
    test_urdf_xacro-removed machine share_of which [] "/opt/share" "/tmp/file" refl refl
