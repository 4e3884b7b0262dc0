-- ===== src/Site/Branches.antt =====
-- docs/conf.py: what the build for a branch changes in the configuration, the macros in the texts, and what `setup` registers.
use ros_team_workspace.Base.{
  String, ◌<>◌, Bool, false, not, Option, none, some, List, [], ◌∷◌, ◌==◌, if◌then◌else◌, contains,
  starts_with,
}
use ros_team_workspace.Base.Dict.{Dict, lookup, insert}
use ros_team_workspace.Base.Text.{lower, upper, replace, replace_from}
use ros_team_workspace.Base.Result.{Result, ok, raised, exception, key_error, ◌>>=◌}

abbrev pub ros_distro : String
ros_distro = "jazzy"

abbrev pub repos_file_branch : String
repos_file_branch = "master"

abbrev pub distro_full_names : Dict String
distro_full_names =
    ("foxy", "Foxy Fitzroy")
    ∷ ("galactic", "Galactic Geochelone")
    ∷ ("humble", "Humble Hawksbill")
    ∷ ("jazzy", "Jazzy Jalisco")
    ∷ ("kilted", "Kilted Kaiju")
    ∷ ("rolling", "Rolling Ridley")
    ∷ []

-- `branch_distro`
abbrev pub branch_distro : Dict String
branch_distro =
    ("master", "jazzy") ∷ ("humble", "humble") ∷ ("galactic", "galactic") ∷ ("foxy", "foxy") ∷ []

-- The branches that match `smv_branch_whitelist`.
abbrev pub smv_branch_whitelist : String → Bool
smv_branch_whitelist branch = contains ("master" ∷ "humble" ∷ "galactic" ∷ "foxy" ∷ []) branch

abbrev pub smv_eol_versions : List String
smv_eol_versions = "galactic" ∷ "foxy" ∷ []

-- The four values that the texts may name.
abbrev pub macros_of : String → String → String → String → Dict String
macros_of distro title full branch =
    ("DISTRO", distro)
    ∷ ("DISTRO_TITLE", title)
    ∷ ("DISTRO_TITLE_FULL", full)
    ∷ ("REPOS_FILE_BRANCH", branch)
    ∷ []

abbrev pub macros : Dict String
macros = macros_of ros_distro "Jazzy" "Jazzy Jalisco" repos_file_branch

abbrev pub html_baseurl : String
html_baseurl = "https://rtw.b-robotized.com/" <> ros_distro <> "/"

-- The values of `app.config` that the handlers use.
pub record Config : Type 0 where
  pub smv_current_version : String
  pub smv_eol_versions : List String
  pub macros : Dict String
  pub html_baseurl : String
  pub project : String
  pub html_logo : Option String

-- The values that docs/conf.py gives, in the build for a branch, or for none if the text is empty.
abbrev pub initial : String → Config
initial branch = record {
  smv_current_version = branch;
  smv_eol_versions = smv_eol_versions;
  macros = macros;
  html_baseurl = html_baseurl;
  project = "ROS Team Workspace";
  html_logo = none;
}

-- `text.title()`, for ASCII letters: the first letter of each word is large.
unfoldable pub title_from : Bool → String → String
unfolding lower upper
title_from inside String.[] = ""
title_from inside (String.◌∷◌ c s) =
    let first = String.◌∷◌ c "" in
    let rest = title_from (not (lower first == upper first)) s in
    if inside then lower first <> rest else upper first <> rest

-- `d[key]`
abbrev pub found_at : String → Option String → Result String
found_at key none = raised (exception key_error key)
found_at key (some v) = ok v

-- `smv_rewrite_configs`
unfoldable pub smv_rewrite_configs : Config → Result Config
unfolding lookup title_from
smv_rewrite_configs config =
    let branch = config.smv_current_version in
    if not (branch == "")
    then (found_at branch (lookup branch branch_distro) >>= λ distro.
        found_at distro (lookup distro distro_full_names) >>= λ full. ok (record config {
          macros = macros_of distro (title_from false distro) full branch;
          html_baseurl = config.html_baseurl <> "/" <> distro <> "/";
          project = "ROS Team Workspace Documentation: " <> title_from false distro;
          html_logo = some ("_static/images/" <> distro <> ".svg");
        }))
    else ok (record config { html_logo = some "_static/images/rolling.svg" })

-- What a template of a page gets: a text or a list of texts.
pub data Entry : Type 0 where
  text : String → Entry
  texts : List String → Entry

-- `github_link_rewrite_branch`
unfoldable pub github_link_rewrite_branch : Config → Dict Entry → Dict Entry
unfolding insert
github_link_rewrite_branch config context =
    if not (config.smv_current_version == "")
    then (insert "eol_versions" (texts config.smv_eol_versions)
        (insert "github_version" (text (config.smv_current_version <> "/")) context))
    else context

-- The loop of `expand_macros`.
unfoldable pub expand_each : Dict String → String → String
unfolding replace_from
expand_each [] source = source
expand_each ((key, value) ∷ rest) source =
    expand_each rest (replace source ("{" <> key <> "}") value)

-- `expand_macros`
unfoldable pub expand_macros : Config → String → String
unfolding expand_each
expand_macros config source = expand_each config.macros source

-- What `setup`, and `RedirectFrom.register` as its last part, tell Sphinx: the handler of an event, a value of the configuration, a directive.
pub data Registration : Type 0 where
  connect : String → String → Registration
  add_config_value : String → Registration
  add_directive : String → String → Registration

abbrev pub register_directive : List Registration
register_directive =
    connect "html-collect-pages" "RedirectFrom.generate"
    ∷ add_directive "redirect-from" "RedirectFrom"
    ∷ []

abbrev pub setup : List Registration
setup =
    connect "config-inited" "smv_rewrite_configs"
    ∷ connect "html-page-context" "github_link_rewrite_branch"
    ∷ connect "source-read" "expand_macros"
    ∷ add_config_value "smv_eol_versions"
    ∷ add_config_value "macros"
    ∷ register_directive

-- `make_router`: where a reference to a document leads that stood in another place. The functions of Sphinx are parameters.
module _ (docname_join get_relative_uri : String → String → String) where
  unfoldable pub make_router : String → String → List String → String → String → Option String
  unfolding replace_from
  make_router origin destination all_docs refdoc reftarget =
      let doctarget = docname_join refdoc reftarget in
      let routed_doctarget = replace doctarget origin destination in
      if starts_with doctarget origin
      then (if contains all_docs routed_doctarget
          then some (get_relative_uri refdoc routed_doctarget)
          else none)
      else none
