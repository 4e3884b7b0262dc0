-- ===== src/Port/Extracted.antt =====
-- The workspaces that port_verb.py extracts from a script.
use ros_team_workspace.Base.{
  String, ◌≡◌, refl, ap, sym, ◌∙◌, Option, none, some, List, [], ◌∷◌, All, true, false, Bool,
  Bool-cases, inl, inr, if◌then◌else◌, ◌==◌, eq_iff,
}
use ros_team_workspace.Base.Dict.{Dict, insert}
use ros_team_workspace.Base.Result.{Result, Error, ok, raised, ◌>>=◌ as ◌>>?◌}
use ros_team_workspace.Workspace.{Workspace, IsValid, post_init}
use ros_team_workspace.Workspace.Validation.{post_init-IsValid, post_init-ws_name}
use ros_team_workspace.Port.{
  Variables, ported_ws, raw_from, with_key, raw_of_function, raw_workspace, add_ported,
  extract_functions, extract_workspaces,
}
use ros_team_workspace.Port.Functions.{find_functions}

-- A valid workspace that stands under its own name.
abbrev pub Own : String × Workspace → Type 0
Own (name, ws) = IsValid ws × (ws.ws_name ≡ name)

insert-Own :
    (name : String) (ws : Workspace) (d : Dict Workspace)
    → Own (name, ws)
    → All Own d
    → All Own (insert name ws d)
unfolding insert
insert-Own name ws [] own all = (own, tt)
insert-Own name ws ((k, v) ∷ d) own (first, rest) = elim (Bool-cases (k == name)) [
  | inl same ↦ rw same ((own.0, own.1 ∙ sym ((eq_iff k name).0 same)), rest)
  | inr other ↦ rw other (first, insert-Own name ws d own rest)
]

raw_from-name :
    (n : String) (variables : Variables) (distro folder tag : Option String) (raw : Workspace)
    → raw_from n variables distro folder tag ≡ some raw
    → raw.ws_name ≡ n
unfolding raw_from
raw_from-name n variables (some d) (some f) (some t) raw h = ap name_of (sym (inside h))
  where
    name_of : Workspace → String
    name_of ws = ws.ws_name

    inside :
        Path (Option Workspace) (some (ported_ws n d f variables t)) (some raw)
        → ported_ws n d f variables t ≡ raw
    inside e = cc e
raw_from-name n variables none f t raw h = absurd (cc h)
raw_from-name n variables (some d) none t raw h = absurd (cc h)
raw_from-name n variables (some d) (some f) none raw h = absurd (cc h)

-- A contribution whose workspace has the name that it stands under.
abbrev Named : Option (String × Workspace) → Type 0
Named none = Unit
Named (some (name, raw)) = raw.ws_name ≡ name

with_key-Named :
    (b : Bool) (n : String) (raw : Option Workspace)
    → ((r : Workspace) → raw ≡ some r → r.ws_name ≡ n)
    → Named (with_key b n raw)
with_key-Named false n raw names = tt
with_key-Named true n none names = tt
with_key-Named true n (some r) names = names r refl

function-Named : (f : String × String) → Named (raw_of_function f)
unfolding raw_of_function raw_workspace
function-Named (name, body) = with_key-Named _ _ _ λ r h. raw_from-name _ _ _ _ _ r h

-- A result that is no error has only own workspaces.
abbrev Extracted : Result (Dict Workspace) → Type 0
Extracted (ok d) = All Own d
Extracted (raised e) = Unit

inserted-Extracted :
    (name : String) (raw : Workspace) (d : Dict Workspace) (r : Result Workspace)
    → post_init raw ≡ r
    → raw.ws_name ≡ name
    → All Own d
    → Extracted (r >>? λ ws. ok (insert name ws d))
inserted-Extracted name raw d (raised e) made named all = tt
inserted-Extracted name raw d (ok ws) made named all =
    insert-Own name ws d (post_init-IsValid raw ws made, post_init-ws_name raw ws made ∙ named) all

add_ported-Extracted :
    (found : Option (String × Workspace)) (d : Dict Workspace)
    → Named found
    → All Own d
    → Extracted (add_ported found d)
unfolding add_ported
add_ported-Extracted none d named all = all
add_ported-Extracted (some (name, raw)) d named all =
    inserted-Extracted name raw d (post_init raw) refl named all

then-Extracted :
    (r : Result (Dict Workspace)) (k : Dict Workspace → Result (Dict Workspace))
    → Extracted r
    → ((d : Dict Workspace) → All Own d → Extracted (k d))
    → Extracted (r >>? k)
then-Extracted (ok d) k all go_on = go_on d all
then-Extracted (raised e) k all go_on = tt

functions-Extracted :
    (fs : List (String × String)) (d : Dict Workspace)
    → All Own d
    → Extracted (extract_functions fs d)
unfolding extract_functions
functions-Extracted [] d all = all
functions-Extracted (f ∷ fs) d all =
    then-Extracted (add_ported (raw_of_function f) d) _
      (add_ported-Extracted (raw_of_function f) d (function-Named f) all)
      λ d' all'. functions-Extracted fs d' all'

if-Extracted :
    (b : Bool) (e : Error) (r : Result (Dict Workspace))
    → Extracted r
    → Extracted (if b then raised e else r)
if-Extracted true e r all = tt
if-Extracted false e r all = all

script-Extracted : (script : String) → Extracted (extract_workspaces script)
unfolding extract_workspaces
script-Extracted script = if-Extracted _ _ _ (functions-Extracted (find_functions script) [] tt)

-- Whatever the script is, the workspaces that are extracted from it are valid and stand under their
-- own names.
pub extract_workspaces-Own :
    (script : String) (workspaces : Dict Workspace)
    → extract_workspaces script ≡ ok workspaces
    → All Own workspaces
extract_workspaces-Own script workspaces got = rw got at (script-Extracted script)
