-- ===== src/Config/RoundTrip.antt =====
-- `WorkspacesConfig.from_dict` reads back what `to_dict` wrote.
use mathlib.Core.Path.{subst}
use ros_team_workspace.Config.{or_default, workspaces_key, bind_fields}
use mathlib.Core.List.{append_assoc, append-nil}
use ros_team_workspace.Base.{String, ◌≡◌, refl, ◌∙◌, none, some, [], ◌∷◌, ◌++◌, map, arith}
use ros_team_workspace.Base.{eq_iff, ◌==◌, Bool-cases, inl, inr}
use ros_team_workspace.Base.Dict.{insert-NodupKeys}
use ros_team_workspace.Base.Result.{first_of_bind}
use ros_team_workspace.Config.{Document}
use ros_team_workspace.Base.Dict.{Dict, lookup, insert, NodupKeys, insert_fresh, lookup-insert}
use ros_team_workspace.Base.Result.{ok}
use ros_team_workspace.Workspace.{Workspace, IsValid, post_init}
use ros_team_workspace.Workspace.Validation.{post_init_id, post_init-IsValid}
use ros_team_workspace.Config.{
  WorkspacesConfig, WsData, ws_to_dict, workspace_of, with_name, read_workspaces, from_dict,
  to_dict,
}

-- Every stored workspace satisfies the dataclass invariant.
abbrev pub AllValid : Dict Workspace → Type 0
AllValid [] = Unit
AllValid ((k, ws) ∷ d) = IsValid ws × AllValid d

-- Built configurations: no name twice, and every workspace valid.
pub record IsConfig (c : WorkspacesConfig) : Type 0 where
  pub nodup : NodupKeys c.workspaces
  pub valid : AllValid c.workspaces

workspace_of-to_dict :
    (k : String) (ws : Workspace) → IsValid ws → workspace_of (with_name k (ws_to_dict ws)) ≡ ok ws
unfolding workspace_of with_name ws_to_dict
workspace_of-to_dict k ws v = post_init_id ws v

-- No key of the second dict is in the first.
abbrev Apart : Dict Workspace → Dict Workspace → Type 0
Apart acc [] = Unit
Apart acc ((k, ws) ∷ d) = (lookup k acc ≡ none) × Apart acc d

Apart-nil : (d : Dict Workspace) → Apart [] d
unfolding lookup
Apart-nil [] = tt
Apart-nil ((k, ws) ∷ d) = (refl, Apart-nil d)

Apart-insert :
    (k : String) (ws : Workspace) (acc d : Dict Workspace)
    → lookup k d ≡ none
    → Apart acc d
    → Apart (insert k ws acc) d
unfolding lookup
Apart-insert k ws acc [] fresh apart = tt
Apart-insert k ws acc ((j, w) ∷ d) fresh (here, rest) =
    ground (arith, eq_iff k j, eq_iff j k, lookup-insert j k ws acc, Apart-insert k ws acc d)

read_workspaces-to_dict :
    (d acc : Dict Workspace)
    → NodupKeys d
    → AllValid d
    → Apart acc d
    → read_workspaces (map (λ (k, ws). (k, ws_to_dict ws)) d) acc ≡ ok (acc ++ d)
unfolding read_workspaces
read_workspaces-to_dict [] acc nodup valid apart = rw append-nil
read_workspaces-to_dict ((k, ws) ∷ d) acc (fresh, nodup) (v, valid) (here, apart) =
    rw (workspace_of-to_dict k ws v) (
      read_workspaces-to_dict d (insert k ws acc) nodup valid (Apart-insert k ws acc d fresh apart)
      ∙ rw (insert_fresh k ws acc here, append_assoc))

-- For a configuration with no name twice and only valid workspaces, `from_dict` of `to_dict` gives it back, in the same order.
pub from_dict-to_dict : (c : WorkspacesConfig) → IsConfig c → from_dict (to_dict c) ≡ ok c
unfolding from_dict to_dict lookup
from_dict-to_dict c h =
    rw (read_workspaces-to_dict c.workspaces [] h.nodup h.valid (Apart-nil c.workspaces))

pub insert-AllValid :
    (k : String) (ws : Workspace) (d : Dict Workspace)
    → IsValid ws
    → AllValid d
    → AllValid (insert k ws d)
unfolding insert
insert-AllValid k ws [] v valid = (v, tt)
insert-AllValid k ws ((j, w) ∷ d) v (head, valid) = elim (Bool-cases (j == k)) [
  | inl same ↦ rw same (v, valid)
  | inr other ↦ rw other (head, insert-AllValid k ws d v valid)
]

workspace_of-IsValid : (d : WsData) (ws : Workspace) → workspace_of d ≡ ok ws → IsValid ws
unfolding workspace_of
workspace_of-IsValid d ws h =
    let (raw, bound, made) = first_of_bind post_init (bind_fields d) h in
    post_init-IsValid raw ws made

read_workspaces-IsConfig :
    (d : Dict WsData) (acc r : Dict Workspace)
    → IsConfig (record { workspaces = acc })
    → read_workspaces d acc ≡ ok r
    → IsConfig (record { workspaces = r })
unfolding read_workspaces
read_workspaces-IsConfig [] acc r ready h =
    subst (λ d. IsConfig (record { workspaces = d })) (cc) ready
read_workspaces-IsConfig ((k, d) ∷ rest) acc r ready h =
    let (ws, made, more) = first_of_bind _ (workspace_of (with_name k d)) h in
    read_workspaces-IsConfig rest (insert k ws acc) r
      (record {
        nodup = insert-NodupKeys k ws acc ready.nodup;
        valid = insert-AllValid k ws acc (workspace_of-IsValid (with_name k d) ws made) ready.valid;
      })
      more

abbrev stored : Dict (Dict WsData) → Dict WsData
stored document = or_default (lookup workspaces_key document) []

empty-IsConfig : IsConfig (record { workspaces = [] })
empty-IsConfig = record { nodup = tt; valid = tt }

-- Whatever the document says, a configuration that is read has no name twice and only valid
-- workspaces.
pub from_dict-IsConfig :
    (document : Document) (c : WorkspacesConfig) → from_dict document ≡ ok c → IsConfig c
unfolding from_dict
from_dict-IsConfig none c h = subst IsConfig (cc) empty-IsConfig
from_dict-IsConfig (some document) c h =
    let (d, done, wrapped) = first_of_bind _ (read_workspaces (stored document) []) h in
    subst IsConfig (cc) (read_workspaces-IsConfig (stored document) [] d empty-IsConfig done)
