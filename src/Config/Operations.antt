-- ===== src/Config/Operations.antt =====
-- `add_workspace` and `remove_workspace` as operations on a finite map from names to workspaces.
use ros_team_workspace.Base.{String, ◌≡◌, true, false, Option, none, some, [], ◌∷◌, arith}
use ros_team_workspace.Base.{◌⊎◌, ◌↔◌, ◌≢◌, eq_iff, ◌==◌, if◌then◌else◌, Option-cases, inl, inr}
use ros_team_workspace.Base.Dict.{
  Dict, lookup, erase, lookup-insert, lookup-erase, insert-NodupKeys, erase-NodupKeys,
  erase-insert_fresh, has_key,
}
use ros_team_workspace.Workspace.{Workspace, IsValid}
use ros_team_workspace.Config.{WorkspacesConfig, add_workspace, remove_workspace}
use ros_team_workspace.Config.RoundTrip.{IsConfig, AllValid, insert-AllValid}

-- `config.workspaces.get(name)`: the abstract view of a configuration.
unfoldable pub workspace_at : WorkspacesConfig → String → Option Workspace
workspace_at c name = lookup name c.workspaces

-- `add_workspace` succeeds exactly for a new name. It then stores the workspace under its name and
-- changes no other entry; otherwise the configuration is unchanged.
add_workspace_effect :
    (ws : Workspace) (c : WorkspacesConfig)
    → ((workspace_at c ws.ws_name ≡ none)
        × ((add_workspace ws c).0 ≡ true)
        × ((name : String)
            → workspace_at (add_workspace ws c).1 name
              ≡ (if ws.ws_name == name then some ws else workspace_at c name)))
      ⊎ ((old : Workspace) × (workspace_at c ws.ws_name ≡ some old)
          × (add_workspace ws c ≡ (false, c)))
unfolding add_workspace workspace_at
add_workspace_effect ws c = elim (Option-cases (lookup ws.ws_name c.workspaces)) [
  | inl fresh ↦ inl (
    fresh,
    rw (fresh, has_key),
    λ name. rw (fresh, has_key) (lookup-insert name ws.ws_name ws c.workspaces),
  )
  | inr (old, there) ↦ inr (old, there, rw (there, has_key))
]

-- `remove_workspace` succeeds exactly for a known name. After it the name is unknown and every other
-- entry is what it was, whether it succeeds or not.
remove_workspace_effect :
    (name : String) (c : WorkspacesConfig)
    → (((remove_workspace name c).0 ≡ true) ↔ (workspace_at c name ≢ none))
      × ((other : String)
          → workspace_at (remove_workspace name c).1 other
            ≡ (if name == other then none else workspace_at c other))
unfolding remove_workspace workspace_at
remove_workspace_effect name c =
    (ground arith, λ other. ground (arith, lookup-erase other name c.workspaces, eq_iff name other))

-- `add_workspace` succeeds exactly for a new name, then stores the workspace under its name and changes no other entry;
-- otherwise the configuration is unchanged. `remove_workspace` succeeds exactly for a known name; after it the name is unknown
-- and every other entry is what it was.
pub operations_effect :
    (ws : Workspace) (name : String) (c : WorkspacesConfig)
    → (((workspace_at c ws.ws_name ≡ none)
          × ((add_workspace ws c).0 ≡ true)
          × ((other : String)
              → workspace_at (add_workspace ws c).1 other
                ≡ (if ws.ws_name == other then some ws else workspace_at c other)))
        ⊎ ((old : Workspace) × (workspace_at c ws.ws_name ≡ some old)
            × (add_workspace ws c ≡ (false, c))))
      × (((remove_workspace name c).0 ≡ true) ↔ (workspace_at c name ≢ none))
      × ((other : String)
          → workspace_at (remove_workspace name c).1 other
            ≡ (if name == other then none else workspace_at c other))
operations_effect ws name c =
    let (known, entries) = remove_workspace_effect name c in
    (add_workspace_effect ws c, known, entries)

-- Removing a workspace that was just added gives back the configuration as it was, order included.
pub remove_workspace-add_workspace :
    (ws : Workspace) (c : WorkspacesConfig)
    → (add_workspace ws c).0 ≡ true
    → remove_workspace ws.ws_name (add_workspace ws c).1 ≡ (true, c)
unfolding add_workspace remove_workspace
remove_workspace-add_workspace ws c added = ground (
  arith,
  erase-insert_fresh ws.ws_name ws c.workspaces,
  lookup-insert ws.ws_name ws.ws_name ws c.workspaces,
  eq_iff ws.ws_name ws.ws_name,
)

erase-AllValid : (k : String) (d : Dict Workspace) → AllValid d → AllValid (erase k d)
unfolding erase
erase-AllValid k [] valid = tt
erase-AllValid k ((j, ws) ∷ d) (v, valid) = ground (arith, erase-AllValid k d valid)

-- Adding a valid workspace and removing any name keep the configuration well formed.
pub operations-IsConfig :
    (ws : Workspace) (name : String) (c : WorkspacesConfig)
    → IsValid ws
    → IsConfig c
    → IsConfig (add_workspace ws c).1 × IsConfig (remove_workspace name c).1
unfolding add_workspace remove_workspace
operations-IsConfig ws name c v h = (
  ground (
    arith,
    insert-NodupKeys ws.ws_name ws c.workspaces h.nodup,
    insert-AllValid ws.ws_name ws c.workspaces v h.valid,
  ),
  ground
      (arith, erase-NodupKeys name c.workspaces h.nodup, erase-AllValid name c.workspaces h.valid),
)

pub add_workspace-fresh :
    (ws : Workspace) (c : WorkspacesConfig)
    → (add_workspace ws c).0 ≡ true
    → workspace_at c ws.ws_name ≡ none
unfolding add_workspace workspace_at
add_workspace-fresh ws c h = ground arith

pub add_workspace-entries :
    (ws : Workspace) (c : WorkspacesConfig)
    → workspace_at c ws.ws_name ≡ none
    → (name : String)
    → workspace_at (add_workspace ws c).1 name
      ≡ (if ws.ws_name == name then some ws else workspace_at c name)
unfolding add_workspace workspace_at
add_workspace-entries ws c fresh name =
    rw (fresh, has_key) (lookup-insert name ws.ws_name ws c.workspaces)
