-- ===== src/Workspace/Validation.antt =====
-- `Workspace.__post_init__` establishes the invariant, and changes no workspace that has it.
use ros_team_workspace.Base.{String, ◌≡◌, refl, ap, true, Option, none, some, arith}
use ros_team_workspace.Base.{is_set, is_given}
use ros_team_workspace.Base.Result.{ok}
use ros_team_workspace.Workspace.{
  Workspace, IsValid, IsNormal, empty_to_none, is_abs, normalize, validate, post_init,
}

empty_to_none-IsNormal : (o : Option String) → IsNormal (empty_to_none o)
empty_to_none-IsNormal none = refl
empty_to_none-IsNormal (some s) = ground arith

-- What the checks let through, one fact for each check.
record Checked (ws r : Workspace) : Type 0 where
  same : r ≡ ws
  named : is_set ws.ws_name ≡ true
  has_distro : is_set ws.distro ≡ true
  folder_abs : is_given ws.ws_folder ≡ true → is_abs ws.ws_folder ≡ true
  standalone_folder : ws.standalone ≡ true → is_given ws.ws_folder ≡ true
  docker_tagged : ws.ws_docker_support ≡ true → is_given ws.docker_tag ≡ true
  docker_contained : ws.ws_docker_support ≡ true → is_given ws.docker_container_name ≡ true

validate-Checked : (ws r : Workspace) → validate ws ≡ ok r → Checked ws r
unfolding validate
validate-Checked ws r h = ground arith

Checked-IsValid : (ws r : Workspace) → Checked (normalize ws) r → IsValid r
unfolding normalize
Checked-IsValid ws r c = rw c.same (record {
  named = c.named;
  has_distro = c.has_distro;
  folder_normal = empty_to_none-IsNormal ws.ws_folder;
  tag_normal = empty_to_none-IsNormal ws.docker_tag;
  container_normal = empty_to_none-IsNormal ws.docker_container_name;
  base_normal = empty_to_none-IsNormal ws.base_ws;
  folder_abs = c.folder_abs;
  standalone_folder = c.standalone_folder;
  docker_tagged = c.docker_tagged;
  docker_contained = c.docker_contained;
})

-- A workspace that `__post_init__` lets through satisfies the invariant.
pub post_init-IsValid : (ws r : Workspace) → post_init ws ≡ ok r → IsValid r
unfolding post_init
post_init-IsValid ws r h = Checked-IsValid ws r (validate-Checked (normalize ws) r h)

-- A workspace that satisfies the invariant passes `__post_init__` unchanged.
pub post_init_id : (ws : Workspace) → IsValid ws → post_init ws ≡ ok ws
unfolding post_init
post_init_id ws v = ground arith

-- `__post_init__` keeps the name.
pub post_init-ws_name : (ws r : Workspace) → post_init ws ≡ ok r → r.ws_name ≡ ws.ws_name
unfolding post_init normalize
post_init-ws_name ws r h = let c = validate-Checked (normalize ws) r h in ap (λ v. v.ws_name) c.same

-- A workspace that `__post_init__` lets through satisfies the invariant, and passes it again unchanged.
pub post_init-Settles : (ws r : Workspace) → post_init ws ≡ ok r → IsValid r × (post_init r ≡ ok r)
post_init-Settles ws r h = let v = post_init-IsValid ws r h in (v, post_init_id r v)
