-- ===== src/Site/Known.antt =====
-- For which branches the configuration in docs/conf.py can be rewritten.
use ros_team_workspace.Base.{◌≡◌, Bool, true, false, ◌||◌, ◌==◌, arith}
use ros_team_workspace.Base.Result.{Result, ok, raised}
use ros_team_workspace.Site.Branches.{Config, smv_branch_whitelist, smv_rewrite_configs}

abbrev pub is_ok : {A : Type 0} → Result A → Bool
is_ok (ok a) = true
is_ok (raised e) = false

-- `smv_rewrite_configs` returns exactly for the branches of the whitelist and where there is no branch; for every other
-- branch it raises.
pub smv_rewrite_configs-known :
    (config : Config)
    → is_ok (smv_rewrite_configs config)
      ≡ (config.smv_current_version == "" || smv_branch_whitelist config.smv_current_version)
unfolding smv_rewrite_configs
smv_rewrite_configs-known config = ground (arith)
