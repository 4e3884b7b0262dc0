-- ===== src/Script/Variables.antt =====
-- The two conversions in workspace_utils.py between the fields of a workspace and environment variables.
use ros_team_workspace.Base.{
  String, ◌<>◌, ◌≡◌, refl, ap, Bool, true, false, ◌||◌, none, some, List, [], ◌∷◌, ◌==◌, arith,
  eq_iff, contains, All,
}
use ros_team_workspace.Base.Text.{upper, lower, replace, replace_from}
use ros_team_workspace.Workspace.{get_expected_ws_field_names}
use ros_team_workspace.Script.{
  WsValue, text, flag, texts, ros_team_ws_prefix, env_var_to_workspace_var,
  workspace_var_to_env_var,
}

-- A value that a variable can hold: no list, and no text that reads as a flag.
abbrev pub IsPlain : WsValue → Type 0
IsPlain (text none) = Unit
IsPlain (text (some s)) = (Path Bool (s == "false") false) × (Path Bool (s == "true") false)
IsPlain (flag b) = Unit
IsPlain (texts xs) = ⊥

-- The variable read back.
abbrev pub read_back : String × WsValue → String × WsValue
read_back (name, text value) = env_var_to_workspace_var name value
read_back (name, value) = (name, value)

All-contains :
    (P : String → Type 0) (xs : List String) (f : String) → All P xs → contains xs f ≡ true → P f
All-contains P [] f each inside = absurd (cc inside)
All-contains P (x ∷ xs) f (first, each) inside =
    from (x == f) refl (All-contains P xs f each) inside
  where
    same : x == f ≡ true → x ≡ f
    same h = ground (arith, eq_iff x f)

    from :
        (b : Bool) → x == f ≡ b → (contains xs f ≡ true → P f) → (b || contains xs f) ≡ true → P f
    from true h rest e = rw (same h) at first
    from false h rest e = rest e

NameBack : String → Type 0
NameBack f = lower (replace (ros_team_ws_prefix <> upper f) ros_team_ws_prefix "") ≡ f

names_back : All NameBack get_expected_ws_field_names
unfolding lower upper replace_from NameBack
names_back = (refl, (refl, (refl, (refl, (refl, (refl, (refl, (refl, (refl, (refl, tt))))))))))

-- A field of a workspace with a value that is no list and no text `true` or `false` is read back from its variable as it was.
pub env_var_to_workspace_var-workspace_var_to_env_var :
    (ws_var : String) (value : WsValue)
    → contains get_expected_ws_field_names ws_var ≡ true
    → IsPlain value
    → read_back (workspace_var_to_env_var ws_var value) ≡ (ws_var, value)
unfolding env_var_to_workspace_var workspace_var_to_env_var NameBack
env_var_to_workspace_var-workspace_var_to_env_var ws_var value known plain =
    from value plain (All-contains NameBack get_expected_ws_field_names ws_var names_back known)
  where
    from :
        (v : WsValue)
        → IsPlain v
        → NameBack ws_var
        → read_back (workspace_var_to_env_var ws_var v) ≡ (ws_var, v)
    from (text none) p name = ap (λ n. (n, text none)) name
    from (text (some s)) (not_false, not_true) name =
        rw (not_false, not_true) (ap (λ n. (n, text (some s))) name)
    from (flag true) p name = ap (λ n. (n, flag true)) name
    from (flag false) p name = ap (λ n. (n, flag false)) name
    from (texts xs) p name = absurd p
