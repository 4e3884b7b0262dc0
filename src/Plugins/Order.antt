-- ===== src/Plugins/Order.antt =====
-- rtwcli/rtwcli/rtwcli/plugin_system.py: the order of extensions.
use ros_team_workspace.Base.{String, Bool, false, [], ◌∷◌, if◌then◌else◌}
use ros_team_workspace.Base.Dict.{Dict}
use ros_team_workspace.Base.Sort.{comes_first}

-- One step of a sort that keeps the order of entries with the same key.
unfoldable pub place {ℓ} :
    {V : Type ℓ} → (String × V → String) → Bool → String × V → Dict V → Dict V
place key_function reverse x [] = x ∷ []
place key_function reverse x (y ∷ d) =
    let first =
      if reverse
      then comes_first (key_function y) (key_function x)
      else comes_first (key_function x) (key_function y) in
    if first then x ∷ y ∷ d else y ∷ place key_function reverse x d

-- `sorted(extensions.items(), key=key_function, reverse=reverse)`
unfoldable pub order_extensions {ℓ} : {V : Type ℓ} → Dict V → (String × V → String) → Bool → Dict V
unfolding place
order_extensions [] key_function reverse = []
order_extensions (x ∷ d) key_function reverse =
    place key_function reverse x (order_extensions d key_function reverse)

abbrev name_of {ℓ} : {V : Type ℓ} → String × V → String
name_of (name, extension) = name

unfoldable pub order_extensions_by_name {ℓ} : {V : Type ℓ} → Dict V → Dict V
unfolding order_extensions
order_extensions_by_name extensions = order_extensions extensions name_of false
