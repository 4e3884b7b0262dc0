-- ===== src/Command/Suppress/Restored.antt =====
-- Leaving `SuppressUsageOutput` gives the parsers their methods back.
use ros_team_workspace.Base.{String, ◌≡◌, false, Option, none, some, List, [], ◌∷◌, contains}
use ros_team_workspace.Base.Dict.{Dict}
use ros_team_workspace.Base.Result.{Result}
use ros_team_workspace.Command.Suppress.{Callbacks, suppressed}

-- The first value that there is.
abbrev pub or_else : Option Callbacks → Option Callbacks → Option Callbacks
or_else none d = d
or_else (some c) d = some c

abbrev pub suppressed_if_there : Option Callbacks → Option Callbacks
suppressed_if_there none = none
suppressed_if_there (some c) = some (suppressed c)

-- No parser twice, as in a set.
abbrev pub Nodup : List String → Type 0
Nodup [] = Unit
Nodup (p ∷ ps) = (contains ps p ≡ false) × Nodup ps
