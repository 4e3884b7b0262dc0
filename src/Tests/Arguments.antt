-- ===== src/Tests/Arguments.antt =====
-- The defaults of the arguments of the create and the import verb.
use ros_team_workspace.Base.{◌≡◌, refl, true, none, [], ◌∷◌}
use ros_team_workspace.Base.Dict.{Dict}
use ros_team_workspace.Base.Text.{replace_from, strip_left}
use ros_team_workspace.Base.Result.{ok}
use ros_team_workspace.Host.{Host}
use ros_team_workspace.Arguments.{Value}
use ros_team_workspace.Arguments.Typed.{IsTyped}
use ros_team_workspace.Arguments.Defaults.{defaults_of, is_declaration, defaults_of-IsParsed}
use ros_team_workspace.Arguments.Dataclasses.{verb_args-IsTyped}
use ros_team_workspace.Create.Arguments.{create_arguments, create_fields, create_verb_init}
use ros_team_workspace.Create.Instance.{create_args_of, create_verb_args}
use ros_team_workspace.Create.Repos.{create_post_init}
use ros_team_workspace.Import.Arguments.{import_arguments, import_fields, import_verb_args}
use ros_team_workspace.Tests.Machine.{smooth}

create_declared : (H : Host) → is_declaration (create_arguments H) ≡ true
unfolding replace_from strip_left
create_declared H = refl

import_declared : (H : Host) → is_declaration (import_arguments H) ≡ true
unfolding replace_from strip_left
import_declared H = refl

abbrev machine : Host
machine = smooth none

verb_args-IsTyped_example :
    ((d : Dict Value) × IsTyped create_fields d
      × (create_verb_init machine (defaults_of (create_arguments machine)) "ws" "/ws" ("A=1" ∷ [])
          ≡ ok d)
      × (create_verb_args machine
            (defaults_of (create_arguments machine))
            "ws"
            "/ws"
            ("A=1" ∷ [])
            []
          ≡ create_post_init machine (create_args_of d) []))
    × ((d : Dict Value) × (import_verb_args (defaults_of (import_arguments machine)) ≡ ok d)
        × IsTyped import_fields d)
verb_args-IsTyped_example =
    verb_args-IsTyped machine (defaults_of (create_arguments machine))
      (defaults_of (import_arguments machine)) "ws" "/ws" ("A=1" ∷ []) []
      (defaults_of-IsParsed (create_arguments machine) (create_declared machine))
      (defaults_of-IsParsed (import_arguments machine) (import_declared machine))
