-- ===== src/Import/Fails.antt =====
-- import_verb.py: what becomes of an import.
use ros_team_workspace.Base.{◌≡◌, refl, []}
use ros_team_workspace.Base.Dict.{Dict, lookup, keys}
use ros_team_workspace.Base.Text.{replace_from, strip_left}
use ros_team_workspace.Base.Result.{raised, exception, attribute_error}
use ros_team_workspace.Host.{Host, Trace}
use ros_team_workspace.Host.Prog.{◌>>=◌}
use ros_team_workspace.Arguments.{Value, field_names, with_entries}
use ros_team_workspace.Arguments.Typed.{IsParsed, dataclass_init-IsTyped}
use ros_team_workspace.Import.Arguments.{import_arguments, import_fields, import_verb_args}
use ros_team_workspace.Import.{
  ImportArgs, attributes, import_args_of, import_main, import_instance_fails,
}

-- The attributes are those of the declared fields.
attributes-fields : (a : ImportArgs) → keys (attributes a) ≡ field_names import_fields
unfolding attributes
attributes-fields a = refl

-- The import verb never imports anything: whatever command line argparse parses by the declared arguments, and whatever the
-- machine, the fields of `ImportVerbArgs` get their values, and the verb then ends in an `AttributeError` before its first call.
pub import_main_fails :
    (H : Host) (args_dict : Dict Value) (t : Trace)
    → IsParsed (import_arguments H) args_dict
    → import_main H args_dict t
      ≡ (raised (exception attribute_error "'ImportVerbArgs' object has no attribute 'devices'"), t)
unfolding import_main import_verb_args with_entries lookup replace_from strip_left ◌>>=◌
import_main_fails H args_dict t parsed =
    let (d, made, typed) =
      dataclass_init-IsTyped (import_arguments H) args_dict [] import_fields parsed refl refl in
    rw made (import_instance_fails H (import_args_of d) t)
