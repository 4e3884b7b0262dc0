-- ===== src/Arguments/Dataclasses.antt =====
-- The dataclasses of the create and the import verb.
use ros_team_workspace.Base.{String, ◌≡◌, refl, List, []}
use ros_team_workspace.Base.Dict.{Dict, lookup}
use ros_team_workspace.Base.Text.{replace_from, strip_left}
use ros_team_workspace.Base.Result.{ok}
use ros_team_workspace.Host.{Host, Trace}
use ros_team_workspace.Host.Prog.{◌>>=◌}
use ros_team_workspace.Create.Repos.{create_post_init}
use ros_team_workspace.Create.Instance.{create_args_of, create_verb_args}
use ros_team_workspace.Arguments.{Value, with_entries}
use ros_team_workspace.Arguments.Typed.{IsParsed, IsTyped, dataclass_init-IsTyped}
use ros_team_workspace.Create.Arguments.{
  create_arguments, create_fields, create_entries, create_verb_init,
}
use ros_team_workspace.Import.Arguments.{import_arguments, import_fields, import_verb_args}

fields_of :
    (H : Host) (create_dict : Dict Value) (ws_name ws_folder : String) (env_vars : List String)
    → IsParsed (create_arguments H) create_dict
    → (d : Dict Value) × (create_verb_init H create_dict ws_name ws_folder env_vars ≡ ok d)
      × IsTyped create_fields d
unfolding create_verb_init with_entries lookup replace_from strip_left
fields_of H create_dict ws_name ws_folder env_vars created =
    dataclass_init-IsTyped (create_arguments H) create_dict
      (create_entries H ws_name ws_folder env_vars) create_fields created refl refl

-- Whatever command line argparse parses by the declared arguments of the create and the import verb: the dataclasses of both
-- accept the filtered arguments, each field gets a value of its annotated type, where a text may be `None`, and what
-- `CreateVerbArgs(**filtered_args)` then does, its errors included, is the `__post_init__` of the instance with these values.
pub verb_args-IsTyped :
    (H : Host) (create_dict import_dict : Dict Value) (ws_name ws_folder : String)
    (env_vars : List String) (t : Trace)
    → IsParsed (create_arguments H) create_dict
    → IsParsed (import_arguments H) import_dict
    → ((d : Dict Value) × IsTyped create_fields d
        × (create_verb_init H create_dict ws_name ws_folder env_vars ≡ ok d)
        × (create_verb_args H create_dict ws_name ws_folder env_vars t
            ≡ create_post_init H (create_args_of d) t))
      × ((d : Dict Value) × (import_verb_args import_dict ≡ ok d) × IsTyped import_fields d)
unfolding create_verb_args import_verb_args with_entries lookup replace_from strip_left ◌>>=◌
verb_args-IsTyped H create_dict import_dict ws_name ws_folder env_vars t created imported =
    let (d, made, typed) = fields_of H create_dict ws_name ws_folder env_vars created in
    (
      (d, typed, made, rw made refl),
      dataclass_init-IsTyped (import_arguments H) import_dict [] import_fields imported refl refl,
    )
