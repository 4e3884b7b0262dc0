-- ===== src/Arguments.antt =====
-- The arguments that the verbs declare to argparse, and the dataclasses that are made from what it parses.
pub mod Typed
pub mod Defaults
pub mod Dataclasses
pub mod Verbs
use ros_team_workspace.Base.{
  ℕ, String, ◌<>◌, Bool, true, false, not, ◌&&◌, Option, none, some, List, [], ◌∷◌, ◌==◌,
  starts_with, contains, if◌then◌else◌, map,
}
use ros_team_workspace.Base.Dict.{Dict, lookup, insert}
use ros_team_workspace.Base.Text.{strip_left, replace}
use ros_team_workspace.Base.Result.{Result, ok, raised, exception, type_error, ◌>>=◌}

-- What an argument or a field can be: a text, a truth value, a list of texts, or a dict of texts.
pub data Shape : Type 0 where
  text_shape flag_shape texts_shape dict_shape : Shape

pub data Value : Type 0 where
  none_value : Value
  text : String → Value
  flag : Bool → Value
  texts : List String → Value
  dict : Dict (Option String) → Value

-- A call of `add_argument`, without its help: an option with `--`, or a positional argument. The shape is `flag_shape` for the
-- action `store_true`, and `texts_shape` for `nargs="*"`.
pub record Argument : Type 0 where
  pub flag_name : String
  -- The short forms.
  pub aliases : List String
  pub dest : Option String
  pub shape : Shape
  pub required : Bool
  pub default : Value
  pub choices : List String

abbrev pub optional : String → Value → Argument
optional flag_name default = record {
  flag_name = flag_name;
  aliases = [];
  dest = none;
  shape = text_shape;
  required = false;
  default = default;
  choices = [];
}

abbrev pub required_text : String → List String → Argument
required_text flag_name choices = record (optional flag_name none_value) {
  required = true;
  choices = choices;
}

-- Without a default, `store_true` has `False`.
abbrev pub switch : String → Argument
switch flag_name = record (optional flag_name (flag false)) { shape = flag_shape }

abbrev pub several : String → List String → Argument
several flag_name default = record (optional flag_name (texts default)) { shape = texts_shape }

-- The key in the namespace: the given one, or the option's name with underscores.
abbrev pub given_dest : Option String → String → String
given_dest (some dest) flag_name = dest
given_dest none flag_name =
    if starts_with flag_name "-" then replace (strip_left "-" flag_name) "-" "_" else flag_name

abbrev pub dest_of : Argument → String
dest_of a = given_dest a.dest a.flag_name

-- The value has the type. A text may be missing.
abbrev pub fits : Shape → Value → Bool
fits text_shape none_value = true
fits text_shape (text s) = true
fits flag_shape (flag b) = true
fits texts_shape (texts xs) = true
fits dict_shape (dict d) = true
fits shape value = false

-- A field of a dataclass, with its annotation.
pub record Field : Type 0 where
  pub name : String
  pub annotation : Shape
  pub default : Option Value

abbrev pub field : String → Shape → Field
field name annotation = record { name = name; annotation = annotation; default = none }

abbrev pub field_or : String → Shape → Value → Field
field_or name annotation default = record (field name annotation) { default = some default }

abbrev pub field_names : List Field → List String
field_names = map λ f. f.name

abbrev pub put_found : String → Option Value → Dict Value → Dict Value
put_found key none d = d
put_found key (some v) d = (key, v) ∷ d

-- The entries of the namespace with these keys, in this order; Python takes the order of a set.
unfoldable pub entries_of : Dict Value → List String → Dict Value
entries_of args_dict [] = []
entries_of args_dict (key ∷ keys) = put_found key (lookup key args_dict) (entries_of args_dict keys)

unfoldable pub get_filtered_args : Dict Value → List Field → Dict Value
unfolding entries_of
get_filtered_args args_dict dataclass_fields = entries_of args_dict (field_names dataclass_fields)

-- `filtered_args[key] = value`, the last one first.
unfoldable pub with_entries : Dict Value → Dict Value → Dict Value
with_entries filtered_args [] = filtered_args
with_entries filtered_args ((key, value) ∷ rest) =
    insert key value (with_entries filtered_args rest)

abbrev pub known_keys : List String → Dict Value → Bool
known_keys names [] = true
known_keys names ((key, value) ∷ rest) = contains names key && known_keys names rest

abbrev pub or_default : String → Option Value → Option Value → Result Value
or_default name (some v) default = ok v
or_default name none (some v) = ok v
or_default name none none =
    raised (exception type_error ("missing required argument: '" <> name <> "'"))

unfoldable pub field_values : List Field → Dict Value → Result (Dict Value)
field_values [] kwargs = ok []
field_values (f ∷ fields) kwargs = or_default f.name (lookup f.name kwargs) f.default >>= λ v.
    field_values fields kwargs >>= λ rest. ok ((f.name, v) ∷ rest)

-- `DataClass(**kwargs)`, with the fields in their order, before `__post_init__`.
unfoldable pub dataclass_init : List Field → Dict Value → Result (Dict Value)
unfolding field_values
dataclass_init fields kwargs =
    if known_keys (field_names fields) kwargs
    then field_values fields kwargs
    else raised (exception type_error "got an unexpected keyword argument")

-- The value of a field. A text that is `None` is the empty text, since the code only asks whether it is true.
abbrev pub text_at : String → Dict Value → String
text_at name d = text_in (lookup name d)
  where
    text_in : Option Value → String
    text_in (some (text s)) = s
    text_in other = ""

abbrev pub flag_at : String → Dict Value → Bool
flag_at name d = flag_in (lookup name d)
  where
    flag_in : Option Value → Bool
    flag_in (some (flag b)) = b
    flag_in other = false

abbrev pub texts_at : String → Dict Value → List String
texts_at name d = texts_in (lookup name d)
  where
    texts_in : Option Value → List String
    texts_in (some (texts xs)) = xs
    texts_in other = []

abbrev pub dict_at : String → Dict Value → Dict (Option String)
dict_at name d = dict_in (lookup name d)
  where
    dict_in : Option Value → Dict (Option String)
    dict_in (some (dict entries)) = entries
    dict_in other = []
