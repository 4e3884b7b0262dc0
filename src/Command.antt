-- ===== src/Command.antt =====
-- rtwcli/rtwcli/rtwcli/command/__init__.py: the parsers of the commands, which load only the command that
-- the command line selects. What argparse makes of the command line is a parameter.
pub mod Demand
pub mod Ends
pub mod Selected
pub mod Main
pub mod Verbs
pub mod Described
pub mod Siblings
pub mod Suppress
use ros_team_workspace.Base.{
  ℕ, String, ◌<>◌, Bool, true, false, not, ◌&&◌, Option, none, some, List, [], ◌∷◌, ◌==◌, contains,
  is_empty, if◌then◌else◌,
}
use ros_team_workspace.Base.Dict.{Dict, keys, lookup, insert}
use ros_team_workspace.Base.Result.{
  Result, ok, raised, Error, exception, key_error, system_exit, ◌>>=◌,
}
use ros_team_workspace.Base.Sort.{sorted}
use ros_team_workspace.Plugins.{
  EntryPoint, get_entry_points, Registry, Constructor, instantiate_extensions,
}
use ros_team_workspace.Plugins.Docs.{get_first_line_doc}
use ros_team_workspace.Select.{max_width, pad}

-- A parser of `add_parser`, as far as the code sets it: the description, the extension that
-- `set_defaults` stores, the arguments added, and whether `_root_parser` is attached.
pub record CommandParser : Type 0 where
  pub description : Option String
  pub default : Option ℕ
  pub arguments : List String
  pub root_attached : Bool
  -- The verbs below the command, with the extension that the parser of each stores.
  pub verbs : Dict (Option ℕ)

abbrev pub new_parser : CommandParser
new_parser = record {
  description = none;
  default = none;
  arguments = [];
  root_attached = false;
  verbs = [];
}

-- What `add_subparsers` returns, with the parsers of the commands.
pub record Subparsers : Type 0 where
  pub dest : String
  pub required : Bool
  pub description : String
  pub parsers : Dict CommandParser

-- The instances of the extension classes, and the `NAME` that each was given.
pub record Program : Type 0 where
  pub registry : Registry
  pub names : List (ℕ × String)

-- A method `add_arguments`: whether it has a parameter `argv`, and the method.
pub record AddArguments : Type 0 where
  pub takes_argv : Bool
  pub add : CommandParser → String → Option (List String) → Program → Result CommandParser × Program

-- What the code asks of the classes, of the command line and of the environment. `parse` is `parse_known_args`, with the
-- names of the commands and the arguments, `none` for those of the process; it gives the command that is selected.
pub record Context : Type 0 where
  pub construct : Constructor
  pub doc : ℕ → Option String
  pub add_arguments : ℕ → Option AddArguments
  pub parse : List String → Option (List String) → Result (Option String)
  pub environ : Dict String
  -- The words of `argcomplete.split_line`.
  pub split_line : String → List String

-- `extension.NAME = name`, for all of them.
unfoldable pub name_all : Dict ℕ → List (ℕ × String) → List (ℕ × String)
name_all [] names = names
name_all ((name, extension) ∷ rest) names = name_all rest ((extension, name) ∷ names)

abbrev pub named : Result (Dict ℕ) × Registry → Program → Result (Dict ℕ) × Program
named (ok extensions, r) s =
    (ok extensions, record { registry = r; names = name_all extensions s.names })
named (raised e, r) s = (raised e, record { registry = r; names = s.names })

abbrev pub is_one : Option String → Bool
is_one none = false
is_one (some value) = value == "1"

unfoldable pub add_parsers : List String → Dict CommandParser → Dict CommandParser
add_parsers [] parsers = parsers
add_parsers (name ∷ names) parsers = add_parsers names (insert name new_parser parsers)

-- `hide_extensions is not None and name in hide_extensions`
abbrev pub is_hidden : Option (List String) → String → Bool
is_hidden none name = false
is_hidden (some hidden) name = contains hidden name

unfoldable pub visible : Option (List String) → List String → List String
visible hide [] = []
visible hide (name ∷ names) =
    let rest = visible hide names in if is_hidden hide name then rest else name ∷ rest

abbrev pub found_item : {A : Type 0} → String → Option A → Result A
found_item name none = raised (exception key_error name)
found_item name (some a) = ok a

-- `d[name]`
abbrev pub item : {A : Type 0} → String → Dict A → Result A
item name d = found_item name (lookup name d)

-- `command_parsers[name].set_defaults(...)`, or another change of that parser.
abbrev pub change_parser :
    (CommandParser → CommandParser) → String → Dict CommandParser → Result (Dict CommandParser)
change_parser f name parsers = item name parsers >>= λ p. ok (insert name (f p) parsers)

abbrev pub set_default : ℕ → CommandParser → CommandParser
set_default extension p = record p { default = some extension }

-- `"{}  {}\n".format(name.ljust(max_length), doc)`
abbrev pub description_line : ℕ → String → String → String
description_line max_length name doc = pad max_length name <> "  " <> doc <> "\n"

-- The words after the first, which is the program.
abbrev pub after_program : List String → List String
after_program [] = []
after_program (word ∷ words) = words

-- `set(entry_points.keys() - {name})`
unfoldable pub others : String → List String → List String
others name [] = []
others name (key ∷ keys) = let rest = others name keys in if key == name then rest else key ∷ rest

abbrev pub root : Bool → CommandParser → CommandParser
root attached p = record p { root_attached = attached }

-- `del command_parser._root_parser`, where `add_arguments` returned.
abbrev pub detached : Result CommandParser × Program → Result CommandParser × Program
detached (ok p, s) = (ok (root false p), s)
detached (raised e, s) = (raised e, s)

abbrev pub put_parser :
    String
    → Dict CommandParser
    → Result CommandParser × Program
    → Result (Dict CommandParser) × Program
put_parser name parsers (ok p, s) = (ok (insert name p parsers), s)
put_parser name parsers (raised e, s) = (raised e, s)

module _ (C : Context) where
  unfoldable pub get_command_extensions :
      List EntryPoint → Option (List String) → Program → Result (Dict ℕ) × Program
  unfolding name_all
  get_command_extensions group exclude_names s =
      named (instantiate_extensions C.construct group exclude_names false s.registry) s

  abbrev pub is_completion_requested : Bool
  is_completion_requested = is_one (lookup "_ARGCOMPLETE" C.environ)

  -- The arguments to parse: for a completion those of the line to complete.
  unfoldable pub arguments_of : Option (List String) → Result (Option (List String))
  arguments_of argv =
      if is_completion_requested
      then (item "COMP_LINE" C.environ >>= λ line. ok (some (after_program (C.split_line line))))
      else ok argv

  -- `except SystemExit`: for a completion nothing is selected.
  unfoldable pub selection : Result (Option String) → Result (Option String)
  selection (raised (system_exit code)) =
      if is_completion_requested then ok none else raised (system_exit code)
  selection r = r

  unfoldable pub known_args : List String → Option (List String) → Result (Option String)
  unfolding arguments_of selection
  known_args names argv = arguments_of argv >>= λ args. selection (C.parse names args)

  -- One round of the loop over the commands, with the description so far.
  unfoldable pub describe_one :
      ℕ → String → Dict ℕ → String × Dict CommandParser → Result (String × Dict CommandParser)
  describe_one max_length name extensions (description, parsers) =
      item name extensions >>= λ extension. get_first_line_doc (C.doc extension) >>= λ doc.
      change_parser (set_default extension) name parsers >>= λ parsers'.
      ok (description <> description_line max_length name doc, parsers')

  unfoldable pub describe_each :
      ℕ → List String → Dict ℕ → String × Dict CommandParser → Result (String × Dict CommandParser)
  unfolding describe_one
  describe_each max_length [] extensions done = ok done
  describe_each max_length (name ∷ names) extensions done =
      describe_one max_length name extensions done >>= λ done'.
      describe_each max_length names extensions done'

  -- No command is selected: the description of the commands that are not hidden.
  unfoldable pub describe :
      Option (List String) → Dict ℕ → Dict CommandParser → Result (String × Dict CommandParser)
  unfolding describe_each visible max_width
  describe hide [] parsers = ok ("", parsers)
  describe hide (e ∷ es) parsers = max_width (visible hide (keys (e ∷ es))) >>= λ max_length.
      describe_each max_length (visible hide (sorted (keys (e ∷ es)))) (e ∷ es) ("", parsers)

  -- `extension.add_arguments`, if the extension has it.
  unfoldable pub call_add_arguments :
      Option AddArguments
      → String
      → Option (List String)
      → CommandParser
      → Program
      → Result CommandParser × Program
  call_add_arguments none cli_name argv p s = (ok p, s)
  call_add_arguments (some method) cli_name argv p s =
      detached (method.add (root true p) cli_name (if method.takes_argv then argv else none) s)

  -- The parser of the selected command, with its extension and its description.
  unfoldable pub selected_parser : String → Dict CommandParser → Dict ℕ → Result (ℕ × CommandParser)
  selected_parser name parsers extensions = item name extensions >>= λ extension.
      item name parsers >>= λ p. get_first_line_doc (C.doc extension) >>= λ doc.
      ok (extension, record (set_default extension p) { description = some doc })

  abbrev pub with_arguments :
      String
      → String
      → Option (List String)
      → Dict CommandParser
      → Result (ℕ × CommandParser)
      → Program
      → Result (Dict CommandParser) × Program
  with_arguments cli_name name argv parsers (ok (extension, p)) s =
      put_parser name parsers
        (call_add_arguments (C.add_arguments extension) (cli_name <> " " <> name) argv p s)
  with_arguments cli_name name argv parsers (raised e) s = (raised e, s)

  -- The command is selected: its extension, its description and its arguments.
  unfoldable pub select_extension :
      String
      → String
      → Option (List String)
      → Dict CommandParser
      → Dict ℕ
      → Program
      → Result (Dict CommandParser) × Program
  unfolding call_add_arguments selected_parser
  select_extension cli_name name argv parsers extensions s =
      with_arguments cli_name name argv parsers (selected_parser name parsers extensions) s
