-- ===== src/Command/Main.antt =====
-- rtwcli/rtwcli/rtwcli/cli.py, and rtwcli/rtw_cmds/rtw_cmds/commands.py and aliases.py: from the command line to the
-- `main` of an extension, and to the exit code.
use ros_team_workspace.Base.{ℕ, String, false, Option, none, some, List, [], ◌∷◌}
use ros_team_workspace.Base.Dict.{Dict, lookup}
use ros_team_workspace.Base.Result.{
  Result, ok, raised, exception, keyboard_interrupt, runtime_error, ◌>>=◌,
}
use ros_team_workspace.Plugins.{EntryPoint}
use ros_team_workspace.Command.{CommandParser, Subparsers, Program, Context, AddArguments}
use ros_team_workspace.Command.Demand.{Demand, add_subparsers_on_demand}

-- What is printed of the program's own.
pub data Output : Type 0 where
  help exception_text : Output

-- A return code, or none where `main` returns `None`, and what was printed.
abbrev pub Run : Type 0
Run = Result (Option ℕ) × List Output

-- `except KeyboardInterrupt`, `except RuntimeError`: 2 is `signal.SIGINT`.
unfoldable pub exit_code : Run → Run
exit_code (ok code, out) = (ok code, out)
exit_code (raised keyboard_interrupt, out) = (ok (some 2), out)
exit_code (raised (exception runtime_error m), out) = (ok (some 1), exception_text ∷ out)
exit_code (raised e, out) = (raised e, out)

-- `getattr(args, key, None)`: the extension that the parser of the selected command stores.
abbrev pub stored : Option CommandParser → Option ℕ
stored none = none
stored (some p) = p.default

abbrev pub namespace : Dict CommandParser → Option String → Option ℕ
namespace parsers none = none
namespace parsers (some name) = stored (lookup name parsers)

-- What the command line and the environment give. `autocomplete` is argcomplete's, `none` where it cannot be imported;
-- `parse_args` selects a command, and `add_arguments` is that of the extension that is given.
pub record CommandLine : Type 0 where
  pub argv : Option (List String)
  pub autocomplete : Option (Result (Unit {0}))
  pub parse_args : Dict CommandParser → Result (Option String)
  -- `extension.main(parser=parser, args=args)`
  pub run : ℕ → Run
  pub add_arguments : ℕ → Result (Unit {0})

abbrev pub registered : Option (Result (Unit {0})) → Result (Unit {0})
registered none = ok tt
registered (some r) = r

module _ (C : Context) (L : CommandLine) where
  -- `if extension is None: print_help`
  abbrev pub call_main : Option ℕ → Run
  call_main none = (ok (some 0), help ∷ [])
  call_main (some extension) = exit_code (L.run extension)

  abbrev pub after_parsing : Result (Option ℕ) → Run
  after_parsing (ok extension) = call_main extension
  after_parsing (raised e) = (raised e, [])

  -- The demand for the commands: the special ones are hidden in the help.
  abbrev pub main_demand : String → List EntryPoint → Demand
  main_demand script_name group = record {
    cli_name = script_name;
    dest = "_command";
    group = group;
    hide_extensions = some ("extension_points" ∷ "extensions" ∷ []);
    required = false;
    argv = L.argv;
  }

  abbrev pub after_setup : Result Subparsers × Program → Run × Program
  after_setup (raised e, s) = ((raised e, []), s)
  after_setup (ok sub, s) = (
    after_parsing (
        registered L.autocomplete >>= λ _.
        L.parse_args sub.parsers >>= λ name. ok (namespace sub.parsers name)),
    s,
  )

  abbrev pub keep_extension : ℕ → Option String → Result (Option ℕ)
  keep_extension extension name = ok (some extension)

  -- `main`, with an extension given or without.
  unfoldable pub main : String → List EntryPoint → Option ℕ → Program → Run × Program
  unfolding add_subparsers_on_demand exit_code
  main script_name group none s =
      after_setup (add_subparsers_on_demand C (main_demand script_name group) s)
  main script_name group (some extension) s = (
    after_parsing (
        L.add_arguments extension >>= λ _.
        registered L.autocomplete >>= λ _. L.parse_args [] >>= keep_extension extension),
    s,
  )

-- `WorkspaceCommand`, `DockerCommand` and `PkgCommand` are a `BaseCommand` of a group of verbs.
unfoldable pub defaults : Dict CommandParser → Dict (Option ℕ)
defaults [] = []
defaults ((name, p) ∷ rest) = (name, p.default) ∷ defaults rest

abbrev pub with_verbs : CommandParser → Result Subparsers × Program → Result CommandParser × Program
with_verbs p (ok sub, s) = (ok (record p { verbs = defaults sub.parsers }), s)
with_verbs p (raised e, s) = (raised e, s)

abbrev pub verbs_demand : String → List EntryPoint → Demand
verbs_demand cli_name verbs_group = record {
  cli_name = cli_name;
  dest = "_verb";
  group = verbs_group;
  hide_extensions = none;
  required = false;
  argv = none;
}

-- `BaseCommand.add_arguments`, which has no parameter `argv`.
unfoldable pub base_add_arguments : Context → List EntryPoint → AddArguments
unfolding add_subparsers_on_demand defaults
base_add_arguments C verbs_group = record {
  takes_argv = false;
  add = λ p cli_name argv s.
      with_verbs p (add_subparsers_on_demand C (verbs_demand cli_name verbs_group) s);
}

-- `BaseCommand.main`: the verb of the arguments, if there is one.
unfoldable pub base_main : (ℕ → Run) → Option ℕ → Run
base_main run none = (ok (some 0), help ∷ [])
base_main run (some verb) = run verb
