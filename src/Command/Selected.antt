-- ===== src/Command/Selected.antt =====
-- cli.py: which extension main runs.
use ros_team_workspace.Base.{
  ℕ, String, ◌<>◌, ◌≡◌, refl, sym, ap, ◌∙◌, true, false, Option, none, some, List, [], eq_refl,
  if◌then◌else◌,
}
use ros_team_workspace.Base.Dict.{Dict, keys, lookup, insert, lookup-insert}
use ros_team_workspace.Base.Result.{Result, ok, raised, first_of_bind}
use ros_team_workspace.Plugins.{EntryPoint, get_entry_points}
use ros_team_workspace.Plugins.Docs.{get_first_line_doc}
use ros_team_workspace.Command.{
  CommandParser, Subparsers, Program, Context, AddArguments, others, item, root, detached,
  put_parser, get_command_extensions, known_args, call_add_arguments, selected_parser,
  with_arguments, select_extension,
}
use ros_team_workspace.Command.Described.{found}
use ros_team_workspace.Command.Demand.{
  Demand, command_names, all_parsers, subparsers, finished, with_selected, on_selection,
  add_subparsers_on_demand,
}
use ros_team_workspace.Command.Ends.{Ended, exit_code-Ended}
use ros_team_workspace.Command.Main.{
  CommandLine, stored, registered, main_demand, main, base_add_arguments, with_verbs, verbs_demand,
  defaults,
}

-- The methods `add_arguments` leave the extension that a parser stores.
abbrev pub KeepsDefault : Context → Type 0
KeepsDefault C =
    (extension : ℕ) (method : AddArguments) (p p' : CommandParser) (cli_name : String)
    (argv : Option (List String)) (s s' : Program)
    → C.add_arguments extension ≡ some method
    → method.add p cli_name argv s ≡ (ok p', s')
    → p'.default ≡ p.default

-- The parser of the command stores the extension.
abbrev StoresIn : String → ℕ → Dict CommandParser → Type 0
StoresIn name extension parsers = stored (lookup name parsers) ≡ some extension

-- The extensions that the selection of a command loads.
abbrev pub loaded_for : Context → Demand → String → Program → Result (Dict ℕ) × Program
loaded_for C d name s =
    get_command_extensions C d.group (some (others name (keys (get_entry_points d.group [])))) s

module _ (C : Context) (keeps : KeepsDefault C) where
  detached-ok :
      (r : Result CommandParser × Program) (p' : CommandParser) (s' : Program)
      → detached r ≡ (ok p', s')
      → (p : CommandParser) × (r ≡ (ok p, s')) × (p'.default ≡ p.default)
  detached-ok (ok p, s) p' s' e = (p, same e, sym (ap_default e))
    where
      same :
          Path (Result CommandParser × Program) (ok (root false p), s) (ok p', s')
          → Path (Result CommandParser × Program) (ok p, s) (ok p, s')
      same h = ap (λ (r : Result CommandParser × Program). (ok p, r.1)) h

      ap_default :
          Path (Result CommandParser × Program) (ok (root false p), s) (ok p', s')
          → p.default ≡ p'.default
      ap_default h = cc h
  detached-ok (raised x, s) p' s' e = absurd (cc e)

  call-keeps :
      (extension : ℕ) (o : Option AddArguments) (cli_name : String) (argv : Option (List String))
      (p p' : CommandParser) (s s' : Program)
      → C.add_arguments extension ≡ o
      → call_add_arguments C o cli_name argv p s ≡ (ok p', s')
      → p'.default ≡ p.default
  unfolding call_add_arguments
  call-keeps extension none cli_name argv p p' s s' found e = sym (same e)
    where
      same : Path (Result CommandParser × Program) (ok p, s) (ok p', s') → p.default ≡ p'.default
      same h = cc h
  call-keeps extension (some method) cli_name argv p p' s s' found e =
      let (q, added, default) =
        detached-ok (method.add (root true p) cli_name (if method.takes_argv then argv else none) s)
          p' s' e in
      default
      ∙ keeps extension method (root true p) q cli_name (if method.takes_argv then argv else none) s
          s' found added

  same_extension :
      {i j : ℕ} {p q : CommandParser}
      → Path (Result (ℕ × CommandParser)) (ok (i, p)) (ok (j, q))
      → i ≡ j
  same_extension h = cc h

  same_default :
      {i j : ℕ} {p q : CommandParser}
      → Path (Result (ℕ × CommandParser)) (ok (i, p)) (ok (j, q))
      → p.default ≡ some i
      → q.default ≡ some j
  same_default h before = ap default_of (sym h) ∙ before ∙ ap some (same_extension h)
    where
      default_of : Result (ℕ × CommandParser) → Option ℕ
      default_of (ok (i, p)) = p.default
      default_of (raised e) = none

  put-StoresIn :
      (name : String) (extension : ℕ) (parsers parsers' : Dict CommandParser)
      (r : Result CommandParser × Program) (s' : Program)
      → ((p' : CommandParser) → r ≡ (ok p', s') → p'.default ≡ some extension)
      → put_parser name parsers r ≡ (ok parsers', s')
      → StoresIn name extension parsers'
  put-StoresIn name extension parsers parsers' (ok p, s) s' keeps_it e =
      rw (← new e) (rw (lookup-insert name name p parsers, eq_refl name) (keeps_it p (there e)))
    where
      new :
          Path
            (Result (Dict CommandParser) × Program)
            (ok (insert name p parsers), s)
            (ok parsers', s')
          → insert name p parsers ≡ parsers'
      new h = cc h

      there :
          Path
            (Result (Dict CommandParser) × Program)
            (ok (insert name p parsers), s)
            (ok parsers', s')
          → Path (Result CommandParser × Program) (ok p, s) (ok p, s')
      there h = ap (λ (r : Result (Dict CommandParser) × Program). (ok p, r.1)) h
  put-StoresIn name extension parsers parsers' (raised x, s) s' keeps_it e = absurd (cc e)

  selected-found :
      (name : String) (extensions : Dict ℕ) (parsers : Dict CommandParser) (extension : ℕ)
      (p : CommandParser)
      → selected_parser C name parsers extensions ≡ ok (extension, p)
      → (lookup name extensions ≡ some extension) × (p.default ≡ some extension)
  unfolding selected_parser
  selected-found name extensions parsers extension p e =
      let (i, there, e₁) = first_of_bind _ (item name extensions) e in
      let (q, _, e₂) = first_of_bind _ (item name parsers) e₁ in
      let (doc, _, e₃) = first_of_bind _ (get_first_line_doc (C.doc i)) e₂ in
      (
        found C extensions name (lookup name extensions) extension
            (there ∙ ap ok (same_extension e₃)),
        same_default e₃ refl,
      )

  with_arguments-StoresIn :
      (cli_name name : String) (argv : Option (List String)) (parsers parsers' : Dict CommandParser)
      (extensions : Dict ℕ) (r : Result (ℕ × CommandParser)) (s s' : Program)
      → selected_parser C name parsers extensions ≡ r
      → with_arguments C cli_name name argv parsers r s ≡ (ok parsers', s')
      → (extension : ℕ) × (lookup name extensions ≡ some extension)
        × StoresIn name extension parsers'
  with_arguments-StoresIn cli_name name argv parsers parsers' extensions (ok (i, p)) s s' got e =
      let (there, default) = selected-found name extensions parsers i p got in
      (
        i,
        there,
        put-StoresIn name i parsers parsers'
            (call_add_arguments C (C.add_arguments i) (cli_name <> " " <> name) argv p s) s'
            (λ p' h.
              call-keeps i (C.add_arguments i) (cli_name <> " " <> name) argv p p' s s' refl h
              ∙ default)
            e,
      )
  with_arguments-StoresIn cli_name name argv parsers parsers' extensions (raised x) s s' got e =
      absurd (cc e)

  finished-ok :
      (d : Demand) (r : Result (Dict CommandParser) × Program) (sub : Subparsers) (s' : Program)
      → finished C d r ≡ (ok sub, s')
      → r ≡ (ok sub.parsers, s')
  finished-ok d (ok parsers, s) sub s' e = from e
    where
      from :
          Path (Result Subparsers × Program) (ok (subparsers d "" parsers), s) (ok sub, s')
          → Path (Result (Dict CommandParser) × Program) (ok parsers, s) (ok sub.parsers, s')
      from h = cc h
  finished-ok d (raised x, s) sub s' e = absurd (cc e)

  with_selected-StoresIn :
      (d : Demand) (name : String) (r : Result (Dict ℕ) × Program) (sub : Subparsers) (s' : Program)
      → with_selected C d name r ≡ (ok sub, s')
      → (extensions : Dict ℕ) × (extension : ℕ) × (r.0 ≡ ok extensions)
        × (lookup name extensions ≡ some extension)
        × StoresIn name extension sub.parsers
  unfolding select_extension
  with_selected-StoresIn d name (ok extensions, s) sub s' e =
      let (extension, there, stores) =
        with_arguments-StoresIn d.cli_name name d.argv (all_parsers d) sub.parsers extensions
          (selected_parser C name (all_parsers d) extensions) s s' refl
          (finished-ok d (select_extension C d.cli_name name d.argv (all_parsers d) extensions s)
            sub s' e) in
      (extensions, extension, refl, there, stores)
  with_selected-StoresIn d name (raised x, s) sub s' e = absurd (cc e)

  demand-StoresIn :
      (d : Demand) (name : String) (s : Program) (sub : Subparsers) (s' : Program)
      → known_args C (command_names d) d.argv ≡ ok (some name)
      → add_subparsers_on_demand C d s ≡ (ok sub, s')
      → (extensions : Dict ℕ) × (extension : ℕ) × ((loaded_for C d name s).0 ≡ ok extensions)
        × (lookup name extensions ≡ some extension)
        × StoresIn name extension sub.parsers
  unfolding add_subparsers_on_demand on_selection
  demand-StoresIn d name s sub s' selected e =
      with_selected-StoresIn d name (loaded_for C d name s) sub s'
        (sym (ap (λ r. on_selection C d r s) selected) ∙ e)

  -- If the methods `add_arguments` leave the extension that a parser stores, the parsers could be set up for the command that
  -- the command line selects, completion does not end the program, and the final parsing selects the same command, then
  -- that command was loaded, and `main` runs its extension. The end of that run decides the end of `main`: its return code; 2
  -- after `KeyboardInterrupt`; 1 after `RuntimeError`, whose text is printed; another exception goes on.
  pub main-Runs :
      (L : CommandLine) (script_name : String) (group : List EntryPoint) (name : String)
      (s s' : Program) (sub : Subparsers)
      → known_args C (command_names (main_demand C L script_name group)) L.argv ≡ ok (some name)
      → add_subparsers_on_demand C (main_demand C L script_name group) s ≡ (ok sub, s')
      → registered L.autocomplete ≡ ok tt
      → L.parse_args sub.parsers ≡ ok (some name)
      → (extensions : Dict ℕ) × (extension : ℕ) × ((loaded_for C
            (main_demand C L script_name group)
            name
            s).0
          ≡ ok extensions)
        × (lookup name extensions ≡ some extension)
        × Ended (L.run extension) (main C L script_name group none s).0
        × ((main C L script_name group none s).1 ≡ s')
  unfolding main
  main-Runs L script_name group name s s' sub selected setup hooked parsed =
      let (extensions, extension, loads, there, stores) =
        demand-StoresIn (main_demand C L script_name group) name s sub s' selected setup in
      (
        extensions,
        extension,
        loads,
        there,
        rw (setup, hooked, parsed, stores) (exit_code-Ended (L.run extension)),
        rw setup refl,
      )

-- The method of a `BaseCommand` is one that leaves the extension that the parser stores.
pub base_add_arguments-keeps :
    (C : Context) (verbs_group : List EntryPoint) (p p' : CommandParser) (cli_name : String)
    (argv : Option (List String)) (s s' : Program)
    → (base_add_arguments C verbs_group).add p cli_name argv s ≡ (ok p', s')
    → p'.default ≡ p.default
unfolding base_add_arguments
base_add_arguments-keeps C verbs_group p p' cli_name argv s s' e =
    from (add_subparsers_on_demand C (verbs_demand cli_name verbs_group) s) e
  where
    from : (r : Result Subparsers × Program) → with_verbs p r ≡ (ok p', s') → p'.default ≡ p.default
    from (ok sub, t) e = sym (same e)
      where
        same :
            Path
              (Result CommandParser × Program)
              (ok (record p { verbs = defaults sub.parsers }), t)
              (ok p', s')
            → p.default ≡ p'.default
        same h = cc h
    from (raised x, t) e = absurd (cc e)
