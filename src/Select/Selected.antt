-- ===== src/Select/Selected.antt =====
-- What the selection of workspaces can return.
use ros_team_workspace.Base.{
  String, ◌≡◌, refl, sym, ◌∙◌, Bool, true, false, Option, none, some, List, [], ◌∷◌, All, arith,
  eq_iff, ◌==◌, if◌then◌else◌,
}
use ros_team_workspace.Base.Dict.{Dict, keys, lookup, has_key, insert, lookup-insert}
use ros_team_workspace.Base.Result.{Result, ok, raised, ◌>>=◌ as ◌>>?◌}
use ros_team_workspace.Workspace.{Workspace}
use ros_team_workspace.Host.{Host, Trace}
use ros_team_workspace.Host.Calls
use ros_team_workspace.Host.Prog.{lift}
use ros_team_workspace.Host.Returns.{bind-outcome}
use ros_team_workspace.Select.{
  Widths, widths_of, choice_row, choice_data, first_name, chosen_names, after_confirm, after_dialog,
  ask_selection, get_selected_ws_names_from_user,
}

-- Every name behind a line of the dialog is a name of the workspaces.
abbrev Known : Dict Workspace → Dict String → Type 0
Known workspaces choices =
    (row name : String) → lookup row choices ≡ some name → has_key name workspaces ≡ true

known_case :
    (workspaces : Dict Workspace) (b : Bool) (name name' : String) (old : Option String)
    → has_key name workspaces ≡ true
    → (old ≡ some name' → has_key name' workspaces ≡ true)
    → (if b then some name else old) ≡ some name'
    → has_key name' workspaces ≡ true
known_case workspaces true name name' old known all found = rw (← same found) known
  where
    same : Path (Option String) (some name) (some name') → name ≡ name'
    same h = cc h
known_case workspaces false name name' old known all found = all found

insert-Known :
    (workspaces : Dict Workspace) (choices : Dict String) (row name : String)
    → has_key name workspaces ≡ true
    → Known workspaces choices
    → Known workspaces (insert row name choices)
insert-Known workspaces choices row name known all row' name' found =
    known_case workspaces (row == row') name name' (lookup row' choices) known (all row' name')
      (sym (lookup-insert row' row name choices) ∙ found)

abbrev AllKnown : Dict Workspace → List String → Type 0
AllKnown workspaces = All (λ name. has_key name workspaces ≡ true)

-- A result that is no error has only known names.
abbrev pub IfOk : {A : Type 0} → (A → Type 0) → Result A → Type 0
IfOk P (ok a) = P a
IfOk P (raised e) = Unit

first-AllKnown :
    (workspaces : Dict Workspace) (choice : String) (found : Option String)
    (r : Result (List String))
    → ((name : String) → found ≡ some name → has_key name workspaces ≡ true)
    → IfOk (AllKnown workspaces) r
    → IfOk (AllKnown workspaces) (first_name choice found r)
first-AllKnown workspaces choice none r known all = tt
first-AllKnown workspaces choice (some name) (ok names) known all = (known name refl, all)
first-AllKnown workspaces choice (some name) (raised e) known all = tt

chosen-AllKnown :
    (workspaces : Dict Workspace) (choices : Dict String) (chosen : List String)
    → Known workspaces choices
    → IfOk (AllKnown workspaces) (chosen_names choices chosen)
unfolding chosen_names
chosen-AllKnown workspaces choices [] known = tt
chosen-AllKnown workspaces choices (c ∷ cs) known =
    first-AllKnown workspaces c (lookup c choices) (chosen_names choices cs) (known c)
      (chosen-AllKnown workspaces choices cs known)

row-Known :
    (workspaces rest : Dict Workspace) (w : Widths) (name : String) (acc : Dict String)
    (row : Result String)
    → has_key name workspaces ≡ true
    → Known workspaces acc
    → ((acc' : Dict String)
        → Known workspaces acc'
        → IfOk (Known workspaces) (choice_data w rest acc'))
    → IfOk (Known workspaces) (row >>? λ r. choice_data w rest (insert r name acc))
row-Known workspaces rest w name acc (raised e) known all go_on = tt
row-Known workspaces rest w name acc (ok r) known all go_on =
    go_on (insert r name acc) (insert-Known workspaces acc r name known all)

data-Known :
    (workspaces d : Dict Workspace) (w : Widths) (acc : Dict String)
    → AllKnown workspaces (keys d)
    → Known workspaces acc
    → IfOk (Known workspaces) (choice_data w d acc)
unfolding choice_data
data-Known workspaces [] w acc names all = all
data-Known workspaces ((name, ws) ∷ rest) w acc (known, names) all =
    row-Known workspaces rest w name acc (choice_row w name ws) known all
      λ acc' all'. data-Known workspaces rest w acc' names all'

later_key :
    (name k : String) (ws : Workspace) (d : Dict Workspace)
    → has_key name d ≡ true
    → has_key name ((k, ws) ∷ d) ≡ true
unfolding lookup
later_key name k ws d h = ground (arith, h)

own_keys :
    (d workspaces : Dict Workspace)
    → ((name : String) → has_key name d ≡ true → has_key name workspaces ≡ true)
    → AllKnown workspaces (keys d)
unfolding lookup
own_keys [] workspaces inside = tt
own_keys ((k, ws) ∷ d) workspaces inside = (
  inside k (ground (arith, eq_iff k k)),
  own_keys d workspaces λ name h. inside name (later_key name k ws d h),
)

module _ (H : Host) (workspaces : Dict Workspace) where
  abbrev Names : Result (List String) × Trace → Type 0
  Names (r, u) = IfOk (AllKnown workspaces) r

  module _ (choices : Dict String) (known : Known workspaces choices) where
    confirm-Names :
        (chosen : List String) (confirmed : Option Bool) (t : Trace)
        → Names (after_confirm H choices chosen confirmed t)
    unfolding after_confirm lift
    confirm-Names chosen none t = tt
    confirm-Names chosen (some false) t = tt
    confirm-Names chosen (some true) t = chosen-AllKnown workspaces choices chosen known

    dialog-Names :
        (confirmation : String) (answer : Option (List String)) (t : Trace)
        → Names (after_dialog H choices confirmation answer t)
    unfolding after_dialog lift
    dialog-Names confirmation none t = tt
    dialog-Names confirmation (some []) t = tt
    dialog-Names confirmation (some (c ∷ cs)) t =
        bind-outcome Names (Calls.ask_confirm H _) _ t (λ e. tt)
          λ confirmed _. confirm-Names (c ∷ cs) confirmed _

    ask-Names :
        (question confirmation : String) (t : Trace)
        → Names (ask_selection H choices question confirmation t)
    unfolding ask_selection
    ask-Names question confirmation t =
        bind-outcome Names (Calls.ask_checkbox H _ _) _ t (λ e. tt)
          λ answer _. dialog-Names confirmation answer _

  selected-Names :
      (question confirmation : String) (t : Trace)
      → Names (get_selected_ws_names_from_user H workspaces question confirmation t)
  unfolding get_selected_ws_names_from_user lift lookup
  selected-Names question confirmation t =
      bind-outcome Names (lift (widths_of workspaces)) _ t (λ e. tt)
        λ w _.
          bind-outcome Names (lift (choice_data w workspaces [])) _ t (λ e. tt)
            λ choices got. ask-Names choices (read w choices got) question confirmation t
    where
      none_known : Known workspaces []
      none_known row name found = absurd (no_entry row found)
        where
          no_entry : (row : String) → lookup row [] ≡ some name → ⊥
          no_entry row h = cc h

      from :
          (r : Result (Dict String)) (choices : Dict String)
          → IfOk (Known workspaces) r
          → r ≡ ok choices
          → Known workspaces choices
      from (ok c) choices known same = rw (← inside same) known
        where
          inside : Path (Result (Dict String)) (ok c) (ok choices) → c ≡ choices
          inside h = cc h
      from (raised e) choices known same = absurd (cc same)

      read :
          (w : Widths) (choices : Dict String)
          → choice_data w workspaces [] ≡ ok choices
          → Known workspaces choices
      read w choices got =
          from (choice_data w workspaces []) choices
            (data-Known workspaces workspaces w [] (own_keys workspaces workspaces λ name h. h)
              none_known)
            got

  -- The names that the dialog returns are all names of the workspaces that it was given.
  pub selected-AllKnown :
      (question confirmation : String) (t : Trace) (names : List String)
      → (get_selected_ws_names_from_user H workspaces question confirmation t).0 ≡ ok names
      → All (λ name. has_key name workspaces ≡ true) names
  selected-AllKnown question confirmation t names got =
      inside _ (selected-Names question confirmation t) got
    where
      inside :
          (r : Result (List String))
          → IfOk (AllKnown workspaces) r
          → r ≡ ok names
          → AllKnown workspaces names
      inside (ok ns) all same = rw (← ok_inj same) all
        where
          ok_inj : Path (Result (List String)) (ok ns) (ok names) → ns ≡ names
          ok_inj h = cc h
      inside (raised e) all same = absurd (cc same)
