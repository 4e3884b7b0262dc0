-- ===== src/Select/Folderless.antt =====
-- The selection of workspaces where one has no folder.
use Prim.Native.String.{count}
use ros_team_workspace.Base.{ℕ, String, ◌≡◌, refl, ap, Option, none, some, List, [], ◌∷◌}
use ros_team_workspace.Base.Dict.{Dict, keys, insert}
use ros_team_workspace.Base.Result.{
  Result, ok, raised, exception, type_error, Error, ◌>>=◌ as ◌>>?◌,
}
use ros_team_workspace.Workspace.{Workspace}
use ros_team_workspace.Host.{Host, Trace}
use ros_team_workspace.Host.Prog.{lift, ◌>>=◌}
use ros_team_workspace.Select.{
  Widths, widths_of, max_width, row_of, choice_row, choice_data, ws_texts, none_text, max,
  get_selected_ws_names_from_user,
}

-- One of the workspaces has no folder.
pub data Folderless : Dict Workspace → Type 0 where
  this_one :
      {name : String} {ws : Workspace} {d : Dict Workspace}
      → ws.ws_folder ≡ none
      → Folderless ((name, ws) ∷ d)
  a_later :
      {name : String} {ws : Workspace} {d : Dict Workspace}
      → Folderless d
      → Folderless ((name, ws) ∷ d)

abbrev pub format_error : Error
format_error = exception type_error "unsupported format string passed to NoneType.__format__"

row_error :
    (w : Widths) (name : String) (ws : Workspace) (folder : Option String) (e : Error)
    → row_of w name ws folder ≡ raised e
    → e ≡ format_error
unfolding row_of
row_error w name ws none e h = cc h
row_error w name ws (some folder) e h = absurd (cc h)

row_fails :
    (w : Widths) (rest : Dict Workspace) (name : String) (acc : Dict String) (row : Result String)
    → ((r : String) → choice_data w rest (insert r name acc) ≡ raised format_error)
    → ((e : Error) → row ≡ raised e → e ≡ format_error)
    → (row >>? λ r. choice_data w rest (insert r name acc)) ≡ raised format_error
row_fails w rest name acc (ok r) p q = p r
row_fails w rest name acc (raised e) p q = ap raised (q e refl)

data_fails :
    (d : Dict Workspace) (w : Widths) (acc : Dict String)
    → Folderless d
    → choice_data w d acc ≡ raised format_error
unfolding choice_data row_of
data_fails d w acc (this_one bare) = rw bare refl
data_fails d w acc (a_later {name = name} {ws = ws} {d = d'} later) =
    row_fails w d' name acc (choice_row w name ws) (λ r. data_fails d' w (insert r name acc) later)
      (row_error w name ws ws.ws_folder)

-- The result is no error.
abbrev Returns : {A : Type 0} → Result A → Type 0
Returns {A = A} r = (a : A) × (r ≡ ok a)

bind-Returns :
    {A B : Type 0} (r : Result A) (k : A → Result B)
    → Returns r
    → ((a : A) → Returns (k a))
    → Returns (r >>? k)
bind-Returns (ok a) k (n, h) then_returns = then_returns a
bind-Returns (raised e) k (n, h) then_returns = absurd (cc h)

max_width-Returns : (x : String) (xs : List String) → Returns (max_width (x ∷ xs))
unfolding max_width
max_width-Returns x [] = (count x, refl)
max_width-Returns x (y ∷ ys) =
    bind-Returns (max_width (y ∷ ys)) _ (max_width-Returns y ys) λ n. (max (count x) n, refl)

three_columns :
    (a b c : Result ℕ) (f : ℕ → ℕ → ℕ → Widths)
    → Returns a
    → Returns b
    → Returns c
    → Returns (a >>? λ x. b >>? λ y. c >>? λ z. ok (f x y z))
three_columns a b c f p q r =
    bind-Returns a _ p
      λ x. bind-Returns b _ q λ y. bind-Returns c (λ z. ok (f x y z)) r λ z. (f x y z, refl)

some_widths :
    (name : String) (ws : Workspace) (d : Dict Workspace) → Returns (widths_of ((name, ws) ∷ d))
unfolding widths_of
some_widths name ws d =
    three_columns _ _ _ _ (max_width-Returns name (keys d))
      (max_width-Returns ws.distro (ws_texts (λ v. v.distro) d))
      (max_width-Returns (none_text ws.ws_folder) (ws_texts (λ v. none_text v.ws_folder) d))

widths-Returns : (d : Dict Workspace) → Folderless d → Returns (widths_of d)
widths-Returns d (this_one {name = name} {ws = ws} {d = d'} bare) = some_widths name ws d'
widths-Returns d (a_later {name = name} {ws = ws} {d = d'} later) = some_widths name ws d'

-- If one workspace has no folder, the dialog never opens: the selection ends in a `TypeError` before
-- its first call.
pub Folderless-fails :
    (H : Host) (workspaces : Dict Workspace) (question confirmation : String) (t : Trace)
    → Folderless workspaces
    → get_selected_ws_names_from_user H workspaces question confirmation t
      ≡ (raised format_error, t)
unfolding get_selected_ws_names_from_user lift ◌>>=◌
Folderless-fails H workspaces question confirmation t bare =
    let (w, e) = widths-Returns workspaces bare in rw e (rw (data_fails workspaces w [] bare) refl)
