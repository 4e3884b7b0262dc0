-- ===== src/Command/Described.antt =====
-- The description that a parser shows of its commands.
use Prim.Native.String.{count}
use ros_team_workspace.Base.{ℕ, String, ◌<>◌, ◌≡◌, Option, none, some, List, [], ◌∷◌}
use ros_team_workspace.Base.Dict.{Dict, lookup}
use ros_team_workspace.Base.Result.{Result, ok}
use ros_team_workspace.Select.{pad}
use ros_team_workspace.Plugins.Docs.{get_first_line_doc}
use ros_team_workspace.Command.{Context, found_item, description_line}

module _ (C : Context) (extensions : Dict ℕ) where
  -- One line for each name, in this order, with the name in a column of the width, and the first
  -- line of the docstring of the extension.
  abbrev pub Lines : ℕ → List String → String → Type 0
  Lines width [] text = text ≡ ""
  Lines width (name ∷ names) text =
      (extension : ℕ) × (doc : String) × (rest : String) × (lookup name extensions ≡ some extension)
      × (get_first_line_doc (C.doc extension) ≡ ok doc)
      × (count (pad width name) ≡ width)
      × (text ≡ description_line width name doc <> rest)
      × Lines width names rest

  -- What one round adds to the description.
  abbrev Added : ℕ → String → String → String → Type 0
  Added width name before after =
      (extension : ℕ) × (doc : String) × (lookup name extensions ≡ some extension)
      × (get_first_line_doc (C.doc extension) ≡ ok doc)
      × (after ≡ before <> description_line width name doc)

  pub found : (name : String) (o : Option ℕ) (a : ℕ) → found_item name o ≡ ok a → o ≡ some a
  found name none a e = absurd (cc e)
  found name (some b) a e = inside e
    where
      inside : Path (Result ℕ) (ok b) (ok a) → some b ≡ some a
      inside h = cc h
