-- ===== src/Arguments/Typed.antt =====
-- What argparse parses makes a dataclass with values of the annotated types.
use ros_team_workspace.Base.{
  String, ◌≡◌, refl, ap, ◌∙◌, Bool, true, false, not, ◌&&◌, ◌||◌, Option, none, some, List, [], ◌∷◌,
  ◌==◌, All, starts_with, contains, if◌then◌else◌, arith, eq_iff, inl, inr, Bool-cases,
}
use ros_team_workspace.Base.Dict.{Dict, lookup, insert, lookup-insert}
use ros_team_workspace.Base.Result.{ok}
use ros_team_workspace.Arguments.{
  Shape, Value, Argument, Field, dest_of, fits, field_names, put_found, entries_of,
  get_filtered_args, with_entries, known_keys, or_default, field_values, dataclass_init,
}

abbrev pub same_shape : Shape → Shape → Bool
same_shape Shape.text_shape Shape.text_shape = true
same_shape Shape.flag_shape Shape.flag_shape = true
same_shape Shape.texts_shape Shape.texts_shape = true
same_shape Shape.dict_shape Shape.dict_shape = true
same_shape s t = false

-- An argument with this key and this type is declared.
abbrev pub is_declared : List Argument → String → Shape → Bool
is_declared [] name shape = false
is_declared (a ∷ arguments) name shape =
    if dest_of a == name then same_shape a.shape shape else is_declared arguments name shape

abbrev pub default_fits : Option Value → Shape → Bool
default_fits none shape = false
default_fits (some v) shape = fits shape v

-- No argument has this key.
abbrev pub is_absent : List Argument → String → Bool
is_absent [] name = true
is_absent (a ∷ arguments) name = not (dest_of a == name) && is_absent arguments name

-- The keys of the subparsers: ` command`, `_command`, ` verb` and `_verb`.
abbrev pub is_internal : String → Bool
is_internal key = starts_with key "_" || starts_with key " "

-- What argparse makes of a command line: a value of its type for each argument, and no key besides
-- but those of the subparsers.
pub record IsParsed (arguments : List Argument) (args_dict : Dict Value) : Type 0 where
  pub given :
      All
        (λ a. (v : Value) × (lookup (dest_of a) args_dict ≡ some v) × (fits a.shape v ≡ true))
        arguments
  pub only :
      (key : String)
      → is_absent arguments key ≡ true
      → is_internal key ≡ false
      → lookup key args_dict ≡ none

abbrev pub is_defaulted : List Argument → Field → Bool
is_defaulted arguments f =
    is_absent arguments f.name && not (is_internal f.name) && default_fits f.default f.annotation

-- A field gets a value of its type from an entry that is set, from an argument, or from its default.
abbrev pub is_covered : List Argument → Option Value → Field → Bool
is_covered arguments (some v) f = fits f.annotation v
is_covered arguments none f = is_declared arguments f.name f.annotation || is_defaulted arguments f

abbrev pub covers : List Argument → Dict Value → List Field → Bool
covers arguments set [] = true
covers arguments set (f ∷ fields) =
    is_covered arguments (lookup f.name set) f && covers arguments set fields

-- The values of the fields, each of the annotated type.
abbrev pub IsTyped : List Field → Dict Value → Type 0
IsTyped [] d = d ≡ []
IsTyped (f ∷ fields) d =
    (v : Value) × (rest : Dict Value) × (d ≡ (f.name, v) ∷ rest)
    × (fits f.annotation v ≡ true)
    × IsTyped fields rest

-- The first value that there is.
abbrev or_value : Option Value → Option Value → Option Value
or_value none o = o
or_value (some v) o = some v

lookup-put_found :
    (k key : String) (o : Option Value) (d : Dict Value)
    → lookup k (put_found key o d) ≡ (if key == k then or_value o (lookup k d) else lookup k d)
unfolding lookup
lookup-put_found k key none d = ground arith
lookup-put_found k key (some v) d = refl

twice : (o : Option Value) (b : Bool) → or_value o (if b then o else none) ≡ o
twice none true = refl
twice none false = refl
twice (some v) b = refl

lookup-entries_of :
    (k : String) (args_dict : Dict Value) (names : List String)
    → lookup k (entries_of args_dict names)
      ≡ (if contains names k then lookup k args_dict else none)
unfolding entries_of lookup
lookup-entries_of k args_dict [] = refl
lookup-entries_of k args_dict (name ∷ names) = elim (Bool-cases (name == k)) [
  | inr other ↦
      lookup-put_found k name (lookup name args_dict) (entries_of args_dict names)
      ∙ rw other (lookup-entries_of k args_dict names)
  | inl same ↦
      lookup-put_found k name (lookup name args_dict) (entries_of args_dict names)
      ∙ rw (same, lookup-entries_of k args_dict names, (eq_iff name k).0 same)
          (twice (lookup k args_dict) (contains names k))
]

lookup-with_entries :
    (k : String) (d set : Dict Value)
    → lookup k (with_entries d set) ≡ or_value (lookup k set) (lookup k d)
unfolding with_entries lookup
lookup-with_entries k d [] = refl
lookup-with_entries k d ((key, v) ∷ set) =
    ground (arith, lookup-insert k key v (with_entries d set), lookup-with_entries k d set)

same_fits : (s t : Shape) (v : Value) → same_shape s t ≡ true → fits s v ≡ true → fits t v ≡ true
same_fits Shape.text_shape Shape.text_shape v e typed = typed
same_fits Shape.flag_shape Shape.flag_shape v e typed = typed
same_fits Shape.texts_shape Shape.texts_shape v e typed = typed
same_fits Shape.dict_shape Shape.dict_shape v e typed = typed
same_fits s t v e typed = ground (arith, e)

declared :
    (arguments : List Argument) (args_dict : Dict Value) (name : String) (shape : Shape)
    → All
        (λ a. (v : Value) × (lookup (dest_of a) args_dict ≡ some v) × (fits a.shape v ≡ true))
        arguments
    → is_declared arguments name shape ≡ true
    → (v : Value) × (lookup name args_dict ≡ some v) × (fits shape v ≡ true)
declared [] args_dict name shape given e = absurd (cc e)
declared (a ∷ arguments) args_dict name shape ((v, there, typed), given) e =
    elim (Bool-cases (dest_of a == name)) [
      | inl same ↦ (
        v,
        rw (← (eq_iff (dest_of a) name).0 same) there,
        same_fits a.shape shape v (rw same at e) typed,
      )
      | inr other ↦ declared arguments args_dict name shape given (rw other at e)
    ]

-- A field of the dataclass gets a value of its type.
covered :
    (arguments : List Argument) (args_dict : Dict Value) (o : Option Value) (f : Field)
    → IsParsed arguments args_dict
    → is_covered arguments o f ≡ true
    → (v : Value) × (or_default f.name (or_value o (lookup f.name args_dict)) f.default ≡ ok v)
      × (fits f.annotation v ≡ true)
covered arguments args_dict (some v) f parsed e = (v, refl, e)
covered arguments args_dict none f parsed e =
    elim (Bool-cases (is_declared arguments f.name f.annotation)) [
      | inl is_given ↦
          let (v, there, typed) =
            declared arguments args_dict f.name f.annotation parsed.given is_given in
          (v, rw there refl, typed)
      | inr not_given ↦
          from_default f.default (ground (arith, e, not_given))
            (parsed.only f.name (ground (arith, e, not_given)) (ground (arith, e, not_given)))
    ]
  where
    from_default :
        (d : Option Value)
        → default_fits d f.annotation ≡ true
        → lookup f.name args_dict ≡ none
        → (v : Value) × (or_default f.name (lookup f.name args_dict) d ≡ ok v)
          × (fits f.annotation v ≡ true)
    from_default none e absent = absurd (cc e)
    from_default (some v) e absent = (v, rw absent refl, e)

known-insert :
    (names : List String) (key : String) (v : Value) (d : Dict Value)
    → contains names key ≡ true
    → known_keys names d ≡ true
    → known_keys names (insert key v d) ≡ true
unfolding insert
known-insert names key v [] known all = rw known refl
known-insert names key v ((k, w) ∷ d) known all = elim (Bool-cases (k == key)) [
  | inl same ↦ rw same all
  | inr other ↦
      rw other (ground (arith, all, known-insert names key v d known (ground (arith, all))))
]

known-with_entries :
    (names : List String) (d set : Dict Value)
    → known_keys names d ≡ true
    → known_keys names set ≡ true
    → known_keys names (with_entries d set) ≡ true
unfolding with_entries
known-with_entries names d [] known all = known
known-with_entries names d ((key, v) ∷ set) known all =
    known-insert names key v (with_entries d set) (ground (arith, all))
      (known-with_entries names d set known (ground (arith, all)))

known-put_found :
    (names : List String) (key : String) (o : Option Value) (d : Dict Value)
    → contains names key ≡ true
    → known_keys names d ≡ true
    → known_keys names (put_found key o d) ≡ true
known-put_found names key none d inside known = known
known-put_found names key (some v) d inside known = rw inside known

-- Each of the names is one of the others.
abbrev Within : List String → List String → Type 0
Within names all = (x : String) → contains names x ≡ true → contains all x ≡ true

known-entries_of :
    (all names : List String) (args_dict : Dict Value)
    → Within names all
    → known_keys all (entries_of args_dict names) ≡ true
unfolding entries_of
known-entries_of all [] args_dict within = refl
known-entries_of all (name ∷ names) args_dict within =
    known-put_found all name (lookup name args_dict) (entries_of args_dict names)
      (within name (ground (arith, eq_iff name name)))
      (known-entries_of all names args_dict λ x inside. within x (ground (arith, inside)))

module _ (arguments : List Argument) (args_dict set : Dict Value) (fields : List Field)
    (parsed : IsParsed arguments args_dict) where
  abbrev kwargs : Dict Value
  kwargs = with_entries (get_filtered_args args_dict fields) set

  lookup-kwargs :
      (name : String)
      → contains (field_names fields) name ≡ true
      → lookup name kwargs ≡ or_value (lookup name set) (lookup name args_dict)
  unfolding get_filtered_args
  lookup-kwargs name inside =
      lookup-with_entries name (entries_of args_dict (field_names fields)) set
      ∙ ap (or_value (lookup name set))
          (lookup-entries_of name args_dict (field_names fields) ∙ rw inside refl)

  field_values-IsTyped :
      (gs : List Field)
      → Within (field_names gs) (field_names fields)
      → covers arguments set gs ≡ true
      → (d : Dict Value) × (field_values gs kwargs ≡ ok d) × IsTyped gs d
  unfolding field_values
  field_values-IsTyped [] within e = ([], refl, refl)
  field_values-IsTyped (g ∷ gs) within e =
      let (v, value, typed) =
        covered arguments args_dict (lookup g.name set) g parsed (ground (arith, e)) in
      let (d, values, all) =
        field_values-IsTyped gs (λ x inside. within x (ground (arith, inside)))
          (ground (arith, e)) in
      (
        (g.name, v) ∷ d,
        rw
            (
              lookup-kwargs g.name (within g.name (ground (arith, eq_iff g.name g.name))),
              value,
              values,
            )
            refl,
        (v, d, refl, typed, all),
      )

  known_given : known_keys (field_names fields) (get_filtered_args args_dict fields) ≡ true
  unfolding get_filtered_args
  known_given =
      known-entries_of (field_names fields) (field_names fields) args_dict λ x inside. inside

  -- init
  pub dataclass_init-IsTyped :
      covers arguments set fields ≡ true
      → known_keys (field_names fields) set ≡ true
      → (d : Dict Value) × (dataclass_init fields
            (with_entries (get_filtered_args args_dict fields) set)
          ≡ ok d)
        × IsTyped fields d
  unfolding dataclass_init
  dataclass_init-IsTyped covering known =
      let (d, values, typed) = field_values-IsTyped fields (λ x inside. inside) covering in
      (d, rw known_kwargs values, typed)
    where
      known_kwargs : known_keys (field_names fields) kwargs ≡ true
      known_kwargs =
          known-with_entries (field_names fields) (get_filtered_args args_dict fields) set
            known_given known
