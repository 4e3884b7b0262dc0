-- ===== src/Plugins/Singletons.antt =====
-- An extension class has one shared instance.
use ros_team_workspace.Base.{
  ℕ, String, ◌≡◌, refl, Bool, true, false, Option, none, some, [], ◌∷◌, arith, eq_iff, All, ◌⊎◌,
  inl, inr, ◌==◌, if◌then◌else◌,
}
use ros_team_workspace.Base.Dict.{Dict, lookup, insert, lookup-insert}
use ros_team_workspace.Base.Result.{Result, ok, raised, exception, keyboard_interrupt, system_exit}
use ros_team_workspace.Plugins.{
  Registry, Constructor, keep_instance, called, reused, instantiate_from, instantiate_extension,
  instantiate_all, add_instance, and_then,
}

-- The class has this instance in the registry.
abbrev pub Has : String → ℕ → Registry → Type 0
Has cls i s = lookup cls s.instances ≡ some i

-- The name is loaded with this class.
abbrev pub Listed : String → String → Dict String → Type 0
Listed name cls [] = ⊥
Listed name cls ((n, c) ∷ types) = ((name ≡ n) × (cls ≡ c)) ⊎ Listed name cls types

-- The old value where there is one.
abbrev pub or_else : Option ℕ → Option ℕ → Option ℕ
or_else none new = new
or_else (some i) new = some i

module _ (construct : Constructor) where
  -- A class without an instance that gets one does not touch those of other classes.
  kept-Has :
      (unique : Bool) (cls : String) (r : Result ℕ) (s : Registry) (c : String) (i : ℕ)
      → (unique ≡ false → lookup cls s.instances ≡ none)
      → Has c i s
      → Has c i (keep_instance unique cls r s).1
  unfolding keep_instance
  kept-Has true cls (ok j) s c i new has = has
  kept-Has false cls (ok j) s c i new has =
      ground (arith, new refl, lookup-insert c cls j s.instances, eq_iff cls c)
  kept-Has unique cls (raised (exception k m)) s c i new has = has
  kept-Has unique cls (raised keyboard_interrupt) s c i new has = has
  kept-Has unique cls (raised (system_exit m)) s c i new has = has

  from-Has :
      (unique : Bool) (cls : String) (found : Option ℕ) (s : Registry) (c : String) (i : ℕ)
      → reused unique cls s ≡ found
      → Has c i s
      → Has c i (instantiate_from construct unique cls found s).1
  unfolding instantiate_from
  from-Has unique cls (some j) s c i e has = has
  from-Has true cls none s c i e has =
      kept-Has true cls _ (called cls s) c i (λ h. absurd (cc h)) has
  from-Has false cls none s c i e has = kept-Has false cls _ (called cls s) c i (λ _. e) has

  extension-Has :
      (unique : Bool) (cls : String) (s : Registry) (c : String) (i : ℕ)
      → Has c i s
      → Has c i (instantiate_extension construct unique cls s).1
  unfolding instantiate_extension
  extension-Has unique cls s c i has = from-Has unique cls (reused unique cls s) s c i refl has

  then-Has :
      (c : String) (i : ℕ) (k : Option ℕ → Registry → Result (Dict ℕ) × Registry)
      (m : Result (Option ℕ) × Registry)
      → Has c i m.1
      → ((made : Option ℕ) (s : Registry) → Has c i s → Has c i (k made s).1)
      → Has c i (and_then k m).1
  then-Has c i k (ok made, s) has rest = rest made s has
  then-Has c i k (raised e, s) has rest = has

  -- Once a class has an instance, no later loading of extensions gives it another one.
  instantiate_all-Has :
      (unique : Bool) (types : Dict String) (found : Dict ℕ) (s : Registry) (c : String) (i : ℕ)
      → Has c i s
      → Has c i (instantiate_all construct unique types found s).1
  unfolding instantiate_all
  instantiate_all-Has unique [] found s c i has = has
  instantiate_all-Has unique ((name, cls) ∷ types) found s c i has =
      then-Has c i _ (instantiate_extension construct unique cls s)
        (extension-Has unique cls s c i has)
        λ made s' has'. instantiate_all-Has unique types _ s' c i has'

  -- The result of the making of one instance is the one that the registry has for the class.
  abbrev Made : String → Result (Option ℕ) × Registry → Type 0
  Made cls (ok none, s) = Unit
  Made cls (ok (some i), s) = Has cls i s
  Made cls (raised e, s) = Unit

  keep-Made : (cls : String) (r : Result ℕ) (s : Registry) → Made cls (keep_instance false cls r s)
  unfolding keep_instance
  keep-Made cls (ok i) s = ground (arith, lookup-insert cls cls i s.instances, eq_iff cls cls)
  keep-Made cls (raised (exception k m)) s = tt
  keep-Made cls (raised keyboard_interrupt) s = tt
  keep-Made cls (raised (system_exit m)) s = tt

  from-Made :
      (cls : String) (found : Option ℕ) (s : Registry)
      → reused false cls s ≡ found
      → Made cls (instantiate_from construct false cls found s)
  unfolding instantiate_from
  from-Made cls none s e = keep-Made cls _ (called cls s)
  from-Made cls (some i) s e = e

  -- Each instance found is the one that the registry has for a class that its name is loaded with.
  abbrev pub Shared : Dict String → Registry → Dict ℕ → Type 0
  Shared types s = All (λ (name, i). (cls : String) × Listed name cls types × Has cls i s)

  abbrev AllShared : Dict String → Result (Dict ℕ) × Registry → Type 0
  AllShared types (ok found, s) = Shared types s found
  AllShared types (raised e, s) = Unit

  insert-Shared :
      (types : Dict String) (s : Registry) (name cls : String) (i : ℕ) (found : Dict ℕ)
      → Listed name cls types
      → Has cls i s
      → Shared types s found
      → Shared types s (insert name i found)
  unfolding insert
  insert-Shared types s name cls i [] listed has all = ((cls, listed, has), tt)
  insert-Shared types s name cls i ((k, j) ∷ found) listed has (first, rest) =
      from (k == name) refl (insert-Shared types s name cls i found listed has rest)
    where
      named : k == name ≡ true → k ≡ name
      named h = ground (arith, eq_iff k name)

      from :
          (b : Bool)
          → k == name ≡ b
          → Shared types s (insert name i found)
          → Shared types s (if b then (k, i) ∷ found else (k, j) ∷ insert name i found)
      from true same later = ((cls, rw (named same) listed, has), rest)
      from false other later = (first, later)

  abbrev Grows : Registry → Registry → Type 0
  Grows s s' = (c : String) (i : ℕ) → Has c i s → Has c i s'

  later-Shared :
      (types : Dict String) (s s' : Registry) (found : Dict ℕ)
      → Grows s s'
      → Shared types s found
      → Shared types s' found
  later-Shared types s s' [] grows all = tt
  later-Shared types s s' ((k, j) ∷ found) grows ((c, listed, has), rest) =
      ((c, listed, grows c j has), later-Shared types s s' found grows rest)

  added-Shared :
      (types : Dict String) (name cls : String) (made : Option ℕ) (s : Registry) (found : Dict ℕ)
      → Listed name cls types
      → Made cls (ok made, s)
      → Shared types s found
      → Shared types s (add_instance name made found)
  added-Shared types name cls none s found listed has all = all
  added-Shared types name cls (some i) s found listed has all =
      insert-Shared types s name cls i found listed has all

  then-Shared :
      (types : Dict String) (name cls : String) (found : Dict ℕ)
      (k : Option ℕ → Registry → Result (Dict ℕ) × Registry) (m : Result (Option ℕ) × Registry)
      → Listed name cls types
      → Made cls m
      → Shared types m.1 found
      → ((made : Option ℕ) (s : Registry)
          → Shared types s (add_instance name made found)
          → AllShared types (k made s))
      → AllShared types (and_then k m)
  then-Shared types name cls found k (ok made, s) listed has all rest =
      rest made s (added-Shared types name cls made s found listed has all)
  then-Shared types name cls found k (raised e, s) listed has all rest = tt

  loop-Shared :
      (types left : Dict String) (found : Dict ℕ) (s : Registry)
      → ((name cls : String) → Listed name cls left → Listed name cls types)
      → Shared types s found
      → AllShared types (instantiate_all construct false left found s)
  unfolding instantiate_all instantiate_extension
  loop-Shared types [] found s inside all = all
  loop-Shared types ((name, cls) ∷ left) found s inside all =
      then-Shared types name cls found _ (instantiate_extension construct false cls s)
        (inside name cls (inl (refl, refl))) (from-Made cls (reused false cls s) s refl)
        (later-Shared types s (instantiate_extension construct false cls s).1 found
          (λ c i has. extension-Has false cls s c i has) all)
        λ made s' all'. loop-Shared types left _ s' (λ n c listed. inside n c (inr listed)) all'

  instantiate_all-Shared :
      (types : Dict String) (s : Registry) (found : Dict ℕ)
      → (instantiate_all construct false types [] s).0 ≡ ok found
      → Shared types (instantiate_all construct false types [] s).1 found
  instantiate_all-Shared types s found got =
      from _ _ (loop-Shared types types [] s (λ n c listed. listed) tt) got
    where
      from :
          (r : Result (Dict ℕ)) (s' : Registry)
          → AllShared types (r, s')
          → r ≡ ok found
          → Shared types s' found
      from (ok d) s' all same = rw (← inside same) all
        where
          inside : Path (Result (Dict ℕ)) (ok d) (ok found) → d ≡ found
          inside h = cc h
      from (raised e) s' all same = absurd (cc same)

  -- Unless unique instances are asked for, every instance that the loading of extensions returns under a name is the one that
  -- the registry keeps afterwards for a class that was loaded with this name; and each class that had an instance before the
  -- loading has the same one after it.
  pub instantiate_all-Keeps :
      (types : Dict String) (s : Registry) (found : Dict ℕ) (c : String)
      → (instantiate_all construct false types [] s).0 ≡ ok found
      → Shared types (instantiate_all construct false types [] s).1 found
        × (lookup c (instantiate_all construct false types [] s).1.instances
            ≡ or_else
                (lookup c s.instances)
                (lookup c (instantiate_all construct false types [] s).1.instances))
  instantiate_all-Keeps types s found c got =
      (instantiate_all-Shared types s found got, kept (lookup c s.instances) refl)
    where
      kept :
          (old : Option ℕ)
          → lookup c s.instances ≡ old
          → lookup c (instantiate_all construct false types [] s).1.instances
            ≡ or_else old (lookup c (instantiate_all construct false types [] s).1.instances)
      kept none new = refl
      kept (some i) has = instantiate_all-Has false types [] s c i has
