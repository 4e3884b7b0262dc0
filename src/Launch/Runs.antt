-- ===== src/Launch/Runs.antt =====
-- What can be said of every run: why a process started, and what held when it did.
use ros_team_workspace.Base.{◌≡◌, refl, List, [], ◌∷◌, ◌⊎◌, inl, inr}
use ros_team_workspace.Launch.{
  LaunchDescription, Process, Node, Event, started, exited, Handler, Member, Run, ready, start_node,
  handle, exit,
}

-- Why a process started: the description has its node, or the event of a handler has happened.
abbrev pub Cause : LaunchDescription → Process → List Event → Type 0
Cause d p events =
    ((n : Node) × Member n d.nodes × (n.process ≡ p))
    ⊎ ((h : Handler) × Member h d.handlers × (h.starts.process ≡ p) × Member h.event events)

same_start :
    {p q : Process} {e f : List Event}
    → Path (List Event) (started p ∷ e) (started q ∷ f)
    → (p ≡ q) × (e ≡ f)
same_start h = (cc h, cc h)

module _ (d : LaunchDescription) where
  pub start-Cause :
      (p : Process) (all events : List Event)
      → Run d all
      → all ≡ started p ∷ events
      → Cause d p events
  start-Cause p [] events ready e = absurd (cc e)
  start-Cause p _ events (start_node n run inside) e =
      let (same, rest) = same_start e in inl (n, inside, same)
  start-Cause p _ events (handle h run inside happened) e =
      let (same, rest) = same_start e in inr (h, inside, same, rw rest at happened)
  start-Cause p _ events (exit q run happened) e = absurd (cc e)

  same_rest : {e f : Event} {es fs : List Event} → Path (List Event) (e ∷ es) (f ∷ fs) → es ≡ fs
  same_rest h = cc h

  pub tail_of :
      (all : List Event) (e : Event) (events : List Event)
      → Run d all
      → all ≡ e ∷ events
      → Run d events
  tail_of [] e events ready same = absurd (cc same)
  tail_of _ e events (start_node n run inside) same = rw (same_rest same) at run
  tail_of _ e events (handle h run inside happened) same = rw (same_rest same) at run
  tail_of _ e events (exit q run happened) same = rw (same_rest same) at run

  -- An earlier part of the run that ends with an event.
  abbrev Earlier : Event → List Event → Type 0
  Earlier e events =
      (before : List Event) × Run d (e ∷ before) × ((f : Event) → Member f before → Member f events)

  earlier : (e : Event) (events : List Event) → Run d events → Member e events → Earlier e events
  earlier e [] run inside = elim inside [ ]
  earlier e (f ∷ events) run (inl same) = (events, rw same run, λ g h. inr h)
  earlier e (f ∷ events) run (inr inside) =
      let (before, ended, within) =
        earlier e events (tail_of (f ∷ events) f events run refl) inside in
      (before, ended, λ g h. inr (within g h))

  -- A process that has exited has started before that.
  exit_cause :
      (p : Process) (all events : List Event)
      → Run d all
      → all ≡ exited p ∷ events
      → Member (started p) events
  exit_cause p [] events ready e = absurd (cc e)
  exit_cause p _ events (start_node n run inside) e = absurd (cc e)
  exit_cause p _ events (handle h run inside happened) e = absurd (cc e)
  exit_cause p _ events (exit q run happened) e = rw (same_exit e, same_rest e) at happened
    where
      same_exit : {es fs : List Event} → Path (List Event) (exited q ∷ es) (exited p ∷ fs) → q ≡ p
      same_exit h = cc h

  -- What holds of every part of the run that ends with a start of the process, and stays, holds once the process has exited.
  pub after_exit :
      (p : Process) (Q : List Event → Type 0) (events : List Event)
      → ((before after : List Event)
          → ((f : Event) → Member f before → Member f after)
          → Q before
          → Q after)
      → ((before : List Event) → Run d (started p ∷ before) → Q before)
      → Run d events
      → Member (exited p) events
      → Q events
  after_exit p Q events grows at_start run inside =
      let (before, ended, within) = earlier (exited p) events run inside in
      let (first, begun, within') =
        earlier (started p) before (tail_of (exited p ∷ before) (exited p) before ended refl)
          (exit_cause p (exited p ∷ before) before ended refl) in
      grows first events (λ f h. within f (within' f h)) (at_start first begun)
