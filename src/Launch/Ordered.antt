-- ===== src/Launch/Ordered.antt =====
-- In which order the processes of robot_ros2_control.launch.py start.
use ros_team_workspace.Base.{
  ℕ, zero, suc, String, ◌≡◌, ◌≢◌, refl, sym, ◌∙◌, List, ◌∷◌, inl, inr, length,
}
use ros_team_workspace.Launch.{
  Substitution, Process, single, element, Event, started, exited, Handler, Member, Run, Node,
}
use ros_team_workspace.Launch.Runs.{tail_of, after_exit}
use ros_team_workspace.Launch.Robot.{description_for}
use ros_team_workspace.Launch.Handlers.{previous, d, Starts, not_node, handler_of}

-- A spawner of a controller: an active or an inactive one, with its place in the list.
pub data Spawner : Type 0 where
  active inactive : ℕ → Spawner

abbrev pub process_of : Spawner → Process
process_of (active i) = element "robot_controller_spawners" i
process_of (inactive i) = element "inactive_robot_controller_spawners" i

-- The control node has started, and the spawner of the broadcaster and the first active ones have exited.
abbrev pub ActiveDone : ℕ → List Event → Type 0
ActiveDone zero events =
    Member (started (single "control_node")) events
    × Member (exited (single "joint_state_broadcaster_spawner")) events
ActiveDone (suc i) events =
    Member (exited (element "robot_controller_spawners" i)) events × ActiveDone i events

-- So have all active ones, and the first inactive ones.
abbrev pub InactiveDone : ℕ → ℕ → List Event → Type 0
InactiveDone actives zero events = ActiveDone actives events
InactiveDone actives (suc i) events =
    Member (exited (element "inactive_robot_controller_spawners" i)) events
    × InactiveDone actives i events

-- What has happened before a spawner starts, for a number of active controllers.
abbrev pub Before : ℕ → Spawner → List Event → Type 0
Before actives (active i) events = ActiveDone i events
Before actives (inactive i) events = InactiveDone actives i events

abbrev Grows : (List Event → Type 0) → Type 0
Grows Q =
    (before after : List Event)
    → ((f : Event) → Member f before → Member f after)
    → Q before
    → Q after

active-grows : (i : ℕ) → Grows (ActiveDone i)
active-grows zero before after within (a, b) = (within _ a, within _ b)
active-grows (suc i) before after within (a, rest) =
    (within _ a, active-grows i before after within rest)

inactive-grows : (actives i : ℕ) → Grows (InactiveDone actives i)
inactive-grows actives zero before after within done = active-grows actives before after within done
inactive-grows actives (suc i) before after within (a, rest) =
    (within _ a, inactive-grows actives i before after within rest)

apart_single : {s v : String} {i : ℕ} → single s ≢ element v i
apart_single e = absurd (cc e)

apart_active :
    {i j : ℕ}
    → element "robot_controller_spawners" i ≢ element "inactive_robot_controller_spawners" j
apart_active e = absurd (cc e)

same_place : {v : String} {i j : ℕ} → Path Process (element v i) (element v j) → i ≡ j
same_place e = cc e

abbrev pub broadcaster : Process
broadcaster = single "joint_state_broadcaster_spawner"

abbrev last_active : ℕ → Process
last_active n = element "robot_controller_spawners" n

module _ (controller : Substitution) (controllers inactives : List Substitution) where
  abbrev Launched : List Event → Type 0
  Launched = Run (d controller controllers inactives)

  broadcaster_from :
      (events : List Event) (h : Handler)
      → Starts controller controllers inactives h
      → h.starts.process ≡ broadcaster
      → Member h.event events
      → Member (started (single "control_node")) events
  broadcaster_from events h (inl (p, e)) same happened = rw e at happened
  broadcaster_from events h (inr (inl (i, p, e))) same happened =
      absurd (apart_single (sym same ∙ p))
  broadcaster_from events h (inr (inr (i, p, e))) same happened =
      absurd (apart_single (sym same ∙ p))

  active_from :
      (k : ℕ) (events : List Event) (h : Handler)
      → Starts controller controllers inactives h
      → h.starts.process ≡ element "robot_controller_spawners" k
      → Member h.event events
      → Member (exited (previous broadcaster "robot_controller_spawners" k)) events
  active_from k events h (inl (p, e)) same happened = absurd (apart_single (sym p ∙ same))
  active_from k events h (inr (inl (i, p, e))) same happened =
      rw (e, same_place (sym p ∙ same)) at happened
  active_from k events h (inr (inr (i, p, e))) same happened = absurd (apart_active (sym same ∙ p))

  inactive_from :
      (k : ℕ) (events : List Event) (h : Handler)
      → Starts controller controllers inactives h
      → h.starts.process ≡ element "inactive_robot_controller_spawners" k
      → Member h.event events
      → Member
          (exited
            (previous (last_active (length controllers)) "inactive_robot_controller_spawners" k))
          events
  inactive_from k events h (inl (p, e)) same happened = absurd (apart_single (sym p ∙ same))
  inactive_from k events h (inr (inl (i, p, e))) same happened =
      absurd (apart_active (sym p ∙ same))
  inactive_from k events h (inr (inr (i, p, e))) same happened =
      rw (e, same_place (sym p ∙ same)) at happened

  not_spawner :
      (v : String) (i : ℕ) (n : Node)
      → Member n (d controller controllers inactives).nodes
      → n.process ≢ element v i
  not_spawner v i =
      not_node controller controllers inactives (element v i) (λ e. apart_single (sym e))
        (λ e. apart_single (sym e)) (λ e. apart_single (sym e))

  not_broadcaster :
      (n : Node) → Member n (d controller controllers inactives).nodes → n.process ≢ broadcaster
  not_broadcaster =
      not_node controller controllers inactives broadcaster (λ e. absurd (cc e))
        (λ e. absurd (cc e)) (λ e. absurd (cc e))

  broadcaster_done :
      (events : List Event)
      → Launched (started broadcaster ∷ events)
      → Member (started (single "control_node")) events
  broadcaster_done events run =
      let (h, starts, same, happened) =
        handler_of controller controllers inactives broadcaster events not_broadcaster run in
      broadcaster_from events h starts same happened

  active_before :
      (k : ℕ) (events : List Event)
      → Launched (started (element "robot_controller_spawners" k) ∷ events)
      → Member (exited (previous broadcaster "robot_controller_spawners" k)) events
  active_before k events run =
      let (h, starts, same, happened) =
        handler_of controller controllers inactives (element "robot_controller_spawners" k) events
          (not_spawner "robot_controller_spawners" k) run in
      active_from k events h starts same happened

  inactive_before :
      (k : ℕ) (events : List Event)
      → Launched (started (element "inactive_robot_controller_spawners" k) ∷ events)
      → Member
          (exited
            (previous (last_active (length controllers)) "inactive_robot_controller_spawners" k))
          events
  inactive_before k events run =
      let (h, starts, same, happened) =
        handler_of controller controllers inactives (element "inactive_robot_controller_spawners" k)
          events (not_spawner "inactive_robot_controller_spawners" k) run in
      inactive_from k events h starts same happened

  active_done :
      (i : ℕ) (events : List Event)
      → Launched (started (element "robot_controller_spawners" i) ∷ events)
      → ActiveDone i events
  active_done zero events run =
      let happened = active_before 0 events run in
      (
        after_exit (d controller controllers inactives) broadcaster
            (λ es. Member (started (single "control_node")) es) events
            (λ before after within h. within _ h) broadcaster_done
            (tail_of (d controller controllers inactives) _ _ events run refl) happened,
        happened,
      )
  active_done (suc i) events run =
      let happened = active_before (suc i) events run in
      (
        happened,
        after_exit (d controller controllers inactives) (element "robot_controller_spawners" i)
            (ActiveDone i) events (active-grows i) (active_done i)
            (tail_of (d controller controllers inactives) _ _ events run refl) happened,
      )

  inactive_done :
      (i : ℕ) (events : List Event)
      → Launched (started (element "inactive_robot_controller_spawners" i) ∷ events)
      → InactiveDone (suc (length controllers)) i events
  inactive_done zero events run =
      let happened = inactive_before 0 events run in
      (
        happened,
        after_exit (d controller controllers inactives) (last_active (length controllers))
            (ActiveDone (length controllers)) events (active-grows (length controllers))
            (active_done (length controllers))
            (tail_of (d controller controllers inactives) _ _ events run refl) happened,
      )
  inactive_done (suc i) events run =
      let happened = inactive_before (suc i) events run in
      (
        happened,
        after_exit (d controller controllers inactives)
            (element "inactive_robot_controller_spawners" i)
            (InactiveDone (suc (length controllers)) i) events
            (inactive-grows (suc (length controllers)) i) (inactive_done i)
            (tail_of (d controller controllers inactives) _ _ events run refl) happened,
      )

-- In every run of the launch file of a robot, with any lists of controllers, a spawner starts only when the control node has
-- started, and the spawner of the broadcaster, all active ones before it and, for an inactive one, all active and
-- the inactive ones before it have exited.
pub spawner-Ordered :
    (controller : Substitution) (controllers inactives : List Substitution) (s : Spawner)
    (events : List Event)
    → Run (description_for controller controllers inactives) (started (process_of s) ∷ events)
    → Before (suc (length controllers)) s events
spawner-Ordered controller controllers inactives (active i) events run =
    active_done controller controllers inactives i events run
spawner-Ordered controller controllers inactives (inactive i) events run =
    inactive_done controller controllers inactives i events run
