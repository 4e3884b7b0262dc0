-- ===== src/Launch/Started.antt =====
-- That robot_ros2_control.launch.py starts the spawner of each controller.
use ros_team_workspace.Base.{
  ℕ, zero, suc, ◌<◌, ◌+◌, String, ◌≡◌, refl, sym, ap, ◌∙◌, List, [], ◌∷◌, ◌++◌, inl, inr, length,
  arith,
}
use ros_team_workspace.Launch.{
  Substitution, text, LaunchDescription, Process, element, Event, started, exited, Node, Handler,
  Member, Run, handle,
}
use ros_team_workspace.Launch.Robot.{
  joint_state_broadcaster_spawner, spawners, robot_controller_spawners, delay_after,
  description_for,
}
use ros_team_workspace.Launch.Handlers.{previous, last_of-spawners}
use ros_team_workspace.Launch.Ordered.{Spawner, active, inactive, process_of, broadcaster}

-- The process whose exit a spawner waits for, for a number of active controllers after the first.
abbrev pub awaited : ℕ → Spawner → Process
awaited n (active i) = previous broadcaster "robot_controller_spawners" i
awaited n (inactive i) =
    previous (element "robot_controller_spawners" n) "inactive_robot_controller_spawners" i

abbrev pub InRange : ℕ → ℕ → Spawner → Type 0
InRange actives inactives (active i) = i < actives
InRange actives inactives (inactive i) = i < inactives

Member-left : {A : Type 0} (x : A) (xs ys : List A) → Member x xs → Member x (xs ++ ys)
Member-left x [] ys inside = elim inside [ ]
Member-left x (z ∷ xs) ys (inl same) = inl same
Member-left x (z ∷ xs) ys (inr inside) = inr (Member-left x xs ys inside)

Member-right : {A : Type 0} (x : A) (xs ys : List A) → Member x ys → Member x (xs ++ ys)
Member-right x [] ys inside = inside
Member-right x (z ∷ xs) ys inside = inr (Member-right x xs ys inside)

-- A handler of a list that starts a process after the exit of another.
abbrev HasHandler : Process → Process → List Handler → Type 0
HasHandler p q handlers =
    (h : Handler) × Member h handlers × (h.starts.process ≡ p) × (h.event ≡ exited q)

-- Each spawner of a list has its handler.
delay_after-has :
    (q : Process) (variable : String) (options controllers : List Substitution) (k i : ℕ)
    (target : Node)
    → target.process ≡ previous q variable k
    → i < length controllers
    → HasHandler
        (element variable (k + i))
        (previous q variable (k + i))
        (delay_after target (spawners variable options k controllers))
unfolding delay_after spawners
delay_after-has q variable options [] k i target before inside = absurd (omega arith)
delay_after-has q variable options (c ∷ controllers) k zero target before inside = (
  _,
  inl refl,
  ap (element variable) (omega arith),
  ap exited (before ∙ ap (previous q variable) (omega arith)),
)
delay_after-has q variable options (c ∷ controllers) k (suc i) target before inside =
    let smaller : i < length controllers = omega arith in
    let place : suc k + i ≡ k + suc i = omega arith in
    let (h, within, same, event) =
      delay_after-has q variable options controllers (suc k) i _ refl smaller in
    (h, inr within, rw place at same, rw place at event)

module _ (controller : Substitution) (controllers inactives : List Substitution) where
  abbrev launched : LaunchDescription
  launched = description_for controller controllers inactives

  abbrev active_handlers : List Handler
  active_handlers =
      delay_after joint_state_broadcaster_spawner
        (robot_controller_spawners (controller ∷ controllers))

  has_handler :
      (s : Spawner)
      → InRange (suc (length controllers)) (length inactives) s
      → HasHandler (process_of s) (awaited (length controllers) s) launched.handlers
  unfolding description_for
  has_handler (active i) within =
      let place : 0 + i ≡ i = omega arith in
      let (h, inside, same, event) =
        delay_after-has broadcaster "robot_controller_spawners" [] (controller ∷ controllers) 0 i
          joint_state_broadcaster_spawner refl within in
      (h, inr (Member-left h active_handlers _ inside), rw place at same, rw place at event)
  has_handler (inactive i) within =
      let place : 0 + i ≡ i = omega arith in
      let (h, inside, same, event) =
        delay_after-has (element "robot_controller_spawners" (length controllers))
          "inactive_robot_controller_spawners" (text "--inactive" ∷ []) inactives 0 i _
          (last_of-spawners "robot_controller_spawners" [] controllers 0 controller
              joint_state_broadcaster_spawner
            ∙ ap (element "robot_controller_spawners") (omega arith))
          within in
      (h, inr (Member-right h active_handlers _ inside), rw place at same, rw place at event)

-- Each active and each inactive controller has a spawner that can start as soon as the spawner before it has exited: the
-- first active one after the broadcaster's, the first inactive one after the last active one.
pub spawner-Starts :
    (controller : Substitution) (controllers inactives : List Substitution) (s : Spawner)
    (events : List Event)
    → InRange (suc (length controllers)) (length inactives) s
    → Run (description_for controller controllers inactives) events
    → Member (exited (awaited (length controllers) s)) events
    → Run (description_for controller controllers inactives) (started (process_of s) ∷ events)
spawner-Starts controller controllers inactives s events within run happened =
    let (h, inside, same, event) = has_handler controller controllers inactives s within in
    let awaited_event : Member h.event events = rw (sym event) at happened in
    rw same at (handle h run inside awaited_event)
