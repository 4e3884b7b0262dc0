-- ===== src/Launch/Handlers.antt =====
-- Which handlers of robot_ros2_control.launch.py start which process.
use ros_team_workspace.Base.{
  ℕ, zero, suc, String, ◌≡◌, ◌≢◌, refl, sym, ap, ◌∙◌, List, [], ◌∷◌, ◌++◌, ◌⊎◌, inl, inr, ◌+◌,
  arith, length,
}
use ros_team_workspace.Launch.{
  Substitution, text, LaunchDescription, Process, single, element, Node, Event, started, exited,
  Handler, Member, Run,
}
use ros_team_workspace.Launch.Runs.{Cause, start-Cause}
use ros_team_workspace.Launch.Robot.{
  joint_state_broadcaster_spawner, spawners, robot_controller_spawners, delay_after, last_of,
  description_for,
}

-- The process before a place in a list of spawners.
abbrev pub previous : Process → String → ℕ → Process
previous target variable zero = target
previous target variable (suc i) = element variable i

pub Member-append :
    {A : Type 0} (x : A) (xs ys : List A) → Member x (xs ++ ys) → Member x xs ⊎ Member x ys
Member-append x [] ys inside = inr inside
Member-append x (z ∷ xs) ys (inl same) = inl (inl same)
Member-append x (z ∷ xs) ys (inr inside) = elim (Member-append x xs ys inside) [
  | inl left ↦ inl (inr left)
  | inr right ↦ inr right
]

-- A handler of such a list starts one of its nodes after the exit of the one before it.
delay_after-previous :
    (q : Process) (variable : String) (options controllers : List Substitution) (k : ℕ)
    (target : Node) (h : Handler)
    → target.process ≡ previous q variable k
    → Member h (delay_after target (spawners variable options k controllers))
    → (i : ℕ) × (h.starts.process ≡ element variable i) × (h.event ≡ exited (previous q variable i))
unfolding delay_after spawners
delay_after-previous q variable options [] k target h before inside = elim inside [ ]
delay_after-previous q variable options (c ∷ controllers) k target h before (inl same) = (
  k,
  ap (λ (g : Handler). g.starts.process) same,
  ap (λ (g : Handler). g.event) same ∙ ap exited before,
)
delay_after-previous q variable options (c ∷ controllers) k target h before (inr inside) =
    delay_after-previous q variable options controllers (suc k) _ h refl inside

-- The last spawner of a list that is not empty.
pub last_of-spawners :
    (variable : String) (options controllers : List Substitution) (k : ℕ) (c : Substitution)
    (n : Node)
    → (last_of n (spawners variable options k (c ∷ controllers))).process
      ≡ element variable (k + length controllers)
unfolding spawners
last_of-spawners variable options [] k c n = ap (element variable) (omega arith)
last_of-spawners variable options (d ∷ controllers) k c n =
    last_of-spawners variable options controllers (suc k) d n ∙ ap (element variable) (omega arith)

module _ (controller : Substitution) (controllers inactives : List Substitution) where
  abbrev pub d : LaunchDescription
  d = description_for controller controllers inactives

  -- The handlers of the description that start a spawner of a controller, or that of the broadcaster.
  abbrev pub Starts : Handler → Type 0
  Starts h =
      ((h.starts.process ≡ single "joint_state_broadcaster_spawner")
        × (h.event ≡ started (single "control_node")))
      ⊎ ((i : ℕ) × (h.starts.process ≡ element "robot_controller_spawners" i)
          × (h.event
              ≡ exited (
                  previous (single "joint_state_broadcaster_spawner") "robot_controller_spawners"
                    i)))
      ⊎ ((i : ℕ) × (h.starts.process ≡ element "inactive_robot_controller_spawners" i)
          × (h.event
              ≡ exited (
                  previous (element "robot_controller_spawners" (length controllers))
                    "inactive_robot_controller_spawners" i)))

  handler-Starts : (h : Handler) → Member h d.handlers → Starts h
  unfolding description_for
  handler-Starts h (inl same) =
      inl (ap (λ (g : Handler). g.starts.process) same, ap (λ (g : Handler). g.event) same)
  handler-Starts h (inr inside) =
      elim (Member-append h
        (delay_after joint_state_broadcaster_spawner
          (robot_controller_spawners (controller ∷ controllers)))
        _ inside) [
          | inl left ↦ inr (
              inl (
                delay_after-previous (single "joint_state_broadcaster_spawner")
                  "robot_controller_spawners" [] (controller ∷ controllers) 0
                  joint_state_broadcaster_spawner h refl left))
          | inr right ↦ inr (
              inr (
                delay_after-previous (element "robot_controller_spawners" (length controllers))
                  "inactive_robot_controller_spawners" (text "--inactive" ∷ []) inactives 0 _ h
                  (last_of-spawners "robot_controller_spawners" [] controllers 0 controller
                      joint_state_broadcaster_spawner
                    ∙ ap (element "robot_controller_spawners") (omega arith))
                  right))
        ]

  -- The nodes of the description are none of the spawners.
  node_single :
      (n : Node)
      → Member n d.nodes
      → (n.process ≡ single "control_node")
        ⊎ (n.process ≡ single "robot_state_pub_node")
        ⊎ (n.process ≡ single "rviz_node")
  unfolding description_for
  node_single n (inl same) = inl (ap (λ (m : Node). m.process) same)
  node_single n (inr (inl same)) = inr (inl (ap (λ (m : Node). m.process) same))
  node_single n (inr (inr (inl same))) = inr (inr (ap (λ (m : Node). m.process) same))
  node_single n (inr (inr (inr none_left))) = elim none_left [ ]

  pub not_node :
      (p : Process)
      → p ≢ single "control_node"
      → p ≢ single "robot_state_pub_node"
      → p ≢ single "rviz_node"
      → (n : Node) → Member n d.nodes
      → n.process ≢ p
  not_node p a b c n inside same = elim (node_single n inside) [
    | inl e ↦ a (sym same ∙ e)
    | inr rest ↦ elim rest [ inl e ↦ b (sym same ∙ e) | inr e ↦ c (sym same ∙ e) ]
  ]

  -- A process that is none of the nodes started by a handler.
  pub handler_of :
      (p : Process) (events : List Event)
      → ((n : Node) → Member n d.nodes → n.process ≢ p)
      → Run d (started p ∷ events)
      → (h : Handler) × Starts h × (h.starts.process ≡ p) × Member h.event events
  handler_of p events not_there run = from (start-Cause d p (started p ∷ events) events run refl)
    where
      from :
          Cause d p events
          → (h : Handler) × Starts h × (h.starts.process ≡ p) × Member h.event events
      from (inl (n, inside, same)) = absurd (not_there n inside same)
      from (inr (h, inside, same, happened)) = (h, handler-Starts h inside, same, happened)
