-- ===== src/Launch.antt =====
-- The launch files in templates/, from which the packages of a robot are made: what they tell the library
-- `launch` to start, and when. The placeholders between `$` are kept as they stand there.
pub mod Robot
pub mod Simulation
pub mod Moveit
pub mod View
pub mod Runs
pub mod Handlers
pub mod Ordered
pub mod Started
use ros_team_workspace.Base.{ℕ, String, ◌≡◌, Option, none, some, List, [], ◌∷◌, ◌⊎◌}
use ros_team_workspace.Base.Dict.{Dict}

mutual
  -- A substitution, which is evaluated when the file is launched.
  pub data Substitution : Type 0 where
    text : String → Substitution
    launch_configuration : String → Substitution
    find_package_share : Substitution → Substitution
    find_executable : String → Substitution
    path_join : Parts → Substitution
    command : Parts → Substitution

  pub data Parts : Type 0 where
    end : Parts
    part : Substitution → Parts → Parts

abbrev pub parts : List Substitution → Parts
parts [] = end
parts (s ∷ rest) = part s (parts rest)

-- A parameter of a node: a file, or a value with a name.
pub data Parameter : Type 0 where
  file : Substitution → Parameter
  value : String → Substitution → Parameter

-- The variable that holds a node, or the place in the list that does.
pub data Process : Type 0 where
  single : String → Process
  element : String → ℕ → Process

pub data Output : Type 0 where
  unset : Output
  to : String → Output
  streams : Dict String → Output

pub record Node : Type 0 where
  pub process : Process
  pub package_name : String
  pub executable : String
  pub name : Option String
  pub output : Output
  pub arguments : List Substitution
  pub parameters : List Parameter

abbrev pub new_node : Process → String → String → Node
new_node process package_name executable = record {
  process = process;
  package_name = package_name;
  executable = executable;
  name = none;
  output = unset;
  arguments = [];
  parameters = [];
}

-- `DeclareLaunchArgument`, without its description.
pub record Declaration : Type 0 where
  pub name : String
  pub default_value : String
  pub choices : List String

abbrev pub declare : String → String → Declaration
declare name default_value = record { name = name; default_value = default_value; choices = [] }

-- The start or the exit of a process.
pub data Event : Type 0 where
  started exited : Process → Event

-- `RegisterEventHandler`, for `OnProcessStart` and `OnProcessExit`: the node starts after the event, with a delay in
-- tenths of a second where there is a `TimerAction`.
pub record Handler : Type 0 where
  pub event : Event
  pub period : ℕ
  pub starts : Node

abbrev pub on_process_start : Node → ℕ → Node → Handler
on_process_start target period node = record {
  event = started target.process;
  period = period;
  starts = node;
}

abbrev pub on_process_exit : Node → ℕ → Node → Handler
on_process_exit target period node = record {
  event = exited target.process;
  period = period;
  starts = node;
}

-- Another launch file that is included, with the arguments for it.
pub record Include : Type 0 where
  pub source : List Substitution
  pub launch_arguments : Dict String

pub record LaunchDescription : Type 0 where
  pub declared_arguments : List Declaration
  pub includes : List Include
  pub nodes : List Node
  pub handlers : List Handler

abbrev pub Member : {A : Type 0} → A → List A → Type 0
Member x [] = ⊥
Member x (y ∷ ys) = (x ≡ y) ⊎ Member x ys

-- What `launch` documents of a run, by the events so far, the newest first: a process starts because the
-- description has its node, or because the event of a handler has happened, any time after that; a process that exits has started.
pub data Run (d : LaunchDescription) : List Event → Type 0 where
  ready : Run d []
  start_node :
      {events : List Event} (n : Node)
      → Run d events
      → Member n d.nodes
      → Run d (started n.process ∷ events)
  handle :
      {events : List Event} (h : Handler)
      → Run d events
      → Member h d.handlers
      → Member h.event events
      → Run d (started h.starts.process ∷ events)
  exit :
      {events : List Event} (p : Process)
      → Run d events
      → Member (started p) events
      → Run d (exited p ∷ events)
