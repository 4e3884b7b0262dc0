-- ===== src/Utils/Answers.antt =====
-- The question of utils.py that is asked until its answer is valid.
use ros_team_workspace.Base.{ℕ, zero, suc, String, ◌<>◌, ◌≡◌, Bool, none, some, ◌∷◌, if◌then◌else◌}
use ros_team_workspace.Base.Result.{Result, ok}
use ros_team_workspace.Base.Text.{lower, strip}
use ros_team_workspace.Host.{Host, Call, Trace}
use ros_team_workspace.Host.Prog.{Prog}
use ros_team_workspace.Utils.{read_answer}

-- The line that is shown.
abbrev pub shown_prompt : String → Bool → String
shown_prompt prompt default =
    prompt <> (if default then " (yes/no) [yes]: " else " (yes/no) [no]: ")

-- The user types so many lines that are no answer, and then one that is.
pub data Answered (H : Host) (prompt : String) (default : Bool) (answer : Bool)
    : ℕ → Trace → Type 0 where
  now :
      {t : Trace} (line : String)
      → H.ask_line t (shown_prompt prompt default) ≡ ok line
      → read_answer H default (lower (strip line)) ≡ some answer
      → Answered H prompt default answer zero t
  later :
      {n : ℕ} {t : Trace} (line : String)
      → H.ask_line t (shown_prompt prompt default) ≡ ok line
      → read_answer H default (lower (strip line)) ≡ none
      → Answered H prompt default answer n (Call.ask_line (shown_prompt prompt default) ∷ t)
      → Answered H prompt default answer (suc n) t
