-- ===== src/Create/Execution.antt =====
-- Which commands the creation of a local workspace runs.
use ros_team_workspace.Base.{
  zero, suc, ap, String, ◌≡◌, ◌≢◌, refl, ◌⊎◌, inl, inr, false, none, List, [], ◌∷◌, ◌++◌, arith,
}
use ros_team_workspace.Base.Result.{
  Error, exception, keyboard_interrupt, system_exit, Result, ok, raised, runtime_error,
}
use ros_team_workspace.Base.Text.{join}
use ros_team_workspace.Host.{Host, Call, Trace, exited, killed, ReturnCode}
use ros_team_workspace.Host.Prog.{lift, ◌>>=◌}
use ros_team_workspace.Utils.{run_bash_command, run_command}
use ros_team_workspace.Create.Args.{CreateArgs}
use ros_team_workspace.Create.Commands.{error_msg, execute_ws_cmd, execute_ws_cmds}

-- The process that runs a command of the workspace.
abbrev pub bash_call : List String → Call
bash_call ws_cmd = Call.run_process ("bash" ∷ "-c" ∷ join " " ws_cmd ∷ []) none

-- The record after the commands were run, one after the other.
abbrev pub ran : List (List String) → Trace → Trace
ran [] t = t
ran (c ∷ cs) t = ran cs (bash_call c ∷ t)

module _ (H : Host) where
  -- Each of the commands ends with code 0.
  abbrev pub AllDone : List (List String) → Trace → Type 0
  AllDone [] t = Unit
  AllDone (c ∷ cs) t =
      (H.run_process t ("bash" ∷ "-c" ∷ join " " c ∷ []) none ≡ ok (exited zero))
      × AllDone cs (bash_call c ∷ t)

  -- The command does not end with code 0.
  abbrev pub Fails : List String → Trace → Type 0
  Fails c t = H.run_process t ("bash" ∷ "-c" ∷ join " " c ∷ []) none ≢ ok (exited zero)

  -- All commands were run with success; or some were, then one was run that did not end with code 0, none after it,
  -- and the result is an error.
  abbrev pub Runs : List (List String) → Trace → Result (Unit {0}) × Trace → Type 0
  Runs cmds t (r, u) =
      ((r ≡ ok tt) × (u ≡ ran cmds t) × AllDone cmds t)
      ⊎ ((done : List (List String)) × (c : List String) × (rest : List (List String)) × (e : Error)
          × (cmds ≡ done ++ (c ∷ rest))
          × AllDone done t
          × Fails c (ran done t)
          × (u ≡ bash_call c ∷ ran done t)
          × (r ≡ raised e))

  abbrev failed : List String → Error
  failed c = exception runtime_error (error_msg H (join " " c))

  -- One command alone: its success, or the error that it ends with.
  abbrev One : CreateArgs → String → List String → Trace → Type 0
  One a id c t =
      ((execute_ws_cmd H a id c t ≡ (ok tt, bash_call c ∷ t)) × AllDone (c ∷ []) t)
      ⊎ ((e : Error) × (execute_ws_cmd H a id c t ≡ (raised e, bash_call c ∷ t)) × Fails c t)

  command-One :
      (a : CreateArgs) (id : String) (c : List String) (t : Trace)
      → a.docker ≡ false
      → a.ignore_ws_cmd_error ≡ false
      → One a id c t
  unfolding execute_ws_cmd run_bash_command run_command ◌>>=◌
  command-One a id c t plain strict =
      from (H.run_process t ("bash" ∷ "-c" ∷ join " " c ∷ []) none) refl
    where
      from :
          (r : Result ReturnCode)
          → H.run_process t ("bash" ∷ "-c" ∷ join " " c ∷ []) none ≡ r
          → One a id c t
      from (ok (exited zero)) e = inl (rw (plain, execute_ws_cmd) (ground arith), (e, tt))
      from (ok (exited (suc n))) e =
          inr (
            failed c,
            rw (plain, execute_ws_cmd) (rw strict (ground arith)),
            λ h. absurd (cc (e, h)),
          )
      from (ok (killed n)) e =
          inr (
            failed c,
            rw (plain, execute_ws_cmd) (rw strict (ground arith)),
            λ h. absurd (cc (e, h)),
          )
      from (raised (exception k m)) e =
          inr (
            failed c,
            rw (plain, execute_ws_cmd) (rw strict (ground arith)),
            λ h. absurd (cc (e, h)),
          )
      from (raised keyboard_interrupt) e =
          inr
            (keyboard_interrupt, rw (plain, execute_ws_cmd) (ground arith), λ h. absurd (cc (e, h)))
      from (raised (system_exit m)) e =
          inr (system_exit m, rw (plain, execute_ws_cmd) (ground arith), λ h. absurd (cc (e, h)))

  -- Without Docker, and without the option to ignore errors, the commands are run in their order, each
  -- after the one before has ended with code 0. The first one that does not end with code 0 ends the loop with an error.
  pub execute-Runs :
      (a : CreateArgs) (id : String) (cmds : List (List String)) (t : Trace)
      → a.docker ≡ false
      → a.ignore_ws_cmd_error ≡ false
      → Runs cmds t (execute_ws_cmds H a cmds id t)
  unfolding execute_ws_cmds lift ◌>>=◌
  execute-Runs a id [] t plain strict = inl (refl, refl, tt)
  execute-Runs a id (c ∷ cs) t plain strict = elim (command-One a id c t plain strict) [
    | inr (e, fails, not_done) ↦ rw fails (inr ([], c, cs, e, refl, tt, not_done, refl, refl))
    | inl (runs, (done, _)) ↦ rw runs (elim (execute-Runs a id cs (bash_call c ∷ t) plain strict) [
      | inl (r, u, all) ↦ inl (r, u, (done, all))
      | inr (before, d, rest, e, parts, all, not_done, u, r) ↦
          inr (c ∷ before, d, rest, e, ap (λ cs'. c ∷ cs') parts, (done, all), not_done, u, r)
    ])
  ]
