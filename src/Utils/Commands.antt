-- ===== src/Utils/Commands.antt =====
-- What the result of a command or of a file helper says about the machine.
use ros_team_workspace.Base.{
  zero, suc, String, ◌≡◌, refl, ◌↔◌, ◌⊎◌, inl, inr, true, false, Option, List, ◌∷◌, arith,
}
use ros_team_workspace.Base.Result.{Error, Result, ok, raised}
use ros_team_workspace.Host.{Host, Call, Trace, ReturnCode, exited, killed}
use ros_team_workspace.Host.Prog.{◌>>=◌, is_exception}
use ros_team_workspace.Utils.{run_command, has_code, exit_status}

exit_status-true :
    (codes : List ReturnCode) (code : ReturnCode)
    → (exit_status codes code ≡ true) ↔ ((code ≡ exited zero) ⊎ (has_code codes code ≡ true))
exit_status-true codes (exited zero) = (λ h. inl refl, λ h. refl)
exit_status-true codes (exited (suc n)) =
    (λ h. inr h, λ h. elim h [ inl e ↦ absurd (cc) | inr e ↦ e ])
exit_status-true codes (killed n) = (λ h. inr h, λ h. elim h [ inl e ↦ absurd (cc) | inr e ↦ e ])

module _ (H : Host) (command : List String) (cwd : Option String) (codes : List ReturnCode)
    (t : Trace) where
  code_of_success :
      (run_command H command cwd codes t).0 ≡ ok true
      → (code : ReturnCode) × (H.run_process t command cwd ≡ ok code)
        × (exit_status codes code ≡ true)
  unfolding run_command ◌>>=◌
  code_of_success h = from (H.run_process t command cwd) refl
    where
      from :
          (r : Result ReturnCode)
          → H.run_process t command cwd ≡ r
          → (code : ReturnCode) × (H.run_process t command cwd ≡ ok code)
            × (exit_status codes code ≡ true)
      from (ok code) e = (code, e, ground arith)
      from (raised x) e = absurd (ground arith)

  success_of_code :
      (code : ReturnCode)
      → H.run_process t command cwd ≡ ok code
      → exit_status codes code ≡ true
      → (run_command H command cwd codes t).0 ≡ ok true
  unfolding run_command ◌>>=◌
  success_of_code code e s = rw e (cc s)

  -- `run_command` runs the command once. It returns true exactly if the exit code is 0 or the process
  -- ended with a listed code, returns false on every other code and on every exception, and lets
  -- through only interrupts and exits.
  pub run_command_outcome :
      ((run_command H command cwd codes t).1 ≡ Call.run_process command cwd ∷ t)
      × (((run_command H command cwd codes t).0 ≡ ok true) ↔ (
          (code : ReturnCode) × (H.run_process t command cwd ≡ ok code)
          × ((code ≡ exited zero) ⊎ (has_code codes code ≡ true))))
      × ((e : Error)
          → ((run_command H command cwd codes t).0 ≡ raised e)
            ↔ ((H.run_process t command cwd ≡ raised e) × (is_exception e ≡ false)))
  unfolding run_command ◌>>=◌
  run_command_outcome = (
    ground arith,
    (
      λ h. let (code, e, s) = code_of_success h in (code, e, (exit_status-true codes code).0 s),
      λ (code, e, s). success_of_code code e ((exit_status-true codes code).1 s),
    ),
    λ e. ground arith,
  )
