-- ===== src/Command/Ends.antt =====
-- rtwcli/rtwcli/rtwcli/cli.py: how the program ends.
use ros_team_workspace.Base.{◌≡◌, refl, some, ◌∷◌}
use ros_team_workspace.Base.Result.{
  ok, raised, exception, keyboard_interrupt, system_exit, Kind, runtime_error, os_error, yaml_error,
  value_error, type_error, key_error, attribute_error, unbound_local_error, assertion_error,
  plugin_error, eof_error, docker_api, docker_other, container_error, other_error,
}
use ros_team_workspace.Command.Main.{Run, exception_text, exit_code}

-- How the program ends after the run of an extension: with its code, with 2 after an interrupt, with 1 and the text of the
-- exception after a `RuntimeError`, and with any other exception.
abbrev pub Ended : Run → Run → Type 0
Ended (ok code, out) end = end ≡ (ok code, out)
Ended (raised keyboard_interrupt, out) end = end ≡ (ok (some 2), out)
Ended (raised (exception runtime_error m), out) end = end ≡ (ok (some 1), exception_text ∷ out)
Ended (raised e, out) end = end ≡ (raised e, out)

pub exit_code-Ended : (r : Run) → Ended r (exit_code r)
unfolding exit_code
exit_code-Ended (ok code, out) = refl
exit_code-Ended (raised keyboard_interrupt, out) = refl
exit_code-Ended (raised (system_exit m), out) = refl
exit_code-Ended (raised (exception k m), out) = kinds k
  where
    kinds :
        (k : Kind) → Ended (raised (exception k m), out) (exit_code (raised (exception k m), out))
    kinds runtime_error = refl
    kinds os_error = refl
    kinds yaml_error = refl
    kinds value_error = refl
    kinds type_error = refl
    kinds key_error = refl
    kinds attribute_error = refl
    kinds unbound_local_error = refl
    kinds assertion_error = refl
    kinds plugin_error = refl
    kinds eof_error = refl
    kinds docker_api = refl
    kinds docker_other = refl
    kinds container_error = refl
    kinds other_error = refl
