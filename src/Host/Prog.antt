-- ===== src/Host/Prog.antt =====
-- Programs over the record of calls: a result or an exception, and the record after it. What was
-- done before an exception stays done.
use ros_team_workspace.Base.{String, Bool, true, false, Option, none, some, ◌∷◌, if◌then◌else◌}
use ros_team_workspace.Base.Result.{
  Result, ok, raised, Error, exception, Kind, os_error, yaml_error, docker_api, container_error,
  runtime_error, key_error,
}
use ros_team_workspace.Host.{Trace, Call}

abbrev pub Prog : Type 0 → Type 0
Prog A = Trace → Result A × Trace

unfoldable pub lift : {A : Type 0} → Result A → Prog A
lift r t = (r, t)

abbrev pub pure : {A : Type 0} → A → Prog A
pure a = lift (ok a)

abbrev pub throw : {A : Type 0} → Kind → String → Prog A
throw k message = lift (raised (exception k message))

-- One call: the machine's answer, and the call on the record.
unfoldable pub call : {A : Type 0} → (Trace → Result A) → Call → Prog A
call answer c t = (answer t, c ∷ t)

abbrev pub resume : {A B : Type 0} → Result A × Trace → (A → Prog B) → Result B × Trace
resume (ok a, t) f = f a t
resume (raised e, t) f = (raised e, t)

abbrev pub rescue : {A : Type 0} → Result A × Trace → (Error → Prog A) → Result A × Trace
rescue (ok a, t) h = (ok a, t)
rescue (raised e, t) h = h e t

-- `try: m except …: handler`, the handler by cases on the error.
unfoldable pub try : {A : Type 0} → Prog A → (Error → Prog A) → Prog A
try m h t = rescue (m t) h

-- `try: m except BaseException as e`, with the error as a value.
unfoldable pub attempt : {A : Type 0} → Prog A → Prog (Result A)
attempt m t = let (r, u) = m t in (ok r, u)

infixl 5 ◌>>=◌ ◌>>◌
-- Opening this opens `lift`, `call`, `try` and `attempt` too.
unfoldable pub ◌>>=◌ : {A B : Type 0} → Prog A → (A → Prog B) → Prog B
unfolding lift call try attempt
◌>>=◌ m f t = resume (m t) f

abbrev pub ◌>>◌ : {B : Type 0} → Prog (Unit {0}) → Prog B → Prog B
m >> k = m >>= λ _. k

-- `if o is None: m`, else `f` of the value.
abbrev pub on_option : {A B : Type 0} → Option A → Prog B → (A → Prog B) → Prog B
on_option none m f = m
on_option (some a) m f = f a

-- `except …: return v`, for the errors that the test names; others go on.
abbrev pub except_return : {A : Type 0} → (Error → Bool) → A → Error → Prog A
except_return caught v e = if caught e then pure v else lift (raised e)

abbrev pub is_os_error : Error → Bool
is_os_error (exception os_error m) = true
is_os_error e = false

-- `except (OSError, yaml.YAMLError)`
abbrev pub is_yaml_error : Error → Bool
is_yaml_error (exception os_error m) = true
is_yaml_error (exception yaml_error m) = true
is_yaml_error e = false

-- `except (docker.errors.NotFound, docker.errors.APIError)`
abbrev pub is_api_error : Error → Bool
is_api_error (exception docker_api m) = true
is_api_error e = false

-- `except Exception`
abbrev pub is_exception : Error → Bool
is_exception (exception k m) = true
is_exception e = false

-- `except (ContainerError, ImageNotFound, APIError)`
abbrev pub is_run_error : Error → Bool
is_run_error (exception docker_api m) = true
is_run_error (exception container_error m) = true
is_run_error e = false

-- `except RuntimeError`
abbrev pub is_runtime_error : Error → Bool
is_runtime_error (exception runtime_error m) = true
is_runtime_error e = false

-- `except KeyError`
abbrev pub is_key_error : Error → Bool
is_key_error (exception key_error m) = true
is_key_error e = false

-- `except …: raise RuntimeError(message)`, for the errors that the test names.
abbrev pub except_raise : {A : Type 0} → (Error → Bool) → String → Error → Prog A
except_raise caught message e = if caught e then throw runtime_error message else lift (raised e)
