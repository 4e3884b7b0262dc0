-- ===== src/Base/Result.antt =====
-- Python's exceptions as values. `except Exception` catches `exception` and not the other two.
use Prim.Native.String.{String}
use mathlib.Core.Path.{◌≡◌, refl}
use mathlib.Core.Bool.{Bool, true, false}

-- The classes that the code tells apart. `docker_api` covers `ImageNotFound` and `NotFound`, which
-- derive from `APIError`; `docker_other` is a `DockerException` that is no `APIError`, `container_error` is a `ContainerError`.
pub data Kind : Type 0 where
  os_error yaml_error value_error type_error key_error attribute_error runtime_error : Kind
  unbound_local_error assertion_error plugin_error eof_error : Kind
  docker_api docker_other container_error other_error : Kind

pub data Error : Type 0 where
  exception : Kind → String → Error
  keyboard_interrupt : Error
  system_exit : String → Error

pub data Result {ℓ} (A : Type ℓ) : Type ℓ where
  ok : A → Result A
  raised : Error → Result A

infixl 5 ◌>>=◌
abbrev pub ◌>>=◌ {ℓ κ} : {A : Type ℓ} {B : Type κ} → Result A → (A → Result B) → Result B
ok a >>= f = f a
raised e >>= f = raised e

-- `if test: raise ValueError(message)`, before the rest.
abbrev pub reject {ℓ} : {A : Type ℓ} → Bool → Kind → String → Result A → Result A
reject true k message rest = raised (exception k message)
reject false k message rest = rest

-- A chain that returns a value got one from its first part.
pub first_of_bind {ℓ κ} :
    {A : Type ℓ} {B : Type κ} {b : B} (rest : A → Result B) (first : Result A)
    → (first >>= rest) ≡ ok b
    → (a : A) × (first ≡ ok a) × (rest a ≡ ok b)
first_of_bind rest (raised e) stops = cc
first_of_bind rest (ok a) goes = (a, refl, goes)
