-- ===== src/Command/Suppress.antt =====
-- rtwcli/rtwcli/rtwcli/command/__init__.py: the context manager `SuppressUsageOutput`, which keeps the
-- help from being printed while the known arguments are parsed.
pub mod Restored
use ros_team_workspace.Base.{
  ℕ, zero, suc, String, ◌≡◌, refl, Bool, true, false, Option, none, some, List, [], ◌∷◌, arith,
  eq_iff, ◌==◌, if◌then◌else◌, contains,
}
use ros_team_workspace.Base.Dict.{Dict, lookup, insert, lookup-insert}
use ros_team_workspace.Base.Result.{Result, ok, raised, Error, system_exit}

-- The method `exit` of a parser: argparse's own, or one that ignores a zero status.
pub data Exit : Type 0 where
  original_exit : Exit
  ignore_zero_exit : Exit → Exit

-- The method `print_help`: argparse's own, or a function that does nothing.
pub data PrintHelp : Type 0 where
  original_help : PrintHelp
  no_help : PrintHelp

abbrev pub Callbacks : Type 0
Callbacks = PrintHelp × Exit

-- A call of `exit(status)`: `none` where it returns, else the status with which the program ends.
unfoldable pub call_exit : Exit → ℕ → Option ℕ
call_exit original_exit status = some status
call_exit (ignore_zero_exit exit) zero = none
call_exit (ignore_zero_exit exit) (suc status) = call_exit exit (suc status)

abbrev pub suppressed : Callbacks → Callbacks
suppressed (help, exit) = (no_help, ignore_zero_exit exit)

-- The callbacks of one parser are saved and replaced.
abbrev pub suppress_one :
    String → Option Callbacks → Dict Callbacks × Dict Callbacks → Dict Callbacks × Dict Callbacks
suppress_one p none (saved, parsers) = (saved, parsers)
suppress_one p (some c) (saved, parsers) = (insert p c saved, insert p (suppressed c) parsers)

-- `__enter__`: the callbacks saved, and the parsers with the new ones.
unfoldable pub enter :
    List String → Dict Callbacks × Dict Callbacks → Dict Callbacks × Dict Callbacks
enter [] state = state
enter (p ∷ ps) (saved, parsers) = enter ps (suppress_one p (lookup p parsers) (saved, parsers))

-- `__exit__`
unfoldable pub leave : Dict Callbacks → Dict Callbacks → Dict Callbacks
leave [] parsers = parsers
leave ((p, c) ∷ rest) parsers = leave rest (insert p c parsers)

-- `with SuppressUsageOutput(ps): body`. The parsers are left alike where the body raises.
unfoldable pub with_suppressed :
    {A : Type 0}
    → List String
    → (Dict Callbacks → Result A × Dict Callbacks)
    → Dict Callbacks
    → Result A × Dict Callbacks
unfolding enter leave
with_suppressed ps body parsers =
    let (saved, inside) = enter ps ([], parsers) in
    let (result, after) = body inside in (result, leave saved after)
