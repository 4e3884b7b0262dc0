-- ===== src/Urdf.antt =====
-- templates/robot_description/test_urdf_xacro.py: the test of the robot's description in a generated package. The placeholders
-- between `$` are kept. The suffix of the temporary file is left out.
pub mod Removed
use ros_team_workspace.Base.{
  zero, suc, String, ◌<>◌, ◌≡◌, refl, ap, sym, ◌∙◌, Bool, true, false, Option, none, some, List, [],
  ◌∷◌, ◌++◌, ◌==◌, ◌⊎◌, inl, inr,
}
use ros_team_workspace.Base.Text.{join_path}
use ros_team_workspace.Base.Result.{Result, ok, raised, Error, assertion_error}
use ros_team_workspace.Host.{
  Host, Trace, Call, ReturnCode, exited, killed, temp_file, run_shell, unlink,
}
use ros_team_workspace.Host.Prog.{Prog, lift, pure, throw, call, attempt, resume, ◌>>=◌, ◌>>◌}
use ros_team_workspace.Host.Calls

-- `try: m finally: last`. An error of the last part replaces that of the first.
unfoldable pub finally : {A : Type 0} → Prog A → Prog (Unit {0}) → Prog A
unfolding ◌>>=◌
finally m last = attempt m >>= λ r. last >> lift r

-- `assert process.returncode == 0, message`
abbrev pub assert_zero : ReturnCode → String → Prog (Unit {0})
assert_zero (exited zero) message = pure tt
assert_zero (exited (suc n)) message = throw assertion_error message
assert_zero (killed n) message = throw assertion_error message

-- The text of what `shutil.which` finds.
abbrev pub which_text : Option String → String
which_text none = "None"
which_text (some path) = path

module _ (H : Host) (get_package_share_directory : String → Result String)
    (which : String → Option String) where
  abbrev pub xacro_command : String → String → String
  unfolding join_path
  xacro_command share tmp =
      which_text (which "xacro")
      <> " "
      <> join_path (join_path share "urdf") "$ROBOT_NAME$.urdf.xacro"
      <> " > "
      <> tmp

  abbrev pub check_urdf_command : String → String
  check_urdf_command tmp = which_text (which "check_urdf") <> " " <> tmp

  -- The body of the `try`.
  unfoldable pub check_description : String → String → Prog (Unit {0})
  unfolding ◌>>=◌
  check_description share tmp = do
    code ← Calls.run_shell H (xacro_command share tmp)
    assert_zero code " --- XACRO command failed ---"
    checked ← Calls.run_shell H (check_urdf_command tmp)
    assert_zero checked
        "\n --- URDF check failed! --- \nYour xacro does not unfold into a proper urdf robot description. Please check your xacro file."

  unfoldable pub test_urdf_xacro : Prog (Unit {0})
  unfolding check_description finally
  test_urdf_xacro = do
    share ← lift (get_package_share_directory "$PKG_NAME$")
    tmp ← Calls.temp_file H ""
    finally (check_description share tmp) (Calls.unlink H tmp)
