-- ===== src/Urdf/Removed.antt =====
-- What test_urdf_xacro.py leaves behind.
use ros_team_workspace.Base.{String, ◌≡◌, refl, Option, ◌∷◌}
use ros_team_workspace.Base.Result.{Result, ok, raised}
use ros_team_workspace.Host.{Host, Trace, temp_file, unlink}
use ros_team_workspace.Host.Prog.{lift, resume, ◌>>=◌}
use ros_team_workspace.Urdf.{finally, check_description, test_urdf_xacro}

resume-kept :
    {A : Type 0} (answer : Result (Unit {0})) (t : Trace) (r : Result A)
    → (resume (answer, t) (λ _. lift r)).1 ≡ t
unfolding lift
resume-kept (ok done) t r = refl
resume-kept (raised e) t r = refl

-- Whatever the commands do, the test of a package that is found, once its temporary file is made, removes it after them, as its last call.
pub test_urdf_xacro-removed :
    (H : Host) (get_package_share_directory : String → Result String)
    (which : String → Option String) (t : Trace) (share tmp : String)
    → get_package_share_directory "$PKG_NAME$" ≡ ok share
    → H.temp_file t "" ≡ ok tmp
    → (test_urdf_xacro H get_package_share_directory which t).1
      ≡ unlink tmp
        ∷ (check_description H get_package_share_directory which share tmp (temp_file "" ∷ t)).1
unfolding test_urdf_xacro finally ◌>>=◌
test_urdf_xacro-removed H get_package_share_directory which t share tmp found made =
    rw (found, made)
      (resume-kept (H.unlink _ tmp) _
        (check_description H get_package_share_directory which share tmp (temp_file "" ∷ t)).0)
