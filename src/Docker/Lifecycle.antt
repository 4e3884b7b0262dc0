-- ===== src/Docker/Lifecycle.antt =====
-- rtw_cmds/docker/verbs.py: what the start and stop routines do to the container.
use ros_team_workspace.Base.{
  zero, String, ◌≡◌, Bool, true, false, ◌⊎◌, none, [], ◌∷◌, Option, Bool-cases, inl, inr, arith,
  ◌==◌,
}
use ros_team_workspace.Base.Result.{Result, ok}
use ros_team_workspace.Workspace.{Workspace}
use ros_team_workspace.Host.{Host, Call, Trace, Container, exited}
use ros_team_workspace.Host.Prog.{lift, ◌>>=◌}
use ros_team_workspace.Host.Returns.{bind-outcome}
use ros_team_workspace.Base.{List, ap, ◌∙◌}
use ros_team_workspace.Utils.{run_command}
use ros_team_workspace.Utils.Commands.{run_command_outcome}
use ros_team_workspace.Docker.{
  is_docker_container_running, docker_start, docker_stop, start_command, stop_command,
  fix_missing_xauth_file,
}
use ros_team_workspace.Docker.Verbs.{
  check_workspace, container_of, container_start_routine, container_stop_routine,
}

-- The daemon knows the container and reports it as running.
abbrev pub Runs : Host → Trace → String → Type 0
Runs H t name = (c : Container) × (H.get_container t name ≡ ok c) × ((c.status == "running") ≡ true)

-- What the start routine relies on: a successful `docker start` leaves the container running, and looking at a container
-- changes nothing.
pub record IsDaemon (H : Host) : Type 0 where
  pub started :
      (t : Trace) (name : String)
      → H.run_process t (start_command H name) none ≡ ok (exited zero)
      → Runs H (Call.run_process (start_command H name) none ∷ t) name
  pub looked :
      (t : Trace) (name other : String)
      → H.get_container (Call.get_container other ∷ t) name ≡ H.get_container t name

-- What the stop routine relies on: a successful `docker stop` leaves the container not running.
abbrev pub StopsContainers : Host → Type 0
StopsContainers H =
    (t : Trace) (name : String)
    → H.run_process t (stop_command H name) none ≡ ok (exited zero)
    → ¬ Runs H (Call.run_process (stop_command H name) none ∷ t) name

module _ (H : Host) where
  running-Runs :
      (name : String) (t : Trace)
      → (is_docker_container_running H name t).0 ≡ ok true
      → Runs H t name
  unfolding is_docker_container_running ◌>>=◌
  running-Runs name t h = ground arith

  Runs-running :
      (name : String) (t : Trace)
      → Runs H t name
      → (is_docker_container_running H name t).0 ≡ ok true
  unfolding is_docker_container_running ◌>>=◌
  Runs-running name t (c, got, runs) = ground arith

  running-record :
      (name : String) (t : Trace)
      → (is_docker_container_running H name t).1 ≡ Call.get_container name ∷ t
  unfolding is_docker_container_running ◌>>=◌
  running-record name t = ground arith

  command-exited :
      (command : List String) (t : Trace)
      → (run_command H command none [] t).0 ≡ ok true
      → H.run_process t command none ≡ ok (exited zero)
  unfolding ◌>>=◌
  command-exited command t h =
      let (code, ran, status) = (run_command_outcome H command none [] t).1.0 h in ground arith

  start_command-Runs :
      IsDaemon H
      → (name : String) (t : Trace) → (docker_start H name t).0 ≡ ok true
      → Runs H (docker_start H name t).1 name
  unfolding docker_start
  start_command-Runs D name t h =
      rw (run_command_outcome H (start_command H name) none [] t).0
        (D.started t name (command-exited (start_command H name) t h))

  looked-Runs :
      IsDaemon H
      → (name : String) (t : Trace) → Runs H t name
      → Runs H (is_docker_container_running H name t).1 name
  looked-Runs D name t (c, got, runs) =
      rw (running-record name t) (c, D.looked t name name ∙ got, runs)

  -- On a machine whose daemon keeps a started container running, and where looking at a container changes nothing: where the
  -- start routine returns true, the container of the workspace is reported as running afterwards.
  pub start-Runs :
      IsDaemon H
      → (ws : Option Workspace) (t : Trace) → (container_start_routine H ws t).0 ≡ ok true
      → Runs H (container_start_routine H ws t).1 (container_of ws)
  unfolding container_start_routine lift
  start-Runs D ws t =
      elim (Bool-cases (check_workspace ws)) as (λ _. P (container_start_routine H ws t)) [
        | inr bad ↦ rw bad (λ h. absurd (cc))
        | inl good ↦ rw good (
            bind-outcome P (is_docker_container_running H (container_of ws)) _ t
              (λ e h. absurd (cc))
              λ running seen. elim (Bool-cases running) [
                | inl up ↦ rw up (λ _.
                    looked-Runs D (container_of ws) t
                      (running-Runs (container_of ws) t (seen ∙ ap ok up)))
                | inr down ↦ rw down (
                    bind-outcome P (fix_missing_xauth_file H (container_of ws)) _ _
                      (λ e h. absurd (cc))
                      λ fixed _. elim (Bool-cases fixed) [
                        | inl done ↦ rw done (start_command-Runs D (container_of ws) _)
                        | inr missing ↦ rw missing (λ h. absurd (cc))
                      ])
              ])
      ]
    where
      P : Result Bool × Trace → Type 0
      P (r, u) = r ≡ ok true → Runs H u (container_of ws)

  stop_command-Stopped :
      StopsContainers H
      → (name : String) (t : Trace) → (docker_stop H name t).0 ≡ ok true
      → ((docker_stop H name t).1 ≡ Call.run_process (stop_command H name) none ∷ t)
        × ¬ Runs H (docker_stop H name t).1 name
  unfolding docker_stop
  stop_command-Stopped D name t h = (
    (run_command_outcome H (stop_command H name) none [] t).0,
    rw (run_command_outcome H (stop_command H name) none [] t).0
        (D t name (command-exited (stop_command H name) t h)),
  )

  -- The routine looked at the container. Either it was reported as running, and the routine then stopped it; or it was not,
  -- and the routine did nothing more: its state is `exited`, say, or the lookup ended in an `APIError`.
  abbrev pub Stopped : String → Trace → Trace → Type 0
  Stopped name t u =
      (Runs H t name
        × (u ≡ Call.run_process (stop_command H name) none ∷ Call.get_container name ∷ t)
        × ¬ Runs H u name)
      ⊎ (¬ Runs H t name × (u ≡ Call.get_container name ∷ t))

  not_running :
      (name : String) (t : Trace)
      → (is_docker_container_running H name t).0 ≡ ok false
      → ¬ Runs H t name
  not_running name t seen r = absurd (cc (seen, Runs-running name t r))

  -- On a machine where a successful `docker stop` leaves the container not running: where the stop routine returns true, it
  -- has looked at the container. Either that was reported as running, and the one call after that stopped it, so that it is no
  -- longer reported as running; or it was not reported as running (an `APIError` of the lookup included), and there was no
  -- further call.
  pub stop-Stopped :
      StopsContainers H
      → (ws : Option Workspace) (t : Trace) → (container_stop_routine H ws t).0 ≡ ok true
      → Stopped (container_of ws) t (container_stop_routine H ws t).1
  unfolding container_stop_routine lift
  stop-Stopped D ws t =
      elim (Bool-cases (check_workspace ws)) as (λ _. P (container_stop_routine H ws t)) [
        | inr bad ↦ rw bad (λ h. absurd (cc))
        | inl good ↦ rw good (
            bind-outcome P (is_docker_container_running H (container_of ws)) _ t
              (λ e h. absurd (cc))
              λ running seen. elim (Bool-cases running) [
                | inl up ↦ rw up (λ h.
                    let (last, gone) = stop_command-Stopped D (container_of ws) _ h in
                    inl (
                      running-Runs (container_of ws) t (seen ∙ ap ok up),
                      last
                          ∙ ap (λ v. Call.run_process (stop_command H (container_of ws)) none ∷ v)
                              (running-record (container_of ws) t),
                      gone,
                    ))
                | inr down ↦ rw down (λ _. inr (
                  not_running (container_of ws) t (seen ∙ ap ok down),
                  running-record (container_of ws) t,
                ))
              ])
      ]
    where
      P : Result Bool × Trace → Type 0
      P (r, u) = r ≡ ok true → Stopped (container_of ws) t u
