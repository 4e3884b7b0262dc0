-- ===== src/Delete/Order.antt =====
-- The configuration entry goes last: after the three other steps, and not before.
use ros_team_workspace.Base.{
  ap, ◌<>◌, String, ◌≡◌, ◌≢◌, refl, ◌⊎◌, inl, inr, Bool, true, false, List, [], ◌∷◌, ◌++◌,
  Bool-cases,
}
use ros_team_workspace.Base.Result.{
  Result, ok, raised, Error, exception, keyboard_interrupt, system_exit,
}
use ros_team_workspace.Workspace.{Workspace}
use ros_team_workspace.Config.{WorkspacesConfig, to_dict, remove_workspace}
use ros_team_workspace.Host.{Host, Call, Trace}
use mathlib.Core.Path.{subst, sym}
use ros_team_workspace.Base.{arith}
use ros_team_workspace.Host.Prog.{resume, Prog, lift, ◌>>=◌}
use ros_team_workspace.Host.Record.{Within, here, Within-trans, Only}
use ros_team_workspace.Host.Returns.{bind-returns, bind-covers}
use ros_team_workspace.ConfigFile.{workspaces_path, save_workspaces_config}
use ros_team_workspace.ConfigFile.Backup.{NoWrite, write-record}
use ros_team_workspace.Delete.Steps.{
  StepName, StepStats, remove_docker_container_step, remove_docker_image_step,
  remove_workspace_folder_step, remove_configuration_step, removal_steps, should_run, run_step,
  execute, keeping, run_remove_from_config,
}
use ros_team_workspace.Delete.Rules.{execute-Only, keeping-Only}
use ros_team_workspace.Delete.Safety.{container-NoWrite, image-NoWrite, folder-NoWrite}
use ros_team_workspace.Delete.{
  run_steps, after_step, caught, StepsEnd, all_done, step_failed, is_failed,
}

abbrev pub Outcome : Type 0
Outcome = Result (List StepStats × StepsEnd × WorkspacesConfig) × Trace

module _ (H : Host) (P : Outcome → Type 0) where
  -- One round of the loop, by how the step ends.
  pub run_steps-round :
      (s : StepName) (rest : List StepName) (ws : Workspace) (config : WorkspacesConfig)
      (steps : List StepStats) (t : Trace)
      → ((e : Error)
          → (execute H s ws config t).0 ≡ raised e
          → P (caught steps config e (execute H s ws config t).1))
      → ((stats : StepStats) (c : WorkspacesConfig)
          → (execute H s ws config t).0 ≡ ok (stats, c)
          → is_failed stats.status ≡ true
          → P (ok (steps ++ (stats ∷ []), step_failed s, c), (execute H s ws config t).1))
      → ((stats : StepStats) (c : WorkspacesConfig)
          → (execute H s ws config t).0 ≡ ok (stats, c)
          → is_failed stats.status ≡ false
          → P (run_steps H rest ws c (steps ++ (stats ∷ [])) (execute H s ws config t).1))
      → P (run_steps H (s ∷ rest) ws config steps t)
  unfolding run_steps ◌>>=◌
  run_steps-round s rest ws config steps t on_raise on_fail on_pass =
      let (r, u) = execute H s ws config t in by_result r refl
    where
      by_result :
          (r : Result (StepStats × WorkspacesConfig))
          → (execute H s ws config t).0 ≡ r
          → P (after_step s steps config (run_steps H rest ws) r (execute H s ws config t).1)
      by_result (raised e) same = on_raise e same
      by_result (ok (stats, c)) same = elim (Bool-cases (is_failed stats.status)) [
        | inl fails ↦ rw fails (on_fail stats c same fails)
        | inr passes ↦ rw passes (on_pass stats c same passes)
      ]

module _ (H : Host) (ws : Workspace) where
  quiet_step-NoWrite :
      (s : StepName) (c : WorkspacesConfig)
      → s ≢ remove_configuration_step
      → Only NoWrite (execute H s ws c)
  unfolding run_step
  quiet_step-NoWrite remove_docker_container_step c h =
      execute-Only H NoWrite _ ws c λ _. keeping-Only H NoWrite c _ (container-NoWrite H ws)
  quiet_step-NoWrite remove_docker_image_step c h =
      execute-Only H NoWrite _ ws c λ _. keeping-Only H NoWrite c _ (image-NoWrite H ws)
  quiet_step-NoWrite remove_workspace_folder_step c h =
      execute-Only H NoWrite _ ws c λ _. keeping-Only H NoWrite c _ (folder-NoWrite H ws)
  quiet_step-NoWrite remove_configuration_step c h = absurd (h refl)

  keeping_config :
      (m : Prog (Bool × String)) (c : WorkspacesConfig) (t : Trace) (b : Bool) (x : String)
      (d : WorkspacesConfig)
      → (keeping H c m t).0 ≡ ok (b, x, d)
      → d ≡ c
  unfolding lift
  keeping_config m c t b x d h = let (a, _, _, e) = bind-returns m _ t (b, x, d) h in cc

  step-config :
      (s : StepName) (m : Prog (Bool × String)) (c : WorkspacesConfig) (t : Trace)
      (stats : StepStats) (d : WorkspacesConfig)
      → run_step H s ws c ≡ keeping H c m
      → (execute H s ws c t).0 ≡ ok (stats, d)
      → d ≡ c
  unfolding execute lift
  step-config s m c t stats d same h = elim (Bool-cases (should_run s ws)) [
    | inr skips ↦ let h' = rw skips at h in cc
    | inl runs ↦
        let h' = rw runs at h in
        let (a, ran, _, e) = bind-returns (run_step H s ws c) _ t (stats, d) h' in
        let (b, x, d') = a in
        keeping_config m c t b x d
          (cc (ap (λ (p : Prog (Bool × String × WorkspacesConfig)). (p t).0) same))
  ]

  quiet_step-config :
      (s : StepName) (c : WorkspacesConfig) (t : Trace) (stats : StepStats) (d : WorkspacesConfig)
      → s ≢ remove_configuration_step
      → (execute H s ws c t).0 ≡ ok (stats, d)
      → d ≡ c
  unfolding run_step
  quiet_step-config remove_docker_container_step c t stats d other h =
      step-config _ _ c t stats d refl h
  quiet_step-config remove_docker_image_step c t stats d other h =
      step-config _ _ c t stats d refl h
  quiet_step-config remove_workspace_folder_step c t stats d other h =
      step-config _ _ c t stats d refl h
  quiet_step-config remove_configuration_step c t stats d other h = absurd (other refl)

  -- The document that a removal may write: the configuration without the workspace.
  abbrev pub without_ws : WorkspacesConfig → WorkspacesConfig
  without_ws c = (remove_workspace ws.ws_name c).1

  -- The newest call writes the configuration without the workspace, and nothing was written before.
  abbrev pub WroteLast : WorkspacesConfig → Trace → Trace → Type 0
  WroteLast c t u =
      (v : Trace) × Within NoWrite t v
      × (u ≡ Call.write_yaml (workspaces_path H) (to_dict (without_ws c)) ∷ v)

  from_config-record :
      (c : WorkspacesConfig) (t v : Trace)
      → Within NoWrite t v
      → Within NoWrite t (run_remove_from_config H ws c v).1
          × ((run_remove_from_config H ws c v).0
              ≡ ok (
                false,
                "Failed to remove workspace '" <> ws.ws_name <> "' from workspace config",
                without_ws c,
              ))
        ⊎ WroteLast c t (run_remove_from_config H ws c v).1
  unfolding run_remove_from_config lift save_workspaces_config
  from_config-record c t v w = elim (Bool-cases (remove_workspace ws.ws_name c).0) [
    | inr unknown ↦ rw unknown (inl (w, refl))
    | inl known ↦ rw known (
        inr (
          bind-covers (WroteLast c t) (save_workspaces_config H (workspaces_path H) (without_ws c))
            _ v wrote (λ saved _. wrote)))
  ]
    where
      wrote : WroteLast c t (save_workspaces_config H (workspaces_path H) (without_ws c) v).1
      wrote = (v, w, write-record H (workspaces_path H) (to_dict (without_ws c)) v)

  resume_value :
      {A B : Type 0} (r : Result A) (u : Trace) (f : A → B)
      → (resume (r, u) (λ a. lift (ok (f a)))).1 ≡ u
  unfolding lift
  resume_value (ok a) u f = refl
  resume_value (raised e) u f = refl

  config_step-record :
      (c : WorkspacesConfig) (v : Trace)
      → (execute H remove_configuration_step ws c v).1 ≡ (run_remove_from_config H ws c v).1
  unfolding execute ◌>>=◌ run_step
  config_step-record c v = let (r, u) = run_remove_from_config H ws c v in resume_value r u _

  config_step-failed :
      (c : WorkspacesConfig) (v : Trace) (x : String) (d : WorkspacesConfig) (stats : StepStats)
      (d' : WorkspacesConfig)
      → (run_remove_from_config H ws c v).0 ≡ ok (false, x, d)
      → (execute H remove_configuration_step ws c v).0 ≡ ok (stats, d')
      → is_failed stats.status ≡ true
  unfolding execute ◌>>=◌ run_step
  config_step-failed c v x d stats d' ran h =
      let (a, ran', _, e) = bind-returns (run_remove_from_config H ws c) _ v (stats, d') h in
      ground (arith, ran', e)

  -- Three steps are on the list, and none of them failed.
  abbrev pub ThreePassed : List StepStats → Type 0
  ThreePassed steps =
      (a : StepStats) × (b : StepStats) × (c : StepStats) × (rest : List StepStats) × (steps
        ≡ a ∷ b ∷ c ∷ rest)
      × (is_failed a.status ≡ false)
      × (is_failed b.status ≡ false)
      × (is_failed c.status ≡ false)

  abbrev IsExit : Error → Type 0
  IsExit (system_exit m) = Unit
  IsExit e = ⊥

  -- Either no YAML file was written and the removal is not complete, or the write was the last call and came after three
  -- steps that did not fail. Of the exceptions only a `SystemExit` of a step gets out.
  abbrev pub Ordered : WorkspacesConfig → Trace → Outcome → Type 0
  Ordered config t (raised e, u) = IsExit e × (Within NoWrite t u ⊎ WroteLast config t u)
  Ordered config t (ok (steps, end, c), u) =
      Within NoWrite t u × (end ≢ all_done) ⊎ WroteLast config t u × ThreePassed steps

  quiet-caught :
      (config c : WorkspacesConfig) (steps : List StepStats) (t u : Trace)
      → Within NoWrite t u
      → (e : Error) → Ordered config t (caught steps c e u)
  unfolding lift
  quiet-caught config c steps t u w keyboard_interrupt = inl (w, λ h. cc h)
  quiet-caught config c steps t u w (exception k m) = inl (w, λ h. cc h)
  quiet-caught config c steps t u w (system_exit m) = (tt, inl w)

  wrote-caught :
      (config c : WorkspacesConfig) (steps : List StepStats) (t u : Trace)
      → WroteLast config t u
      → ThreePassed steps
      → (e : Error) → Ordered config t (caught steps c e u)
  unfolding lift
  wrote-caught config c steps t u wrote passed keyboard_interrupt = inr (wrote, passed)
  wrote-caught config c steps t u wrote passed (exception k m) = inr (wrote, passed)
  wrote-caught config c steps t u wrote passed (system_exit m) = (tt, inr wrote)

  last_round :
      (a b c : StepStats) (config : WorkspacesConfig) (t v : Trace)
      → Within NoWrite t v
      → is_failed a.status ≡ false
      → is_failed b.status ≡ false
      → is_failed c.status ≡ false
      → Ordered config t (run_steps H (remove_configuration_step ∷ []) ws config (a ∷ b ∷ c ∷ []) v)
  unfolding run_steps lift
  last_round a b c config t v w pa pb pc = elim (from_config-record config t v w) [
    | inl (quiet, ran) ↦
        let quiet' = rw (← config_step-record config v) at quiet in
        run_steps-round H (Ordered config t) remove_configuration_step [] ws config (a ∷ b ∷ c ∷ [])
          v (λ e _. quiet-caught config config _ t _ quiet' e)
          (λ stats d _ _. inl (quiet', λ h. cc))
          (λ stats d same passes. absurd (cc (config_step-failed config v _ _ stats d ran same)))
    | inr wrote ↦
        let wrote' = subst (WroteLast config t) (sym (config_step-record config v)) wrote in
        run_steps-round H (Ordered config t) remove_configuration_step [] ws config (a ∷ b ∷ c ∷ [])
          v (λ e _. wrote-caught config config _ t _ wrote' (a, b, c, [], refl, pa, pb, pc) e)
          (λ stats d _ _. inr (wrote', (a, b, c, stats ∷ [], refl, pa, pb, pc)))
          (λ stats d _ _. inr (wrote', (a, b, c, stats ∷ [], refl, pa, pb, pc)))
  ]

  -- A round of a step that does not write: it ends the loop with nothing written, or goes on with the
  -- same configuration.
  quiet_round :
      (s : StepName) (rest : List StepName) (config : WorkspacesConfig) (steps : List StepStats)
      (t v : Trace)
      → s ≢ remove_configuration_step
      → Within NoWrite t v
      → ((stats : StepStats) (u : Trace)
          → Within NoWrite t u
          → is_failed stats.status ≡ false
          → Ordered config t (run_steps H rest ws config (steps ++ (stats ∷ [])) u))
      → Ordered config t (run_steps H (s ∷ rest) ws config steps v)
  quiet_round s rest config steps t v other w go_on =
      run_steps-round H (Ordered config t) s rest ws config steps v
        (λ e _. quiet-caught config config steps t _ after e) (λ stats d _ _. inl (after, λ h. cc))
        (λ stats d same passes.
          rw (quiet_step-config s config v stats d other same)
            (go_on stats (execute H s ws config v).1 after passes))
    where
      after : Within NoWrite t (execute H s ws config v).1
      after = Within-trans NoWrite t w ((quiet_step-NoWrite s config other).at v)

  -- Of the exceptions only a `SystemExit` of a step gets out of the four steps of one removal. Either no YAML file is
  -- written, and the removal does not end as done; or the last call writes the configuration without the workspace, no YAML
  -- file was written before, and unless that step exits, three steps are on the list of statistics before it, none of them failed.
  pub removal-Ordered :
      (config : WorkspacesConfig) (t : Trace)
      → Ordered config t (run_steps H removal_steps ws config [] t)
  removal-Ordered config t =
      quiet_round remove_docker_container_step _ config [] t t (λ h. cc) here
        λ a u wa pa.
          quiet_round remove_docker_image_step _ config (a ∷ []) t u (λ h. cc) wa
            λ b v wb pb.
              quiet_round remove_workspace_folder_step _ config (a ∷ b ∷ []) t v (λ h. cc) wb
                λ c w wc pc. last_round a b c config t w wc pa pb pc
