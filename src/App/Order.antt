-- ===== src/App/Order.antt =====
-- `runAppAction`: in which order it installs, writes the state and prints, on every run.
use chainctl.Prelude.{◌≡◌, refl, sym, ap, ◌∙◌, subst, inl, inr, none, some, [], ◌∷◌, ◌++◌}
use chainctl.Result.{ok}
use chainctl.Exec.{gets, modify, ◌>>=◌, bind-elim, bind_lift-elim}
use chainctl.Text.{Str}
use chainctl.Profile.{Profile}
use chainctl.Logger.Phases.{Emitter, log}
use chainctl.CommandLog.{workflow_success}
use chainctl.App.{
  AppAction, SharedOptions, validate_app_action_inputs, build_profile_for_action, at_path,
  resolve_state_overrides, build_state_record, workflow_step_name,
}
use chainctl.App.Sources.{
  ResolutionResult, resolve_chart_source, build_helm_install_metadata, build_helm_install_args,
}
use chainctl.App.World.{Deps, Defaults, World, Host, StateManager, or_default, ensure_deps}
use chainctl.App.Run.{
  log_entry, prepare_app_installer, execute_helm_phase, persist_state, emit_output,
  init_app_telemetry, log_resolution, resolve_chart_with_logging, record_and_report, deploy,
  run_workflow, start_workflow, run_with_deps, run_app_action,
}
use chainctl.App.Effects.{
  Quiet, PhaseEnds, execute_helm_phase_ends, OutputEnds, emit_output_ends, PersistEnds,
  persist_state_ends, init_app_telemetry-Quiet, log_resolution-Quiet, log_resolution-eq-ok,
}
use chainctl.App.Endings.{executor_of, manager_of, Ending, chart_of, Ends, log_failure-Ends}

module _ (host : Host) (defaults : Defaults) (deps : Deps) (manager : StateManager)
    (action : AppAction) (o : SharedOptions) (managed : deps.state_manager ≡ some manager) where
  abbrev EndsFrom : World → Ending → Type 0
  EndsFrom = Ends host (executor_of deps) manager action o (chart_of defaults deps o)

  -- The end of a run that has written the state.
  report-Ends :
      (p : Profile) (hint : Str) (resolved : ResolutionResult) (before mid : World) (path : Str)
      (done : Ending)
      → build_profile_for_action o action ≡ ok p
      → resolve_state_overrides host.env o ≡ ok hint
      → chart_of defaults deps o ≡ ok resolved
      → executor_of deps p resolved.bundle ≡ none
      → let r = build_state_record p resolved.outcome action o in
        ((manager r (at_path hint) before.disk).0 ≡ ok path)
          × (mid.disk ≡ (manager r (at_path hint) before.disk).1)
        → mid.installs ≡ before.installs ++ (p, resolved.bundle) ∷ []
        → mid.printed ≡ before.printed
        → OutputEnds mid done
        → EndsFrom before done
  report-Ends p hint resolved before mid path done built located charted installed (written, disk)
        installs printed (same_disk, same_installs, inl (failed, same_printed)) =
      inr (
        inr (
          p,
          resolved,
          hint,
          built,
          located,
          charted,
          (
            installed,
            same_installs ∙ installs,
            same_disk ∙ disk,
            inl (failed, same_printed ∙ printed),
          ),
        ))
  report-Ends p hint resolved before mid path done built located charted installed (written, disk)
        installs printed (same_disk, same_installs, inr (returned, (output, added))) =
      inr (
        inr (
          p,
          resolved,
          hint,
          built,
          located,
          charted,
          (
            installed,
            same_installs ∙ installs,
            same_disk ∙ disk,
            inr (returned, (path, written), (output, added ∙ ap (λ l. l ++ output ∷ []) printed)),
          ),
        ))

  -- The end of a run whose installer has no error.
  persist-Ends :
      (p : Profile) (hint : Str) (em : Emitter) (resolved : ResolutionResult) (before mid : World)
      → build_profile_for_action o action ≡ ok p
      → resolve_state_overrides host.env o ≡ ok hint
      → chart_of defaults deps o ≡ ok resolved
      → executor_of deps p resolved.bundle ≡ none
      → mid.disk ≡ before.disk
      → mid.installs ≡ before.installs ++ (p, resolved.bundle) ∷ []
      → mid.printed ≡ before.printed
      → EndsFrom before (record_and_report host deps action o p hint em resolved mid)
  unfolding record_and_report log_entry gets modify ◌>>=◌
  persist-Ends p hint em resolved before mid built located charted installed disk installs printed =
      let r = build_state_record p resolved.outcome action o in
      let facts = persist_state_ends manager deps.state_manager r hint mid managed in
      let to_mid = ap (λ d. manager r (at_path hint) d) disk in
      bind-elim (EndsFrom before) (persist_state deps.state_manager r hint) _ mid
        (λ path after wrote.
          let (d, i, pr, how) = subst (PersistEnds manager r hint mid) wrote facts in
          elim how [
            | inl (e, bad) ↦ absurd (cc bad)
            | inr (given, written) ↦
                let success = workflow_success (workflow_step_name action) after.metadata in
                let last = record after { lines = log em success after.lines } in
                report-Ends p hint resolved before last given
                  (emit_output host p resolved.outcome path action o last) built located charted
                  installed (sym (ap (λ m. m.0) to_mid) ∙ written, d ∙ ap (λ m. m.1) to_mid)
                  (i ∙ installs) (pr ∙ printed)
                  (emit_output_ends host p resolved.outcome path action o last)
          ])
        (λ e after failed.
          let (d, i, pr, _) = subst (PersistEnds manager r hint mid) failed facts in
          inr (
            inr (
              p,
              resolved,
              hint,
              built,
              located,
              charted,
              (installed, i ∙ installs, d ∙ ap (λ m. m.1) to_mid, inl ((e, refl), pr ∙ printed)),
            )))

  deploy-Ends :
      (p : Profile) (hint : Str) (em : Emitter) (resolved : ResolutionResult) (before w : World)
      → build_profile_for_action o action ≡ ok p
      → resolve_state_overrides host.env o ≡ ok hint
      → chart_of defaults deps o ≡ ok resolved
      → (w.installs ≡ before.installs) × (w.disk ≡ before.disk) × (w.printed ≡ before.printed)
      → EndsFrom before (deploy host deps action o p hint em resolved w)
  unfolding deploy
  deploy-Ends p hint em resolved before w built located charted (installs, disk, printed) =
      let metadata = build_helm_install_metadata p resolved.outcome in
      let args = build_helm_install_args p o in
      let installer = prepare_app_installer deps.installer in
      let facts =
        execute_helm_phase_ends em host.clock installer p resolved.bundle metadata args w in
      let more = ap (λ l. l ++ (p, resolved.bundle) ∷ []) installs in
      bind-elim (EndsFrom before)
        (execute_helm_phase em host.clock installer p resolved.bundle metadata args) _ w
        (λ done mid ran.
          let (d, pr, how) = subst (PhaseEnds installer.0 p resolved.bundle w) ran facts in
          elim how [
            | inr ((e, bad), _) ↦ absurd (cc bad)
            | inl (_, installed, i) ↦
                persist-Ends p hint em resolved before mid built located charted installed
                  (d ∙ disk) (i ∙ more) (pr ∙ printed)
          ])
        (λ e mid failed.
          let (d, pr, how) = subst (PhaseEnds installer.0 p resolved.bundle w) failed facts in
          elim how [
            | inl (bad, _, _) ↦ absurd (cc bad)
            | inr (_, inl i) ↦ inl ((e, refl), (i ∙ installs, d ∙ disk, pr ∙ printed))
            | inr (_, inr i) ↦ inr (
                inl (
                  (e, refl),
                  (p, resolved.bundle, built, (resolved, charted, refl), i ∙ more),
                  d ∙ disk,
                  pr ∙ printed,
                ))
          ])

  workflow-Ends :
      (p : Profile) (hint : Str) (em : Emitter) (before w : World)
      → build_profile_for_action o action ≡ ok p
      → resolve_state_overrides host.env o ≡ ok hint
      → (w.installs ≡ before.installs) × (w.disk ≡ before.disk) × (w.printed ≡ before.printed)
      → EndsFrom before (start_workflow host defaults deps action o p hint em w)
  unfolding start_workflow run_workflow resolve_chart_with_logging log_entry modify ◌>>=◌
  workflow-Ends p hint em before w built located (installs, disk, printed) =
      let found =
        resolve_chart_source deps.resolver (or_default deps.bundle_loader defaults.load) o in
      log_failure-Ends host (executor_of deps) manager action o found before em
        (workflow_step_name action) _ _
        (bind-elim (EndsFrom before) (log_resolution host em o found) _ _
          (λ resolved mid ran.
            let (i, d, pr) = subst (Quiet w) ran (log_resolution-Quiet host em o found _) in
            deploy-Ends p hint em resolved before mid built located
              (log_resolution-eq-ok host em o found _ mid resolved ran)
              (i ∙ installs, d ∙ disk, pr ∙ printed))
          (λ e mid failed.
            let (i, d, pr) = subst (Quiet w) failed (log_resolution-Quiet host em o found _) in
            inl ((e, refl), (i ∙ installs, d ∙ disk, pr ∙ printed))))

  run-Ends : (before : World) → EndsFrom before (run_with_deps host defaults deps action o before)
  unfolding run_with_deps
  run-Ends before =
      let made = or_default deps.emitter defaults.emitter in
      bind_lift-elim (EndsFrom before) (validate_app_action_inputs o action) _ before
        (λ _ _.
          bind_lift-elim (EndsFrom before) (build_profile_for_action o action) _ before
            (λ p built.
              bind_lift-elim (EndsFrom before) (resolve_state_overrides host.env o) _ before
                (λ hint located.
                  bind-elim (EndsFrom before) (init_app_telemetry host made) _ before
                    (λ em mid ran.
                      workflow-Ends p hint em before mid built located
                        (subst (Quiet before) ran (init_app_telemetry-Quiet host made before)))
                    (λ e mid failed. inl (
                      (e, refl),
                      subst (Quiet before) failed (init_app_telemetry-Quiet host made before),
                    )))
                (λ e _. inl ((e, refl), (refl, refl, refl))))
            (λ e _. inl ((e, refl), (refl, refl, refl))))
        (λ e _. inl ((e, refl), (refl, refl, refl)))

-- A run of the command ends in one of three ways. It fails before it calls the installer, and
-- nothing is written or printed. It fails behind one call of the installer, for the profile of the
-- options and the bundle of the resolved chart, and the state is not touched. Or the installer is
-- called once, for that profile and bundle, and has no error, and only then the manager is called,
-- once, with the record of the profile and the resolved chart at the path that was resolved before:
-- then the run fails and prints nothing, or it returns after a write that returned and has printed
-- one output. In the last two the chart is the one that the resolution of the options gives.
pub run_app_action-Ends :
    (host : Host) (defaults : Defaults) (deps : Deps) (action : AppAction) (o : SharedOptions)
    (before : World)
    → Ends host
        (executor_of deps)
        (manager_of defaults deps)
        action
        o
        (chart_of defaults (ensure_deps defaults deps) o)
        before
        (run_app_action host defaults deps action o before)
unfolding run_app_action ensure_deps
run_app_action-Ends host defaults deps action o before =
    run-Ends host defaults (ensure_deps defaults deps) (manager_of defaults deps) action o refl
      before
