-- ===== src/ClusterInstall/Guards.antt =====
-- `runInstall`: behind which checks it bootstraps and installs, on every run.
use chainctl.Prelude.{
  ◌≡◌, refl, ap, ◌∙◌, subst, ◌⊎◌, inl, inr, Bool, true, false, Option, none, [], ◌∷◌, ◌++◌,
  if◌then◌else◌,
}
use chainctl.Result.{Result, ok, err}
use chainctl.Exec.{modify, ◌>>=◌, bind-elim, bind_lift-elim, Keeps}
use chainctl.Text.{codes}
use chainctl.Profile.{Profile}
use chainctl.Bundle.{Bundle}
use chainctl.Helm.{Executor}
use chainctl.Logger.Phases.{Emitter, log}
use chainctl.CommandLog.{workflow_success}
use chainctl.App.World.{or_default}
use chainctl.ClusterInstall.{
  InstallOptions, Error, validate_install_options, build_profile, run_preflight_validation,
  build_install_metadata, build_helm_command_args,
}
use chainctl.ClusterInstall.World.{InstallDeps, Defaults, World, Host, Step}
use chainctl.ClusterInstall.Run.{
  log_entry, init_install_telemetry, configure_bootstrapper, configure_helm_installer,
  execute_bootstrap_phase, execute_install_helm_phase, emit_output, log_failure,
  validate_existing_cluster, prepare_bundle, apply_helm, apply_install, run_workflow,
  start_workflow, run_install,
}
use chainctl.ClusterInstall.Effects.{
  IsError, Bootstrap, started, Bootstrapped, BootstrapEnds, HelmEnds, execute_bootstrap_phase_ends,
  execute_install_helm_phase_ends,
}
use chainctl.ClusterInstall.Keeping.{
  Held, handle_install_dry_run-Keeps, emit_output-Keeps, init_install_telemetry-Keeps,
}

module _ {C : Type 0} (host : Host) (defaults : Defaults C) (deps : InstallDeps C)
    (o : InstallOptions) (before : World) where
  abbrev pub Ending : Type 0
  Ending = Result Error (Unit {0}) × World

  abbrev pub executor_of : Executor
  executor_of = (configure_helm_installer deps.helm_installer).0

  abbrev pub bootstrap_of : Emitter → Bootstrap
  bootstrap_of em = (configure_bootstrapper em deps.bootstrapper).0

  -- The options ask for a run that changes something, and every check passes.
  abbrev pub Allowed : Profile → Option Bundle → Type 0
  Allowed p b =
      (o.dry_run ≡ false)
      × (build_profile o ≡ ok p)
      × (run_preflight_validation (or_default deps.inspector defaults.inspector) ≡ ok tt)
      × (validate_existing_cluster host defaults deps o p ≡ ok tt)
      × (prepare_bundle host defaults deps o p ≡ ok b)

  abbrev pub Untouched : Ending → Type 0
  Untouched (r, after) =
      (IsError r ⊎ ((r ≡ ok tt) × (o.dry_run ≡ true)))
      × (after.bootstraps ≡ before.bootstraps)
      × (after.installs ≡ before.installs)

  abbrev pub OnlyBootstrapped : Ending → Type 0
  OnlyBootstrapped (r, after) =
      (p : Profile) × (b : Option Bundle) × Allowed p b
      × IsError r
      × (after.bootstraps ≡ before.bootstraps ++ started p)
      × (after.installs ≡ before.installs)

  abbrev pub Installed : Ending → Type 0
  Installed (r, after) =
      (p : Profile) × (b : Option Bundle) × (em : Emitter) × Allowed p b
      × Bootstrapped (bootstrap_of em) p
      × (IsError r ⊎ ((r ≡ ok tt) × (executor_of p b ≡ none)))
      × (after.bootstraps ≡ before.bootstraps ++ started p)
      × (after.installs ≡ before.installs ++ (p, b) ∷ [])

  abbrev pub Ends : Ending → Type 0
  Ends ending = Untouched ending ⊎ OnlyBootstrapped ending ⊎ Installed ending

  log_failure-Ends :
      (em : Emitter) (p : Profile) (r : Result Error (Unit {0})) (w : World)
      → Ends (r, w)
      → Ends (log_failure host em p (r, w))
  unfolding log_failure
  log_failure-Ends em p (ok done) w h = h
  log_failure-Ends em p (err e) w h = h

  outcome : (r : Result Error (Unit {0})) → IsError r ⊎ (r ≡ ok tt)
  outcome (ok tt) = inr refl
  outcome (err e) = inl (e, refl)

  report-Ends :
      (p : Profile) (b : Option Bundle) (em : Emitter) (w : World)
      → Allowed p b
      → Bootstrapped (bootstrap_of em) p
      → executor_of p b ≡ none
      → w.bootstraps ≡ before.bootstraps ++ started p
      → w.installs ≡ before.installs ++ (p, b) ∷ []
      → Ends (emit_output host p b false o.output w)
  report-Ends p b em w allowed booted installed bootstraps installs =
      let done = emit_output host p b false o.output w in
      let (bs, is) = (emit_output-Keeps _ _ host p b false o.output).at w (bootstraps, installs) in
      elim (outcome done.0) [
        | inl failed ↦ inr (inr (p, b, em, allowed, booted, inl failed, bs, is))
        | inr returned ↦ inr (inr (p, b, em, allowed, booted, inr (returned, installed), bs, is))
      ]

  helm-Ends :
      (p : Profile) (b : Option Bundle) (em : Emitter) (w : World)
      → Allowed p b
      → Bootstrapped (bootstrap_of em) p
      → w.bootstraps ≡ before.bootstraps ++ started p
      → w.installs ≡ before.installs
      → Ends (apply_helm host defaults deps o em p b w)
  unfolding apply_helm log_entry modify ◌>>=◌
  helm-Ends p b em w allowed booted bootstraps installs =
      let metadata = build_install_metadata p in
      let args = build_helm_command_args p o false in
      let installer = configure_helm_installer deps.helm_installer in
      let facts = execute_install_helm_phase_ends host em installer p b metadata args w in
      let entry = workflow_success (codes "install") metadata in
      bind-elim Ends (execute_install_helm_phase host em installer p b metadata args) _ w
        (λ done mid ran.
          let (bs, how) = subst (HelmEnds installer.0 p b w) ran facts in
          elim how [
            | inl (_, installed, is) ↦
                report-Ends p b em (record mid { lines = log em entry mid.lines }) allowed booted
                  installed (bs ∙ bootstraps) (is ∙ ap (λ l. l ++ (p, b) ∷ []) installs)
            | inr ((e, bad), _) ↦ absurd (cc bad)
          ])
        (λ e mid failed.
          let (bs, how) = subst (HelmEnds installer.0 p b w) failed facts in
          elim how [
            | inl (bad, _, _) ↦ absurd (cc bad)
            | inr (_, inl same) ↦
                inr (inl (p, b, allowed, (e, refl), bs ∙ bootstraps, same ∙ installs))
            | inr (_, inr more) ↦ inr (
                inr (
                  p,
                  b,
                  em,
                  allowed,
                  booted,
                  inl (e, refl),
                  bs ∙ bootstraps,
                  more ∙ ap (λ l. l ++ (p, b) ∷ []) installs,
                ))
          ])

  install-Ends :
      (p : Profile) (b : Option Bundle) (em : Emitter) (w : World)
      → Allowed p b
      → Held before.bootstraps before.installs w
      → Ends (apply_install host defaults deps o em p b w)
  unfolding apply_install
  install-Ends p b em w allowed (bootstraps, installs) =
      let metadata = build_install_metadata p in
      let bootstrapper = configure_bootstrapper em deps.bootstrapper in
      let facts = execute_bootstrap_phase_ends host em p bootstrapper metadata w in
      let more = ap (λ l. l ++ started p) bootstraps in
      bind-elim Ends (execute_bootstrap_phase host em p bootstrapper metadata) _ w
        (λ done mid ran.
          let (is, how) = subst (BootstrapEnds bootstrapper.0 p w) ran facts in
          elim how [
            | inl (_, booted, bs) ↦ helm-Ends p b em mid allowed booted (bs ∙ more) (is ∙ installs)
            | inr ((e, bad), _) ↦ absurd (cc bad)
          ])
        (λ e mid failed.
          let (is, how) = subst (BootstrapEnds bootstrapper.0 p w) failed facts in
          elim how [
            | inl (bad, _, _) ↦ absurd (cc bad)
            | inr (_, inl same) ↦ inl (inl (e, refl), same ∙ bootstraps, is ∙ installs)
            | inr (_, inr bs) ↦ inr (inl (p, b, allowed, (e, refl), bs ∙ more, is ∙ installs))
          ])

  branch-Ends :
      (dry_run : Bool) (w : World) (m n : Step (Unit {0}))
      → o.dry_run ≡ dry_run
      → (o.dry_run ≡ false → Ends (n w))
      → Keeps (Held before.bootstraps before.installs) m
      → Held before.bootstraps before.installs w
      → Ends ((if dry_run then m else n) w)
  branch-Ends false w m n wet applied quiet held = applied wet
  branch-Ends true w m n dry applied quiet held =
      let (bs, is) = quiet.at w held in
      elim (outcome (m w).0) [
        | inl failed ↦ inl (inl failed, bs, is)
        | inr returned ↦ inl (inr (returned, dry), bs, is)
      ]

  workflow-Ends :
      (p : Profile) (em : Emitter) (w : World)
      → build_profile o ≡ ok p
      → run_preflight_validation (or_default deps.inspector defaults.inspector) ≡ ok tt
      → Held before.bootstraps before.installs w
      → Ends (run_workflow host defaults deps o em p w)
  unfolding run_workflow
  workflow-Ends p em w built passed (bs, is) =
      bind_lift-elim Ends (validate_existing_cluster host defaults deps o p) _ w
        (λ _ cluster.
          bind_lift-elim Ends (prepare_bundle host defaults deps o p) _ w
            (λ b prepared.
              branch-Ends o.dry_run w _ _ refl
                (λ wet. install-Ends p b em w (wet, built, passed, cluster, prepared) (bs, is))
                (handle_install_dry_run-Keeps _ _ host em p b o _ _) (bs, is))
            (λ e _. inl (inl (e, refl), bs, is)))
        (λ e _. inl (inl (e, refl), bs, is))

-- A run of `cluster install` ends in one of three ways. Nothing is bootstrapped or installed, and
-- the run fails or is a dry run. Or a profile is bootstrapped at most and the run fails. Or the
-- release is installed with one call, behind a bootstrap that had no error or was not asked for; the
-- run then returns only if the installer had no error. In the last two the run is no dry run, the
-- options give the profile, the host meets the requirements, a cluster that is reused is valid and
-- the bundle is loaded, all of it before the first change.
pub run_install-Ends :
    {C : Type 0} (host : Host) (defaults : Defaults C) (deps : InstallDeps C) (o : InstallOptions)
    (before : World)
    → Ends host defaults deps o before (run_install host defaults deps o before)
unfolding run_install start_workflow log_entry modify ◌>>=◌
run_install-Ends host defaults deps o before =
    let End = Ends host defaults deps o before in
    let made = or_default deps.emitter defaults.emitter in
    let inspector = or_default deps.inspector defaults.inspector in
    let quiet = (init_install_telemetry-Keeps _ _ host made).at before (refl, refl) in
    bind_lift-elim End (validate_install_options o) _ before
      (λ _ _.
        bind_lift-elim End (build_profile o) _ before
          (λ p built.
            bind_lift-elim End (run_preflight_validation inspector) _ before
              (λ _ passed.
                bind-elim End (init_install_telemetry host made) _ before
                  (λ em mid ran. log_failure-Ends host defaults deps o before em p _ _ (
                    workflow-Ends host defaults deps o before p em _ built passed
                      (subst (λ x. Held before.bootstraps before.installs x.1) ran quiet)))
                  (λ e mid failed.
                    let (bs, is) =
                      subst (λ x. Held before.bootstraps before.installs x.1) failed quiet in
                    inl (inl (e, refl), bs, is)))
              (λ e _. inl (inl (e, refl), refl, refl)))
          (λ e _. inl (inl (e, refl), refl, refl)))
      (λ e _. inl (inl (e, refl), refl, refl))
