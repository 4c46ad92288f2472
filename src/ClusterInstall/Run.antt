-- ===== src/ClusterInstall/Run.antt =====
-- `runInstall` of cmd/chainctl/cluster/install.go: its steps and their order.
use chainctl.Prelude.{
  Bool, true, false, ◌||◌, Option, none, some, List, [], ◌∷◌, ◌++◌, if◌then◌else◌,
}
use chainctl.Result.{Result, ok, err, map_err}
use chainctl.Exec.{pure, raise, lift, modify, ◌>>=◌, ◌>>◌}
use chainctl.Text.{Str, codes, str_eq}
use chainctl.Dict.{Dict}
use chainctl.FilePath.{dir}
use chainctl.Config.{ResolvedInvocation}
use chainctl.Profile.{Profile, mode_text, is_reuse}
use chainctl.Bundle.{Bundle}
use chainctl.Helm.{Executor, noop_executor, upgrade_start, upgrade_complete}
use chainctl.Logger.{Line, Entry, Phase, helm_phase, bootstrap_phase}
use chainctl.Logger.Phases.{Emitter, Clock, Work, log, emit_phase}
use chainctl.Logger.Phases
use chainctl.CommandLog.{
  workflow_start, workflow_success, workflow_failure, command_entry, telemetry_entry,
}
use chainctl.App.World.{
  text_output, json_output, Output, or_default, HelmInstaller, helm_installer, other_installer,
}
use chainctl.ClusterInstall.{
  InstallOptions, Error, validate_install_options, build_profile, run_preflight_validation,
  build_install_metadata, build_helm_command_args, build_bootstrap_command_args, unsupported_output,
  logger_unavailable, emitter_failed, cluster_config_unloaded, cluster_invalid, bundle_unloaded,
  encode_failed, phase_failed,
}
use chainctl.ClusterInstall.World.{
  Bootstrapper, InstallDeps, Defaults, World, Host, Calls, Step, orchestrator, other_bootstrapper,
}

unfoldable pub log_entry : Emitter → Entry → Step (Unit {0})
log_entry em entry = modify (λ w. record w { lines = log em entry w.lines })

unfoldable pub print : Output → Step (Unit {0})
print output = modify (λ w. record w { printed = w.printed ++ output ∷ [] })

unfoldable pub emit_telemetry : Emitter → Option ResolvedInvocation → Step (Unit {0})
emit_telemetry em none = pure tt
emit_telemetry em (some resolved) = log_entry em (telemetry_entry resolved)

unfoldable pub init_install_telemetry : Host → Result Str Emitter → Step Emitter
init_install_telemetry host made = do
  em ← lift (map_err emitter_failed made)
  if em.has_logger then emit_telemetry em host.invocation >> pure em else raise logger_unavailable

-- The bootstrapper with its logger, and whether it logs by itself.
unfoldable pub configure_bootstrapper :
    Emitter → Option Bootstrapper → (Profile → List Line → Option Str × List Line) × Bool
configure_bootstrapper em none = (λ p lines. (none, lines), false)
configure_bootstrapper em (some (orchestrator run)) = (run em, true)
configure_bootstrapper em (some (other_bootstrapper run)) = (λ p lines. (run p, lines), false)

-- The executor of the installer, and whether it logs by itself.
unfoldable pub configure_helm_installer : Option HelmInstaller → Executor × Bool
configure_helm_installer none = (noop_executor, false)
configure_helm_installer (some (helm_installer exec)) = (exec, true)
configure_helm_installer (some (other_installer exec)) = (exec, false)

-- The function of the bootstrap phase.
unfoldable pub bootstrap_work :
    (Profile → List Line → Option Str × List Line) → Profile → Work Calls
bootstrap_work run p lines (bootstraps, installs) =
    if is_reuse p.mode
    then (none, lines, (bootstraps, installs))
    else let (error, logged) = run p lines in (error, logged, (bootstraps ++ p ∷ [], installs))

-- The function of the helm phase.
unfoldable pub helm_work : Emitter → Executor × Bool → Profile → Option Bundle → Work Calls
helm_work em (exec, has_logging) p b lines (bootstraps, installs) =
    let error = exec p b in
    let logged =
      if has_logging
      then log em (upgrade_complete p b error) (log em (upgrade_start p b) lines)
      else lines in
    (error, logged, (bootstraps, installs ++ (p, b) ∷ []))

abbrev pub phase_result : Option Phases.Error → Result Error (Unit {0})
phase_result none = ok tt
phase_result (some e) = err (phase_failed e)

unfoldable pub run_phase : Emitter → Clock → Phase → Profile → Work Calls → Step (Unit {0})
run_phase em clock phase p work w =
    let metadata = (codes "mode", mode_text p.mode) ∷ [] in
    let (error, lines, (bootstraps, installs)) =
      emit_phase em phase metadata clock work w.lines (w.bootstraps, w.installs) in
    (phase_result error, record w { lines = lines; bootstraps = bootstraps; installs = installs })

-- The entry of a command behind its phase, unless it is `silent`.
unfoldable pub log_outcome :
    Host
    → Emitter
    → Bool
    → Str
    → List Str
    → Dict Str
    → Result Error (Unit {0}) × World
    → Result Error (Unit {0}) × World
log_outcome host em silent step args metadata (r, w) =
    let error : Option Str = elim r [ ok _ ↦ none | err e ↦ some (host.text_of e) ] in
    let entry = command_entry step args metadata error in
    (r, if silent then w else record w { lines = log em entry w.lines })

unfoldable pub execute_bootstrap_phase :
    Host
    → Emitter
    → Profile
    → (Profile → List Line → Option Str × List Line) × Bool
    → Dict Str
    → Step (Unit {0})
execute_bootstrap_phase host em p (run, has_logging) metadata w =
    log_outcome host em (is_reuse p.mode || has_logging) (codes "bootstrap")
      (build_bootstrap_command_args p) metadata
      (run_phase em host.clock bootstrap_phase p (bootstrap_work run p) w)

unfoldable pub execute_install_helm_phase :
    Host
    → Emitter
    → Executor × Bool
    → Profile
    → Option Bundle
    → Dict Str
    → List Str
    → Step (Unit {0})
execute_install_helm_phase host em installer p b metadata args w =
    log_outcome host em installer.1 (codes "helm") args metadata
      (run_phase em host.clock helm_phase p (helm_work em installer p b) w)

-- An error of a validation, as a result.
abbrev cluster_result : Option Str → Result Error (Unit {0})
cluster_result none = ok tt
cluster_result (some text) = err (cluster_invalid text)

abbrev some_bundle : Result Str Bundle → Result Error (Option Bundle)
some_bundle (ok b) = ok (some b)
some_bundle (err text) = err (bundle_unloaded text)

unfoldable pub output_text : Profile → Option Bundle → Bool → Str
output_text p b dry_run =
    (if dry_run
      then codes "Dry-run completed; no changes applied"
      else codes "Installation completed successfully")
    ++ (codes ". Mode="
        ++ (mode_text p.mode
            ++ (codes " Airgapped="
                ++ ((if p.airgapped then codes "true" else codes "false")
                    ++ (codes "\n" ++ elim b [
                      | none ↦ []
                      | some loaded ↦
                          codes "Bundle version: " ++ (loaded.manifest.version ++ codes "\n")
                    ])))))

-- The fields of the JSON output, each value as its text.
unfoldable pub output_payload : Str → Profile → Option Bundle → Bool → Dict Str
output_payload now p b dry_run =
    (codes "mode", mode_text p.mode)
    ∷ (codes "airgapped", if p.airgapped then codes "true" else codes "false")
    ∷ (codes "cluster", p.cluster_endpoint)
    ∷ (codes "dryRun", if dry_run then codes "true" else codes "false")
    ∷ (codes "status", codes "success")
    ∷ (codes "timestamp", now)
    ∷ elim b [ none ↦ [] | some loaded ↦ (codes "bundleVersion", loaded.manifest.version) ∷ [] ]

unfoldable pub encode_output : Option Str → Dict Str → Step (Unit {0})
encode_output none payload = print (json_output payload)
encode_output (some text) payload = raise (encode_failed text)

unfoldable pub emit_output : Host → Profile → Option Bundle → Bool → Str → Step (Unit {0})
emit_output host p b dry_run format =
    if str_eq format (codes "text")
    then print (text_output (output_text p b dry_run))
    else if str_eq format (codes "json")
    then encode_output host.encode_error (output_payload host.now p b dry_run)
    else raise unsupported_output

-- An entry, unless it is `silent`.
unfoldable pub log_unless : Bool → Emitter → Entry → Step (Unit {0})
log_unless silent em entry = if silent then pure tt else log_entry em entry

unfoldable pub handle_install_dry_run :
    Host → Emitter → Profile → Option Bundle → InstallOptions → Bool → Bool → Step (Unit {0})
handle_install_dry_run host em p b o bootstrap_has_logging helm_has_logging = do
  let metadata = build_install_metadata p
  log_unless (is_reuse p.mode || bootstrap_has_logging) em
      (command_entry (codes "bootstrap") (build_bootstrap_command_args p) metadata none)
  log_unless helm_has_logging em
      (command_entry (codes "helm") (build_helm_command_args p o true) metadata none)
  log_entry em (workflow_success (codes "install") metadata)
  emit_output host p b true o.output

-- The deferred function.
unfoldable pub log_failure :
    Host → Emitter → Profile → Result Error (Unit {0}) × World → Result Error (Unit {0}) × World
log_failure host em p (ok done, w) = (ok done, w)
log_failure host em p (err e, w) =
    let entry = workflow_failure (codes "install") (build_install_metadata p) (host.text_of e) in
    (err e, record w { lines = log em entry w.lines })

module _ {C : Type 0} (host : Host) (defaults : Defaults C) (deps : InstallDeps C)
    (o : InstallOptions) where
  -- A configuration that is nil is not validated.
  abbrev check_config : (C → Option Str) → Result Str (Option C) → Result Error (Unit {0})
  check_config validator (err text) = err (cluster_config_unloaded text)
  check_config validator (ok none) = ok tt
  check_config validator (ok (some cfg)) = cluster_result (validator cfg)

  unfoldable pub validate_existing_cluster : Profile → Result Error (Unit {0})
  validate_existing_cluster p =
      if is_reuse p.mode
      then check_config (or_default deps.cluster_validator defaults.validate_cluster)
          (or_default deps.cluster_config_loader defaults.load_cluster_config p)
      else ok tt

  unfoldable pub prepare_bundle : Profile → Result Error (Option Bundle)
  prepare_bundle p =
      if p.airgapped
      then some_bundle
          (or_default deps.bundle_loader defaults.load p.bundle_path (dir p.bundle_path))
      else ok none

  -- The helm phase, and what follows it.
  unfoldable pub apply_helm : Emitter → Profile → Option Bundle → Step (Unit {0})
  apply_helm em p b = do
    let metadata = build_install_metadata p
    execute_install_helm_phase host em (configure_helm_installer deps.helm_installer) p b metadata
        (build_helm_command_args p o false)
    log_entry em (workflow_success (codes "install") metadata)
    emit_output host p b false o.output

  -- Both phases, and what follows them.
  unfoldable pub apply_install : Emitter → Profile → Option Bundle → Step (Unit {0})
  apply_install em p b = do
    execute_bootstrap_phase host em p (configure_bootstrapper em deps.bootstrapper)
        (build_install_metadata p)
    apply_helm em p b

  -- What runs under the deferred function.
  unfoldable pub run_workflow : Emitter → Profile → Step (Unit {0})
  run_workflow em p = do
    lift (validate_existing_cluster p)
    b ← lift (prepare_bundle p)
    if o.dry_run
        then handle_install_dry_run host em p b o (configure_bootstrapper em deps.bootstrapper).1
            (configure_helm_installer deps.helm_installer).1
        else apply_install em p b

  unfoldable pub start_workflow : Emitter → Profile → Step (Unit {0})
  start_workflow em p = do
    log_entry em (workflow_start (codes "install") (build_install_metadata p))
    λ w. log_failure host em p (run_workflow em p w)

  unfoldable pub run_install : Step (Unit {0})
  run_install = do
    lift (validate_install_options o)
    p ← lift (build_profile o)
    lift (run_preflight_validation (or_default deps.inspector defaults.inspector))
    em ← init_install_telemetry host (or_default deps.emitter defaults.emitter)
    start_workflow em p
