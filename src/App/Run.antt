-- ===== src/App/Run.antt =====
-- `runAppAction` of action.go: its steps and their order.
use chainctl.Prelude.{
  Bool, true, false, Option, none, some, List, [], ◌∷◌, ◌++◌, if◌then◌else◌, is_empty,
}
use chainctl.Result.{Result, ok, err, map_err}
use chainctl.Exec.{pure, raise, lift, gets, modify, ◌>>=◌, ◌>>◌}
use chainctl.Text.{Str, codes, str_eq}
use chainctl.Dict.{Dict}
use chainctl.Profile.{Profile}
use chainctl.Config.{ResolvedInvocation}
use chainctl.Bundle.{Bundle}
use chainctl.State.{Record, Overrides, Env}
use chainctl.State
use chainctl.Helm.{ResolveResult, Executor, noop_executor, upgrade_start, upgrade_complete, note}
use chainctl.Logger.{Entry, helm_phase}
use chainctl.Logger.Phases.{Emitter, Clock, Work, log, emit_phase}
use chainctl.Logger.Phases
use chainctl.CommandLog.{
  workflow_start, workflow_success, workflow_failure, command_entry, telemetry_entry,
}
use chainctl.App.{
  AppAction, SharedOptions, Error, action_text, validate_app_action_inputs,
  build_profile_for_action, at_path, resolve_state_overrides, build_state_record,
  workflow_step_name, action_install, action_upgrade, unsupported_output, logger_unavailable,
  state_manager_unavailable, emitter_failed, phase_failed, state_unwritten, encode_failed,
}
use chainctl.App.Sources.{
  ResolutionResult, resolve_chart_source, build_resolve_args, build_resolve_metadata,
  build_helm_install_metadata, build_helm_install_args, build_workflow_metadata,
  update_workflow_metadata_from_outcome,
}
use chainctl.App.World.{
  HelmInstaller, Deps, Defaults, Output, World, Host, StateManager, or_default, ensure_deps, Step,
  helm_installer, other_installer, text_output, json_output,
}

unfoldable pub log_entry : Emitter → Entry → Step (Unit {0})
log_entry em entry = modify (λ w. record w { lines = log em entry w.lines })

unfoldable pub emit_telemetry : Emitter → Option ResolvedInvocation → Step (Unit {0})
emit_telemetry em none = pure tt
emit_telemetry em (some resolved) = log_entry em (telemetry_entry resolved)

-- The executor, and whether it logs by itself.
unfoldable pub prepare_app_installer : Option HelmInstaller → Executor × Bool
prepare_app_installer none = (noop_executor, false)
prepare_app_installer (some (helm_installer exec)) = (exec, true)
prepare_app_installer (some (other_installer exec)) = (exec, false)

-- The function that the helm phase runs.
unfoldable pub execute :
    Emitter
    → Executor × Bool
    → Profile
    → Option Bundle
    → Dict Str
    → List Str
    → Work (List (Profile × Option Bundle))
execute em (exec, has_logging) p b metadata args lines installs =
    let error = exec p b in
    let logged =
      if has_logging
      then log em (upgrade_complete p b error) (log em (upgrade_start p b) lines)
      else log em (command_entry (codes "helm") args metadata error) lines in
    (error, logged, installs ++ (p, b) ∷ [])

abbrev pub phase_result : Option Phases.Error → Result Error (Unit {0})
phase_result none = ok tt
phase_result (some e) = err (phase_failed e)

unfoldable pub execute_helm_phase :
    Emitter
    → Clock
    → Executor × Bool
    → Profile
    → Option Bundle
    → Dict Str
    → List Str
    → Step (Unit {0})
execute_helm_phase em clock installer p b metadata args w =
    let (error, lines, installs) =
      emit_phase em helm_phase metadata clock (execute em installer p b metadata args) w.lines
        w.installs in
    (phase_result error, record w { lines = lines; installs = installs })

-- The path that the manager returned, or the hint if it is empty.
abbrev pub hinted : Str → Result State.Error Str → Result Error Str
hinted hint (ok path) = ok (if is_empty path then hint else path)
hinted hint (err e) = err (state_unwritten e)

unfoldable pub persist_state : Option StateManager → Record → Str → Step Str
persist_state none r hint w = (err state_manager_unavailable, w)
persist_state (some manager) r hint w =
    let (written, disk) = manager r (at_path hint) w.disk in
    (hinted hint written, record w { disk = disk })

unfoldable pub title_of : AppAction → Str
title_of action_install = codes "Install"
title_of action_upgrade = codes "Upgrade"

unfoldable pub output_text : Profile → Str → AppAction → Str
output_text p state_path action =
    title_of action
    ++ (codes " completed successfully for release "
        ++ (p.helm_release
            ++ (codes " in namespace "
                ++ (p.helm_namespace
                    ++ (codes "\nState written to " ++ (state_path ++ codes "\n"))))))

unfoldable pub output_payload :
    Str → Profile → ResolveResult → Str → AppAction → SharedOptions → Dict Str
output_payload now p res state_path action o = note (codes "version") o.app_version (
    note (codes "cluster") p.cluster_endpoint (
      (codes "status", codes "success")
      ∷ (codes "action", action_text action)
      ∷ (codes "release", p.helm_release)
      ∷ (codes "namespace", p.helm_namespace)
      ∷ (codes "chart", res.source.reference)
      ∷ (codes "chartType", res.source.type_of)
      ∷ (codes "stateFile", state_path)
      ∷ (codes "timestamp", now)
      ∷ []))

unfoldable pub print : Output → Step (Unit {0})
print output = modify (λ w. record w { printed = w.printed ++ output ∷ [] })

unfoldable pub encode_output : Option Str → Dict Str → Step (Unit {0})
encode_output none payload = print (json_output payload)
encode_output (some text) payload = raise (encode_failed text)

unfoldable pub emit_output :
    Host → Profile → ResolveResult → Str → AppAction → SharedOptions → Step (Unit {0})
emit_output host p res state_path action o =
    if str_eq o.output (codes "text")
    then print (text_output (output_text p state_path action))
    else if str_eq o.output (codes "json")
    then encode_output host.encode_error (output_payload host.now p res state_path action o)
    else raise unsupported_output

-- The deferred function: an error is logged with the metadata as they are then.
unfoldable pub log_failure :
    Host → Emitter → Str → Result Error (Unit {0}) × World → Result Error (Unit {0}) × World
log_failure host em step (ok done, w) = (ok done, w)
log_failure host em step (err e, w) =
    (err e, record w { lines = log em (workflow_failure step w.metadata (host.text_of e)) w.lines })

unfoldable pub init_app_telemetry : Host → Result Str Emitter → Step Emitter
init_app_telemetry host made = do
  em ← lift (map_err emitter_failed made)
  if em.has_logger then emit_telemetry em host.invocation >> pure em else raise logger_unavailable

-- A failure is logged with the metadata of the options, a success with those of the outcome, which
-- the workflow's metadata take in.
unfoldable pub log_resolution :
    Host → Emitter → SharedOptions → Result Error ResolutionResult → Step ResolutionResult
log_resolution host em o (err e) = do
  log_entry em (
      command_entry (codes "helm-resolve") (build_resolve_args o) (build_resolve_metadata none o)
        (some (host.text_of e)))
  raise e
log_resolution host em o (ok resolved) = do
  log_entry em (
      command_entry (codes "helm-resolve") (build_resolve_args o)
        (build_resolve_metadata (some resolved.outcome) o) none)
  modify (λ w. record w {
    metadata = update_workflow_metadata_from_outcome resolved.outcome w.metadata;
  })
  pure resolved

-- The loader that `resolveFromBundle` takes where the dependencies have none is bundle.Load.
unfoldable pub resolve_chart_with_logging :
    Host → Defaults → Deps → Emitter → SharedOptions → Step ResolutionResult
unfolding log_resolution
resolve_chart_with_logging host defaults deps em o =
    log_resolution host em o
      (resolve_chart_source deps.resolver (or_default deps.bundle_loader defaults.load) o)

-- What follows the helm phase.
unfoldable pub record_and_report :
    Host
    → Deps
    → AppAction
    → SharedOptions
    → Profile
    → Str
    → Emitter
    → ResolutionResult
    → Step (Unit {0})
record_and_report host deps action o p hint em resolved = do
  state_path ←
      persist_state deps.state_manager (build_state_record p resolved.outcome action o) hint
  metadata ← gets (λ w. w.metadata)
  log_entry em (workflow_success (workflow_step_name action) metadata)
  emit_output host p resolved.outcome state_path action o

-- What follows the resolution of the chart.
unfoldable pub deploy :
    Host
    → Deps
    → AppAction
    → SharedOptions
    → Profile
    → Str
    → Emitter
    → ResolutionResult
    → Step (Unit {0})
deploy host deps action o p hint em resolved = do
  execute_helm_phase em host.clock (prepare_app_installer deps.installer) p resolved.bundle
      (build_helm_install_metadata p resolved.outcome) (build_helm_install_args p o)
  record_and_report host deps action o p hint em resolved

-- What runs under the deferred function.
unfoldable pub run_workflow :
    Host → Defaults → Deps → AppAction → SharedOptions → Profile → Str → Emitter → Step (Unit {0})
run_workflow host defaults deps action o p hint em = do
  resolved ← resolve_chart_with_logging host defaults deps em o
  deploy host deps action o p hint em resolved

-- From the start of the workflow on.
unfoldable pub start_workflow :
    Host → Defaults → Deps → AppAction → SharedOptions → Profile → Str → Emitter → Step (Unit {0})
start_workflow host defaults deps action o p hint em = do
  modify (λ w. record w { metadata = build_workflow_metadata p })
  log_entry em (workflow_start (workflow_step_name action) (build_workflow_metadata p))
  λ w.
      log_failure host em (workflow_step_name action)
        (run_workflow host defaults deps action o p hint em w)

unfoldable pub run_with_deps : Host → Defaults → Deps → AppAction → SharedOptions → Step (Unit {0})
run_with_deps host defaults deps action o = do
  lift (validate_app_action_inputs o action)
  p ← lift (build_profile_for_action o action)
  hint ← lift (resolve_state_overrides host.env o)
  em ← init_app_telemetry host (or_default deps.emitter defaults.emitter)
  start_workflow host defaults deps action o p hint em

unfoldable pub run_app_action : Host → Defaults → Deps → AppAction → SharedOptions → Step (Unit {0})
unfolding ensure_deps
run_app_action host defaults deps action o =
    run_with_deps host defaults (ensure_deps defaults deps) action o
