-- ===== src/App/Completion.antt =====
-- `runAppAction` where all that it relies on works: what it returns and what it leaves.
use chainctl.Prelude.{
  ◌≡◌, refl, ap, ◌∙◌, inl, inr, Bool, true, Option, none, some, List, [], ◌∷◌, ◌++◌, if◌then◌else◌,
  Bool-cases,
}
use chainctl.Result.{Result, ok, err}
use chainctl.Exec.{gets, modify, raise, pure, ◌>>=◌, ◌>>◌}
use chainctl.Text.{Str, codes, str_eq}
use chainctl.Dict.{Dict}
use chainctl.Profile.{Profile}
use chainctl.Bundle.{Bundle}
use chainctl.State
use chainctl.Helm.{Executor, ResolveResult}
use chainctl.Logger.{Line, helm_phase}
use chainctl.Logger.Phases.{
  Emitter, Clock, opening, Accepting, failed_work, closing, log, emit_phase, emit_phase_lines,
}
use chainctl.Logger.Phases
use chainctl.Config.{ResolvedInvocation}
use chainctl.CommandLog.{telemetry_entry}
use chainctl.App.{
  AppAction, SharedOptions, Error, validate_app_action_inputs, build_profile_for_action, at_path,
  resolve_state_overrides, build_state_record, workflow_step_name, unsupported_output,
  logger_unavailable, encode_failed,
}
use chainctl.App.Sources.{
  ResolutionResult, resolve_chart_source, build_helm_install_metadata, build_helm_install_args,
}
use chainctl.App.World.{Deps, Defaults, World, Host, StateManager, or_default, ensure_deps}
use chainctl.App.Run.{
  log_entry, emit_telemetry, prepare_app_installer, execute, phase_result, execute_helm_phase,
  persist_state, output_payload, print, encode_output, emit_output, log_failure, init_app_telemetry,
  log_resolution, resolve_chart_with_logging, record_and_report, deploy, run_workflow,
  start_workflow, run_with_deps, run_app_action,
}
use chainctl.App.Endings.{executor_of, manager_of, Ending}

-- What the command returns once the state is written, by the format alone.
abbrev encoded : Option Str → Result Error (Unit {0})
encoded none = ok tt
encoded (some text) = err (encode_failed text)

abbrev pub output_result : Host → Str → Result Error (Unit {0})
output_result host format =
    if str_eq format (codes "text")
    then ok tt
    else if str_eq format (codes "json")
    then encoded host.encode_error
    else err unsupported_output

-- A step that returns `r` and ends with these calls and this disk.
abbrev Leaves :
    Result Error (Unit {0}) → List (Profile × Option Bundle) → State.Manager.Disk → Ending → Type 0
Leaves r installs disk (result, after) =
    (result ≡ r) × (after.installs ≡ installs) × (after.disk ≡ disk)

encode_output-Leaves :
    (error : Option Str) (payload : Dict Str) (w : World)
    → Leaves (encoded error) w.installs w.disk (encode_output error payload w)
unfolding encode_output print raise modify
encode_output-Leaves none payload w = (refl, refl, refl)
encode_output-Leaves (some text) payload w = (refl, refl, refl)

emit_output-Leaves :
    (host : Host) (p : Profile) (res : ResolveResult) (path : Str) (action : AppAction)
    (o : SharedOptions) (w : World)
    → Leaves
        (output_result host o.output)
        w.installs
        w.disk
        (emit_output host p res path action o w)
unfolding emit_output print raise modify
emit_output-Leaves host p res path action o w = elim (Bool-cases (str_eq o.output (codes "text"))) [
  | inl is_text ↦ rw is_text (refl, refl, refl)
  | inr not_text ↦ rw not_text elim (Bool-cases (str_eq o.output (codes "json"))) [
    | inl is_json ↦
        rw is_json
          (encode_output-Leaves host.encode_error (output_payload host.now p res path action o) w)
    | inr not_json ↦ rw not_json (refl, refl, refl)
  ]
]

log_failure-Leaves :
    (host : Host) (em : Emitter) (step : Str) (r : Result Error (Unit {0}))
    (installs : List (Profile × Option Bundle)) (disk : State.Manager.Disk)
    (result : Result Error (Unit {0})) (w : World)
    → Leaves r installs disk (result, w)
    → Leaves r installs disk (log_failure host em step (result, w))
unfolding log_failure
log_failure-Leaves host em step r installs disk (ok done) w h = h
log_failure-Leaves host em step r installs disk (err e) w h = h

-- A phase whose lines are all written, around an installer without an error.
phase_runs :
    (em : Emitter) (clock : Clock) (installer : Executor × Bool) (p : Profile) (b : Option Bundle)
    (metadata : Dict Str) (args : List Str) (w : World)
    → Accepting em
    → installer.0 p b ≡ none
    → (lines : List Line) × (execute_helm_phase em clock installer p b metadata args w
        ≡ (ok tt, record w { lines = lines; installs = w.installs ++ (p, b) ∷ [] }))
unfolding execute_helm_phase execute
phase_runs em clock installer p b metadata args w accepting installs_well =
    let work = execute em installer p b metadata args in
    let phase = emit_phase em helm_phase metadata clock work w.lines w.installs in
    let ended : Option Phases.Error
        → List (Profile × Option Bundle)
        → Result Error (Unit {0}) × World =
      λ e installs. (phase_result e, record w { lines = phase.1; installs = installs }) in
    (
      phase.1,
      ap (λ t. ended t.0 t.2)
            (emit_phase_lines em helm_phase metadata clock work w.lines w.installs accepting)
          ∙ ap (λ e. ended (failed_work e) (w.installs ++ (p, b) ∷ [])) installs_well,
    )

module _ (host : Host) (defaults : Defaults) (deps : Deps) (manager : StateManager)
    (action : AppAction) (o : SharedOptions) (managed : deps.state_manager ≡ some manager)
    (p : Profile) (hint path : Str) (em : Emitter) (accepting : Accepting em)
    (resolved : ResolutionResult) (installs_well : executor_of deps p resolved.bundle ≡ none) where
  abbrev persisted : World → Result State.Error Str × State.Manager.Disk
  persisted w = manager (build_state_record p resolved.outcome action o) (at_path hint) w.disk

  record-Leaves :
      (w : World)
      → (persisted w).0 ≡ ok path
      → Leaves
          (output_result host o.output)
          w.installs
          (persisted w).1
          (record_and_report host deps action o p hint em resolved w)
  unfolding record_and_report persist_state log_entry gets modify ◌>>=◌
  record-Leaves w written =
      rw (managed, written) (emit_output-Leaves host p resolved.outcome _ action o _)

  deploy-Leaves :
      (w : World)
      → (persisted w).0 ≡ ok path
      → Leaves
          (output_result host o.output)
          (w.installs ++ (p, resolved.bundle) ∷ [])
          (persisted w).1
          (deploy host deps action o p hint em resolved w)
  unfolding deploy ◌>>=◌
  deploy-Leaves w written =
      let installer = prepare_app_installer deps.installer in
      let (lines, ran) =
        phase_runs em host.clock installer p resolved.bundle
          (build_helm_install_metadata p resolved.outcome) (build_helm_install_args p o) w accepting
          installs_well in
      rw ran (
        record-Leaves
          (record w { lines = lines; installs = w.installs ++ (p, resolved.bundle) ∷ [] }) written)

  workflow-Leaves :
      (w : World)
      → resolve_chart_source deps.resolver (or_default deps.bundle_loader defaults.load) o
        ≡ ok resolved
      → (persisted w).0 ≡ ok path
      → Leaves
          (output_result host o.output)
          (w.installs ++ (p, resolved.bundle) ∷ [])
          (persisted w).1
          (start_workflow host defaults deps action o p hint em w)
  unfolding start_workflow run_workflow resolve_chart_with_logging log_resolution log_entry modify
      pure ◌>>=◌
  workflow-Leaves w found written =
      log_failure-Leaves host em (workflow_step_name action) _ _ _ _ _
        (rw found (deploy-Leaves _ written))

telemetry_returns :
    (em : Emitter) (invocation : Option ResolvedInvocation) (w : World)
    → (lines : List Line) × ((emit_telemetry em invocation >> pure em) w
        ≡ (ok em, record w { lines = lines }))
unfolding emit_telemetry log_entry modify pure ◌>>=◌
telemetry_returns em none w = (w.lines, refl)
telemetry_returns em (some resolved) w = (log em (telemetry_entry resolved) w.lines, refl)

init_returns :
    (host : Host) (em : Emitter) (w : World)
    → em.has_logger ≡ true
    → (lines : List Line) × (init_app_telemetry host (ok em) w
        ≡ (ok em, record w { lines = lines }))
unfolding init_app_telemetry ◌>>=◌
init_returns host em w has_logger =
    let (lines, started) = telemetry_returns em host.invocation w in
    let told = emit_telemetry em host.invocation >> pure em in
    (lines, ap (λ b. (if b then told else raise logger_unavailable) w) has_logger ∙ started)

-- Where the options are valid, the path resolves, the logger is there and every line is written, the
-- chart resolves, the installer has no error and the manager returns a path, the command calls the
-- installer exactly once and leaves the disk that the manager left. It returns for the format text,
-- and for json unless the encoder fails; for any other format it fails all the same, with the
-- release installed and the state written.
pub run_app_action_completes :
    (host : Host) (defaults : Defaults) (deps : Deps) (action : AppAction) (o : SharedOptions)
    (p : Profile) (hint path : Str) (em : Emitter) (resolved : ResolutionResult) (w : World)
    → let used = ensure_deps defaults deps in
      let (written, disk) =
        manager_of defaults deps
          (build_state_record p resolved.outcome action o)
          (at_path hint)
          w.disk in
      validate_app_action_inputs o action ≡ ok tt
      → build_profile_for_action o action ≡ ok p
      → resolve_state_overrides host.env o ≡ ok hint
      → or_default deps.emitter defaults.emitter ≡ ok em
      → em.has_logger ≡ true
      → Accepting em
      → resolve_chart_source used.resolver (or_default deps.bundle_loader defaults.load) o
        ≡ ok resolved
      → executor_of deps p resolved.bundle ≡ none
      → written ≡ ok path
      → let (result, after) = run_app_action host defaults deps action o w in
        (result ≡ output_result host o.output)
        × (after.installs ≡ w.installs ++ (p, resolved.bundle) ∷ [])
        × (after.disk ≡ disk)
unfolding run_app_action run_with_deps ensure_deps ◌>>=◌ start_workflow run_workflow
    resolve_chart_with_logging deploy record_and_report
run_app_action_completes host defaults deps action o p hint path em resolved w valid built located
      made has_logger accepting found installs_well written =
    let used = ensure_deps defaults deps in
    let (lines, started) = init_returns host em w has_logger in
    rw (valid, built, located, made, started)
      (workflow-Leaves host defaults used (manager_of defaults deps) action o refl p hint path em
        accepting resolved installs_well (record w { lines = lines }) found written)
