-- ===== src/App/Effects.antt =====
-- What each step of `runAppAction` changes besides the log.
use chainctl.Prelude.{
  ◌≡◌, refl, ap, ◌⊎◌, inl, inr, Bool, true, false, Option, none, some, List, [], ◌∷◌, ◌++◌,
  if◌then◌else◌, Bool-cases,
}
use chainctl.Result.{Result, ok, err, map_err, Result-cases}
use chainctl.Exec.{pure, raise, modify, ◌>>=◌, ◌>>◌, bind_lift-elim}
use chainctl.Text.{Str, codes, str_eq}
use chainctl.Dict.{Dict}
use chainctl.Profile.{Profile}
use chainctl.Config.{ResolvedInvocation}
use chainctl.Bundle.{Bundle}
use chainctl.State.{Record}
use chainctl.Helm.{ResolveResult, Executor}
use chainctl.Logger.{helm_phase}
use chainctl.Logger.Phases.{Emitter, Clock, emit_phase-cases}
use chainctl.App.{
  AppAction, SharedOptions, Error, at_path, unsupported_output, emitter_failed, phase_failed,
  state_unwritten, encode_failed,
}
use chainctl.App.Sources.{ResolutionResult}
use chainctl.App.World.{Output, World, Host, StateManager, Step, text_output, json_output}
use chainctl.App.Run.{
  log_entry, emit_telemetry, execute, phase_result, execute_helm_phase, hinted, persist_state,
  output_text, output_payload, print, encode_output, emit_output, init_app_telemetry,
  log_resolution,
}

abbrev pub IsError : {A : Type 0} → Result Error A → Type 0
IsError r = (e : Error) × (r ≡ err e)

-- A step that installs, writes and prints nothing, and may fail.
abbrev pub Quiet : {A : Type 0} → World → Result Error A × World → Type 0
Quiet w (r, after) =
    (after.installs ≡ w.installs) × (after.disk ≡ w.disk) × (after.printed ≡ w.printed)

-- The phase installs or does not start; it returns only if the installer has no error.
abbrev pub PhaseEnds :
    Executor → Profile → Option Bundle → World → Result Error (Unit {0}) × World → Type 0
PhaseEnds exec p b w (r, after) =
    (after.disk ≡ w.disk)
    × (after.printed ≡ w.printed)
    × (((r ≡ ok tt) × (exec p b ≡ none) × (after.installs ≡ w.installs ++ (p, b) ∷ []))
        ⊎ (IsError r
            × ((after.installs ≡ w.installs) ⊎ (after.installs ≡ w.installs ++ (p, b) ∷ []))))

pub execute_helm_phase_ends :
    (em : Emitter) (clock : Clock) (installer : Executor × Bool) (p : Profile) (b : Option Bundle)
    (metadata : Dict Str) (args : List Str) (w : World)
    → PhaseEnds installer.0 p b w (execute_helm_phase em clock installer p b metadata args w)
unfolding execute_helm_phase execute
execute_helm_phase_ends em clock installer p b metadata args w =
    elim (emit_phase-cases em helm_phase metadata clock (execute em installer p b metadata args)
      w.lines w.installs) [
        | inl (before, none_left, succeeded, ran) ↦
            (refl, refl, inl (ap phase_result none_left, succeeded, ran))
        | inr ((e, failed), (before, inl same)) ↦
            (refl, refl, inr ((phase_failed e, ap phase_result failed), inl same))
        | inr ((e, failed), (before, inr ran)) ↦
            (refl, refl, inr ((phase_failed e, ap phase_result failed), inr ran))
      ]

-- One output is printed if the step returns, and none if it fails.
abbrev pub OutputEnds : World → Result Error (Unit {0}) × World → Type 0
OutputEnds w (r, after) =
    (after.disk ≡ w.disk)
    × (after.installs ≡ w.installs)
    × ((IsError r × (after.printed ≡ w.printed))
        ⊎ ((r ≡ ok tt) × ((output : Output) × (after.printed ≡ w.printed ++ output ∷ []))))

encode_output_ends :
    (error : Option Str) (payload : Dict Str) (w : World)
    → OutputEnds w (encode_output error payload w)
unfolding encode_output print raise modify
encode_output_ends none payload w = (refl, refl, inr (refl, (json_output payload, refl)))
encode_output_ends (some text) payload w = (refl, refl, inl ((encode_failed text, refl), refl))

pub emit_output_ends :
    (host : Host) (p : Profile) (res : ResolveResult) (path : Str) (action : AppAction)
    (o : SharedOptions) (w : World)
    → OutputEnds w (emit_output host p res path action o w)
unfolding emit_output encode_output print raise modify
emit_output_ends host p res path action o w = elim (Bool-cases (str_eq o.output (codes "text"))) [
  | inl is_text ↦
      rw is_text (refl, refl, inr (refl, (text_output (output_text p path action), refl)))
  | inr not_text ↦ rw not_text elim (Bool-cases (str_eq o.output (codes "json"))) [
    | inl is_json ↦
        rw is_json
          (encode_output_ends host.encode_error (output_payload host.now p res path action o) w)
    | inr not_json ↦ rw not_json (refl, refl, inl ((unsupported_output, refl), refl))
  ]
]

-- The disk is what the manager left, and the path is one that it gave.
abbrev pub PersistEnds : StateManager → Record → Str → World → Result Error Str × World → Type 0
PersistEnds manager r hint w (result, after) =
    let (written, disk) = manager r (at_path hint) w.disk in
    (after.disk ≡ disk)
    × (after.installs ≡ w.installs)
    × (after.printed ≡ w.printed)
    × (IsError result ⊎ ((path : Str) × (written ≡ ok path)))

persist_some_ends :
    (manager : StateManager) (r : Record) (hint : Str) (w : World)
    → PersistEnds manager r hint w (persist_state (some manager) r hint w)
unfolding persist_state
persist_some_ends manager r hint w = elim (Result-cases (manager r (at_path hint) w.disk).0) [
  | inl (path, written) ↦ (refl, refl, refl, inr (path, written))
  | inr (e, failed) ↦ (refl, refl, refl, inl (state_unwritten e, ap (hinted hint) failed))
]

pub persist_state_ends :
    (manager : StateManager) (found : Option StateManager) (r : Record) (hint : Str) (w : World)
    → found ≡ some manager
    → PersistEnds manager r hint w (persist_state found r hint w)
persist_state_ends manager found r hint w h = rw h (persist_some_ends manager r hint w)

Quiet-if :
    {A : Type 0} (b : Bool) (m n : Step A) (w : World)
    → Quiet w (m w)
    → Quiet w (n w)
    → Quiet w ((if b then m else n) w)
Quiet-if true m n w h k = h
Quiet-if false m n w h k = k

telemetry-Quiet :
    (em : Emitter) (invocation : Option ResolvedInvocation) (w : World)
    → Quiet w ((emit_telemetry em invocation >> pure em) w)
unfolding emit_telemetry log_entry modify pure ◌>>=◌
telemetry-Quiet em none w = (refl, refl, refl)
telemetry-Quiet em (some resolved) w = (refl, refl, refl)

pub init_app_telemetry-Quiet :
    (host : Host) (made : Result Str Emitter) (w : World) → Quiet w (init_app_telemetry host made w)
unfolding init_app_telemetry raise
init_app_telemetry-Quiet host made w =
    bind_lift-elim (Quiet w) (map_err emitter_failed made) _ w
      (λ em h.
        Quiet-if em.has_logger _ _ w (telemetry-Quiet em host.invocation w) (refl, refl, refl))
      (λ e h. (refl, refl, refl))

pub log_resolution-Quiet :
    (host : Host) (em : Emitter) (o : SharedOptions) (r : Result Error ResolutionResult) (w : World)
    → Quiet w (log_resolution host em o r w)
unfolding log_resolution log_entry modify pure raise ◌>>=◌
log_resolution-Quiet host em o (ok resolved) w = (refl, refl, refl)
log_resolution-Quiet host em o (err e) w = (refl, refl, refl)

pub log_resolution-eq-ok :
    (host : Host) (em : Emitter) (o : SharedOptions) (r : Result Error ResolutionResult)
    (w after : World) (resolved : ResolutionResult)
    → log_resolution host em o r w ≡ (ok resolved, after)
    → r ≡ ok resolved
unfolding log_resolution log_entry modify pure raise ◌>>=◌
log_resolution-eq-ok host em o (ok found) w after resolved h = ap (λ x. x.0) h
log_resolution-eq-ok host em o (err e) w after resolved h = absurd (cc (ap (λ x. x.0) h))
