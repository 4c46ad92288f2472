-- ===== src/ClusterInstall/Effects.antt =====
-- What the steps of `runInstall` change besides the log and the output.
use chainctl.Prelude.{
  ◌≡◌, refl, ap, ◌∙◌, ◌⊎◌, inl, inr, Bool, true, false, ◌||◌, Option, none, List, [], ◌∷◌, ◌++◌,
  append-nil, if◌then◌else◌, Bool-cases,
}
use chainctl.Result.{Result, ok, err}
use chainctl.Text.{Str, codes}
use chainctl.Dict.{Dict}
use chainctl.Profile.{Profile, is_reuse, mode_text}
use chainctl.Bundle.{Bundle}
use chainctl.Helm.{Executor}
use chainctl.Logger.{Line, Phase, helm_phase, bootstrap_phase}
use chainctl.Logger.Phases.{Emitter, Clock, Work, emit_phase-cases}
use chainctl.ClusterInstall.{Error, build_bootstrap_command_args, phase_failed}
use chainctl.ClusterInstall.World.{World, Host, Calls}
use chainctl.ClusterInstall.Run.{
  bootstrap_work, helm_work, phase_result, run_phase, log_outcome, execute_bootstrap_phase,
  execute_install_helm_phase,
}

abbrev pub IsError : {A : Type 0} → Result Error A → Type 0
IsError r = (e : Error) × (r ≡ err e)

-- Nothing is bootstrapped or installed.
abbrev pub Quiet : {A : Type 0} → World → Result Error A × World → Type 0
Quiet w (r, after) = (after.bootstraps ≡ w.bootstraps) × (after.installs ≡ w.installs)

abbrev pub Bootstrap : Type 0
Bootstrap = Profile → List Line → Option Str × List Line

-- The calls of a bootstrapper for a profile: none in a cluster that is reused.
abbrev pub started : Profile → List Profile
started p = if is_reuse p.mode then [] else p ∷ []

-- A bootstrap is not asked for, or it had no error.
abbrev pub Bootstrapped : Bootstrap → Profile → Type 0
Bootstrapped run p = (is_reuse p.mode ≡ true) ⊎ ((lines : List Line) × ((run p lines).0 ≡ none))

-- A phase returns behind a work without an error; if it fails, its work may not have run.
abbrev PhaseEnds : Work Calls → World → Result Error (Unit {0}) × World → Type 0
PhaseEnds work w (r, after) =
    let calls : Calls = (w.bootstraps, w.installs) in
    let left : Calls = (after.bootstraps, after.installs) in
    (lines : List Line) × (((r ≡ ok tt)
        × ((work lines calls).0 ≡ none)
        × (left ≡ (work lines calls).2))
      ⊎ (IsError r × ((left ≡ calls) ⊎ (left ≡ (work lines calls).2))))

run_phase_ends :
    (em : Emitter) (clock : Clock) (phase : Phase) (p : Profile) (work : Work Calls) (w : World)
    → PhaseEnds work w (run_phase em clock phase p work w)
unfolding run_phase
run_phase_ends em clock phase p work w =
    elim (emit_phase-cases em phase ((codes "mode", mode_text p.mode) ∷ []) clock work w.lines
      (w.bootstraps, w.installs)) [
        | inl (before, none_left, succeeded, ran) ↦
            (before, inl (ap phase_result none_left, succeeded, ran))
        | inr ((e, failed), (before, how)) ↦
            (before, inr ((phase_failed e, ap phase_result failed), how))
      ]

log_outcome_ends :
    (host : Host) (em : Emitter) (silent : Bool) (step : Str) (args : List Str)
    (metadata : Dict Str) (work : Work Calls) (w : World) (r : Result Error (Unit {0}))
    (after : World)
    → PhaseEnds work w (r, after)
    → PhaseEnds work w (log_outcome host em silent step args metadata (r, after))
unfolding log_outcome
log_outcome_ends host em true step args metadata work w r after h = h
log_outcome_ends host em false step args metadata work w r after h = h

bootstrap_work-calls :
    (run : Bootstrap) (p : Profile) (lines : List Line) (bootstraps : List Profile)
    (installs : List (Profile × Option Bundle))
    → (bootstrap_work run p lines (bootstraps, installs)).2 ≡ (bootstraps ++ started p, installs)
unfolding bootstrap_work
bootstrap_work-calls run p lines bootstraps installs = elim (Bool-cases (is_reuse p.mode)) [
  | inl reused ↦ rw (reused, append-nil bootstraps) refl
  | inr fresh ↦ rw fresh refl
]

bootstrap_work-Bootstrapped :
    (run : Bootstrap) (p : Profile) (lines : List Line) (calls : Calls)
    → (bootstrap_work run p lines calls).0 ≡ none
    → Bootstrapped run p
unfolding bootstrap_work
bootstrap_work-Bootstrapped run p lines calls = elim (Bool-cases (is_reuse p.mode)) [
  | inl reused ↦ λ h. inl reused
  | inr fresh ↦ rw fresh (λ h. inr (lines, h))
]

-- What the two phases change.
abbrev pub BootstrapEnds : Bootstrap → Profile → World → Result Error (Unit {0}) × World → Type 0
BootstrapEnds run p w (r, after) =
    (after.installs ≡ w.installs)
    × (((r ≡ ok tt) × Bootstrapped run p × (after.bootstraps ≡ w.bootstraps ++ started p))
        ⊎ (IsError r
            × ((after.bootstraps ≡ w.bootstraps) ⊎ (after.bootstraps ≡ w.bootstraps ++ started p))))

abbrev pub HelmEnds :
    Executor → Profile → Option Bundle → World → Result Error (Unit {0}) × World → Type 0
HelmEnds exec p b w (r, after) =
    (after.bootstraps ≡ w.bootstraps)
    × (((r ≡ ok tt) × (exec p b ≡ none) × (after.installs ≡ w.installs ++ (p, b) ∷ []))
        ⊎ (IsError r
            × ((after.installs ≡ w.installs) ⊎ (after.installs ≡ w.installs ++ (p, b) ∷ []))))

pub execute_bootstrap_phase_ends :
    (host : Host) (em : Emitter) (p : Profile) (bootstrapper : Bootstrap × Bool)
    (metadata : Dict Str) (w : World)
    → BootstrapEnds bootstrapper.0 p w (execute_bootstrap_phase host em p bootstrapper metadata w)
unfolding execute_bootstrap_phase
execute_bootstrap_phase_ends host em p (run, has_logging) metadata w =
    let work = bootstrap_work run p in
    let ran = run_phase em host.clock bootstrap_phase p work w in
    let (lines, how) =
      log_outcome_ends host em (is_reuse p.mode || has_logging) (codes "bootstrap")
        (build_bootstrap_command_args p) metadata work w ran.0 ran.1
        (run_phase_ends em host.clock bootstrap_phase p work w) in
    let moved = bootstrap_work-calls run p lines w.bootstraps w.installs in
    elim how [
      | inl (returned, succeeded, left) ↦ (
        ap (λ c. c.1) (left ∙ moved),
        inl (
          returned,
          bootstrap_work-Bootstrapped run p lines _ succeeded,
          ap (λ c. c.0) (left ∙ moved),
        ),
      )
      | inr (failed, inl same) ↦ (ap (λ c. c.1) same, inr (failed, inl (ap (λ c. c.0) same)))
      | inr (failed, inr left) ↦
          (ap (λ c. c.1) (left ∙ moved), inr (failed, inr (ap (λ c. c.0) (left ∙ moved))))
    ]

pub execute_install_helm_phase_ends :
    (host : Host) (em : Emitter) (installer : Executor × Bool) (p : Profile) (b : Option Bundle)
    (metadata : Dict Str) (args : List Str) (w : World)
    → HelmEnds installer.0 p b w (execute_install_helm_phase host em installer p b metadata args w)
unfolding execute_install_helm_phase helm_work
execute_install_helm_phase_ends host em (exec, has_logging) p b metadata args w =
    let work = helm_work em (exec, has_logging) p b in
    let ran = run_phase em host.clock helm_phase p work w in
    let (lines, how) =
      log_outcome_ends host em has_logging (codes "helm") args metadata work w ran.0 ran.1
        (run_phase_ends em host.clock helm_phase p work w) in
    elim how [
      | inl (returned, succeeded, left) ↦
          (ap (λ c. c.0) left, inl (returned, succeeded, ap (λ c. c.1) left))
      | inr (failed, inl same) ↦ (ap (λ c. c.0) same, inr (failed, inl (ap (λ c. c.1) same)))
      | inr (failed, inr left) ↦ (ap (λ c. c.0) left, inr (failed, inr (ap (λ c. c.1) left)))
    ]
