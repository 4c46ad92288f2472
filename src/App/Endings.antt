-- ===== src/App/Endings.antt =====
-- How a run of `runAppAction` may end: refused, with a failed install, or installed.
use chainctl.Prelude.{◌≡◌, ◌⊎◌, Option, none, [], ◌∷◌, ◌++◌}
use chainctl.Result.{Result, ok, err}
use chainctl.Text.{Str}
use chainctl.Profile.{Profile}
use chainctl.Bundle.{Bundle}
use chainctl.State
use chainctl.Helm.{Executor}
use chainctl.Logger.Phases.{Emitter}
use chainctl.App.{
  AppAction, SharedOptions, Error, build_profile_for_action, at_path, resolve_state_overrides,
  build_state_record,
}
use chainctl.App.Sources.{ResolutionResult, resolve_chart_source}
use chainctl.App.World.{Deps, Defaults, Output, World, Host, StateManager, or_default}
use chainctl.App.Run.{prepare_app_installer, log_failure}
use chainctl.App.Effects.{IsError, Quiet}

-- The installer's executor and the manager that a run uses.
abbrev pub executor_of : Deps → Executor
executor_of deps = (prepare_app_installer deps.installer).0

abbrev pub manager_of : Defaults → Deps → StateManager
manager_of defaults deps = or_default deps.state_manager defaults.manager

abbrev pub Ending : Type 0
Ending = Result Error (Unit {0}) × World

-- What the resolution of the chart gives.
abbrev pub chart_of : Defaults → Deps → SharedOptions → Result Error ResolutionResult
chart_of defaults deps o =
    resolve_chart_source deps.resolver (or_default deps.bundle_loader defaults.load) o

-- How a run of an action that begins in `before` ends, where the resolution gives `chart`.
module _ (host : Host) (exec : Executor) (manager : StateManager) (action : AppAction)
    (o : SharedOptions) (chart : Result Error ResolutionResult) (before : World) where
  abbrev Refused : Ending → Type 0
  Refused (r, after) = IsError r × Quiet before (r, after)

  abbrev InstallFailed : Ending → Type 0
  InstallFailed (r, after) =
      IsError r
      × ((p : Profile) × (b : Option Bundle) × (build_profile_for_action o action ≡ ok p)
          × ((resolved : ResolutionResult) × (chart ≡ ok resolved) × (b ≡ resolved.bundle))
          × (after.installs ≡ before.installs ++ (p, b) ∷ []))
      × (after.disk ≡ before.disk)
      × (after.printed ≡ before.printed)

  -- One output is printed, after a write that returned, if the run returns, and none if it fails.
  abbrev Reported : Result State.Error Str → Ending → Type 0
  Reported written (r, after) =
      (IsError r × (after.printed ≡ before.printed))
      ⊎ ((r ≡ ok tt)
          × ((path : Str) × (written ≡ ok path))
          × ((output : Output) × (after.printed ≡ before.printed ++ output ∷ [])))

  abbrev Recorded : Profile → ResolutionResult → Str → Ending → Type 0
  Recorded p resolved hint (r, after) =
      let (written, disk) =
        manager (build_state_record p resolved.outcome action o) (at_path hint) before.disk in
      (exec p resolved.bundle ≡ none)
      × (after.installs ≡ before.installs ++ (p, resolved.bundle) ∷ [])
      × (after.disk ≡ disk)
      × Reported written (r, after)

  abbrev Installed : Ending → Type 0
  Installed ending =
      (p : Profile) × (resolved : ResolutionResult) × (hint : Str) × (build_profile_for_action o
          action
        ≡ ok p)
      × (resolve_state_overrides host.env o ≡ ok hint)
      × (chart ≡ ok resolved)
      × Recorded p resolved hint ending

  abbrev pub Ends : Ending → Type 0
  Ends ending = Refused ending ⊎ InstallFailed ending ⊎ Installed ending

  pub log_failure-Ends :
      (em : Emitter) (step : Str) (r : Result Error (Unit {0})) (w : World)
      → Ends (r, w)
      → Ends (log_failure host em step (r, w))
  unfolding log_failure
  log_failure-Ends em step (ok done) w h = h
  log_failure-Ends em step (err e) w h = h
