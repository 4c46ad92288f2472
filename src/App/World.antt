-- ===== src/App/World.antt =====
-- What `runAppAction` is given, `ensureDeps` of deps_defaults.go, and the state that it changes.
use chainctl.Prelude.{Option, none, some, List}
use chainctl.Result.{Result}
use chainctl.Exec.{Exec}
use chainctl.Text.{Str}
use chainctl.Dict.{Dict}
use chainctl.Profile.{Profile}
use chainctl.Config.{ResolvedInvocation}
use chainctl.Bundle.{Bundle}
use chainctl.State.{Record, Overrides, Env}
use chainctl.State
use chainctl.State.Manager.{Disk}
use chainctl.Helm.{ResolveResult, Executor, noop_executor, upgrade_start, upgrade_complete, note}
use chainctl.Helm
use chainctl.Logger.{Line}
use chainctl.Logger.Phases.{Emitter, Clock}
use chainctl.App.{Error}
use chainctl.App.Puller.{LocateChart, pull}
use chainctl.App.Sources.{ChartResolver, BundleLoader}

-- The interface `HelmInstaller`: the one of pkg/helm, which logs by itself, or another one.
pub data HelmInstaller : Type 0 where
  helm_installer other_installer : Executor → HelmInstaller

abbrev pub StateManager : Type 0
StateManager = Record → Overrides → Exec State.Error Disk Str

-- `none` for nil. The emitter is what its constructor returns.
pub record Deps : Type 0 where
  pub installer : Option HelmInstaller
  pub bundle_loader : Option BundleLoader
  pub emitter : Option (Result Str Emitter)
  pub resolver : Option ChartResolver
  pub state_manager : Option StateManager

-- bundle.Load, the default emitter, the manager of pkg/state and helm's LocateChart.
pub record Defaults : Type 0 where
  pub load : BundleLoader
  pub emitter : Result Str Emitter
  pub manager : StateManager
  pub locate : LocateChart

abbrev pub or_default {ℓ} : {A : Type ℓ} → Option A → A → A
or_default none fallback = fallback
or_default (some a) fallback = a

unfoldable pub ensure_deps : Defaults → Deps → Deps
ensure_deps defaults deps =
    let loader = or_default deps.bundle_loader defaults.load in
    let resolver : ChartResolver =
      Helm.resolve (record { puller = some (pull defaults.locate); bundle_loader = some loader }) in
    record {
      installer = deps.installer;
      bundle_loader = some loader;
      emitter = some (or_default deps.emitter defaults.emitter);
      resolver = some (or_default deps.resolver resolver);
      state_manager = some (or_default deps.state_manager defaults.manager);
    }

-- What is written to the standard output: a text, or the map for the JSON encoder.
pub data Output : Type 0 where
  text_output : Str → Output
  json_output : Dict Str → Output

-- `lines` went to the standard error, `installs` are the calls of the installer, and `metadata` is
-- the map of the workflow, which the deferred function reads when it runs.
pub record World : Type 0 where
  pub lines : List Line
  pub installs : List (Profile × Option Bundle)
  pub disk : Disk
  pub printed : List Output
  pub metadata : Dict Str

-- `text_of` gives the text of an error, `now` the time as RFC 3339, `encode_error` the error of the
-- write of the encoder, and `clock` the time that the phase takes.
pub record Host : Type 0 where
  pub env : Env
  pub text_of : Error → Str
  pub now : Str
  pub encode_error : Option Str
  pub clock : Clock
  pub invocation : Option ResolvedInvocation

abbrev pub Step : Type 0 → Type 0
Step A = Exec Error World A
