-- ===== src/ClusterInstall/World.antt =====
-- What `runInstall` is given, and the state that it changes.
use chainctl.Prelude.{Option, List}
use chainctl.Result.{Result}
use chainctl.Exec.{Exec}
use chainctl.Text.{Str}
use chainctl.Config.{ResolvedInvocation}
use chainctl.Profile.{Profile}
use chainctl.Bundle.{Bundle}
use chainctl.Preflight.{Inspector}
use chainctl.Logger.{Line}
use chainctl.Logger.Phases.{Emitter, Clock}
use chainctl.App.Sources.{BundleLoader}
use chainctl.App.World.{Output, HelmInstaller}
use chainctl.ClusterInstall.{Error}

-- The orchestrator of pkg/bootstrap, which logs by itself, or another `Bootstrapper`.
pub data Bootstrapper : Type 0 where
  orchestrator : (Emitter → Profile → List Line → Option Str × List Line) → Bootstrapper
  other_bootstrapper : (Profile → Option Str) → Bootstrapper

-- `none` for nil. `C` is the client configuration of a cluster.
pub record InstallDeps (C : Type 0) : Type 0 where
  pub inspector : Option Inspector
  pub bundle_loader : Option BundleLoader
  pub bootstrapper : Option Bootstrapper
  pub helm_installer : Option HelmInstaller
  pub emitter : Option (Result Str Emitter)
  pub cluster_validator : Option (C → Option Str)
  pub cluster_config_loader : Option (Profile → Result Str (Option C))

-- What stands in for the nil ones: the host's inspector, bundle.Load, the default emitter,
-- `ValidateCluster` and `loadClusterConfig`.
pub record Defaults (C : Type 0) : Type 0 where
  pub inspector : Inspector
  pub load : BundleLoader
  pub emitter : Result Str Emitter
  pub validate_cluster : C → Option Str
  pub load_cluster_config : Profile → Result Str (Option C)

abbrev pub Calls : Type 0
Calls = List Profile × List (Profile × Option Bundle)

-- The calls of the bootstrapper and of the installer, what was logged, and what was printed, which
-- the command writes to the same output as the log.
pub record World : Type 0 where
  pub lines : List Line
  pub bootstraps : List Profile
  pub installs : List (Profile × Option Bundle)
  pub printed : List Output

pub record Host : Type 0 where
  pub text_of : Error → Str
  pub now : Str
  pub encode_error : Option Str
  pub clock : Clock
  pub invocation : Option ResolvedInvocation

abbrev pub Step : Type 0 → Type 0
Step A = Exec Error World A
