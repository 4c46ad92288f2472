-- ===== src/ClusterUpgrade/Scheduling.antt =====
-- `runClusterUpgrade` over the client of pkg/upgrade: the plan that a run leaves in the cluster.
use chainctl.Prelude.{◌≡◌, ◌⊎◌, Option, some, List}
use chainctl.Result.{Result, ok, err}
use chainctl.Text.{Str}
use chainctl.Dict.{Dict}
use chainctl.Logger.{Line}
use chainctl.Logger.Phases.{Emitter}
use chainctl.Upgrade.{PlanObject, Api, controller_client}
use chainctl.Upgrade.Plans.{HasVersion}
use chainctl.ClusterUpgrade.{UpgradeOptions, Error, UpgradeDeps, World, Host, plan_of}

module _ {S : Type 0} (host : Host) (made : Option (Result Str Emitter)) (o : UpgradeOptions)
    (api : Api S) (stored : S → Option PlanObject) where
  -- The command's dependencies with the client of the program.
  abbrev pub cluster_deps : UpgradeDeps S
  cluster_deps = record { planner = some (controller_client api); emitter = made }

  -- The stored plan has the version that is asked for.
  abbrev pub Scheduled : S → S → Type 0
  Scheduled before after = HasVersion (plan_of o) (stored before) (stored after)

  abbrev pub Ends : S → Result Error (Unit {0}) × World S → Type 0
  Ends before (r, after) =
      ((r ≡ ok tt) × Scheduled before after.server)
      ⊎ (((e : Error) × (r ≡ err e))
          × ((stored after.server ≡ stored before) ⊎ Scheduled before after.server))

  -- The step does not change the server.
  abbrev Serves : S → Result Error (Unit {0}) × World S → Type 0
  Serves server (r, after) = after.server ≡ server

  abbrev PlanningEnds : S → Option Str × List Line × S → Type 0
  PlanningEnds server (error, logged, after) =
      Scheduled server after
      ⊎ ((stored after ≡ stored server) × ((text : Str) × (error ≡ some text)))
