-- ===== src/ClusterUpgrade.antt =====
-- `chainctl cluster upgrade`, cmd/chainctl/cluster/upgrade.go, over a planner's client whose state
-- is that of the API server.
pub mod Scheduling
use chainctl.Prelude.{
  ℕ, zero, suc, ◌+◌, ◌-◌, ◌*◌, ◌/◌, ◌%◌, ◌≤◌, ◌<◌, String, ◌≡◌, refl, sym, ap, ◌∙◌, subst, ◌≢◌, ◌↔◌,
  ◌⊎◌, inl, inr, Bool, true, false, not, ◌&&◌, ◌||◌, Option, none, some, List, [], ◌∷◌, ◌++◌, map,
  append-nil, append_assoc, arith, ltb, leb, ◌==◌, if◌then◌else◌, ==_iff, leb→le, Bool-cases,
  Option-cases, not-true, length, is_empty, take, drop, length-append, take_append, drop_append,
  any, all, All, All-append,
}
use chainctl.Result.{Result, ok, err, map_err, guard}
use chainctl.Exec.{Exec, pure, raise, lift, modify, ◌>>=◌, ◌>>◌}
use chainctl.Text.{Str, codes, str_eq, is_blank}
use chainctl.Dict.{Dict}
use chainctl.Profile.{Profile, reuse}
use chainctl.Helm.{note}
use chainctl.Logger.{Line, Entry, upgrade_phase}
use chainctl.Logger.Phases.{Emitter, Clock, Work, log, emit_phase}
use chainctl.Logger.Phases
use chainctl.CommandLog.{workflow_start, workflow_success, workflow_failure, command_entry}
use chainctl.App.World.{Output, text_output, json_output, or_default}
use chainctl.ClusterInstall.{unless_blank}
use chainctl.Upgrade.{Plan, Client, plan_upgrade, planner_client}
use chainctl.Upgrade

pub record UpgradeOptions : Type 0 where
  pub cluster_endpoint : Str
  pub k3s_version : Str
  pub controller_manifest : Str
  pub airgapped_bundle : Str
  pub output : Str

pub data Error : Type 0 where
  cluster_endpoint_required k3s_version_required unsupported_output logger_unavailable : Error
  emitter_failed encode_failed : Str → Error
  phase_failed : Phases.Error → Error

-- `none` for nil.
pub record UpgradeDeps (S : Type 0) : Type 0 where
  pub planner : Option (Client S)
  pub emitter : Option (Result Str Emitter)

-- The server, what was logged, and what was printed, which goes to the same output.
pub record World (S : Type 0) : Type 0 where
  pub lines : List Line
  pub server : S
  pub printed : List Output

-- `emitter` is the default one, `plan_text` the text of an error of the planner.
pub record Host : Type 0 where
  pub text_of : Error → Str
  pub plan_text : Upgrade.Error → Str
  pub now : Str
  pub encode_error : Option Str
  pub clock : Clock
  pub emitter : Result Str Emitter

-- The error of the planner as a text.
abbrev pub plan_error : Host → Option Upgrade.Error → Option Str
plan_error host none = none
plan_error host (some e) = some (host.plan_text e)

unfoldable pub profile_of : UpgradeOptions → Profile
profile_of o = record {
  mode = reuse;
  cluster_endpoint = o.cluster_endpoint;
  airgapped = false;
  bundle_path = [];
  encrypted_file = [];
  passphrase = [];
  k3s_version = [];
  helm_release = [];
  helm_namespace = [];
}

unfoldable pub plan_of : UpgradeOptions → Plan
plan_of o = record {
  k3s_version = o.k3s_version;
  controller_manifest = o.controller_manifest;
  airgapped_bundle = o.airgapped_bundle;
}

unfoldable pub workflow_metadata : UpgradeOptions → Dict Str
workflow_metadata o = (codes "cluster", o.cluster_endpoint) ∷ (codes "version", o.k3s_version) ∷ []

unfoldable pub plan_metadata : UpgradeOptions → Dict Str
plan_metadata o = note (codes "bundlePath") o.airgapped_bundle (
    note (codes "controllerManifest") o.controller_manifest
      ((codes "k3sVersion", o.k3s_version) ∷ []))

unfoldable pub build_upgrade_plan_args : UpgradeOptions → List Str
build_upgrade_plan_args o =
    codes "system-upgrade"
    ∷ codes "plan"
    ∷ codes "--version"
    ∷ o.k3s_version
    ∷ (unless_blank (codes "--controller-manifest") o.controller_manifest
        ++ unless_blank (codes "--bundle-path") o.airgapped_bundle)

unfoldable pub output_text : UpgradeOptions → Str
output_text o =
    codes "Cluster upgrade scheduled for "
    ++ (o.cluster_endpoint ++ (codes " to version " ++ (o.k3s_version ++ codes "\n")))

unfoldable pub output_payload : Str → UpgradeOptions → Dict Str
output_payload now o = note (codes "controllerManifest") o.controller_manifest (
    (codes "status", codes "scheduled")
    ∷ (codes "cluster", o.cluster_endpoint)
    ∷ (codes "k3sVersion", o.k3s_version)
    ∷ (codes "timestamp", now)
    ∷ [])

module _ {S : Type 0} (host : Host) (deps : UpgradeDeps S) (o : UpgradeOptions) where
  abbrev pub Step : Type 0 → Type 0
  Step A = Exec Error (World S) A

  unfoldable pub log_entry : Emitter → Entry → Step (Unit {0})
  log_entry em entry = modify (λ w. record w { lines = log em entry w.lines })

  unfoldable pub print : Output → Step (Unit {0})
  print output = modify (λ w. record w { printed = w.printed ++ output ∷ [] })

  unfoldable pub encode_output : Option Str → Step (Unit {0})
  encode_output none = print (json_output (output_payload host.now o))
  encode_output (some text) = raise (encode_failed text)

  unfoldable pub emit_upgrade_output : Step (Unit {0})
  emit_upgrade_output =
      if str_eq o.output (codes "text")
      then print (text_output (output_text o))
      else if str_eq o.output (codes "json")
      then encode_output host.encode_error
      else raise unsupported_output

  -- The function of the phase.
  unfoldable pub planning : Work S
  planning lines server =
      let (error, after) =
        plan_upgrade (planner_client deps.planner) (profile_of o) (plan_of o) server in
      (plan_error host error, lines, after)

  abbrev pub phase_result : Option Phases.Error → Result Error (Unit {0})
  phase_result none = ok tt
  phase_result (some e) = err (phase_failed e)

  unfoldable pub run_phase : Emitter → Step (Unit {0})
  run_phase em w =
      let (error, lines, server) =
        emit_phase em upgrade_phase ((codes "version", o.k3s_version) ∷ []) host.clock planning
          w.lines w.server in
      (phase_result error, record w { lines = lines; server = server })

  -- The entry of the plan behind the phase, with its error.
  unfoldable pub log_plan :
      Emitter → Result Error (Unit {0}) × World S → Result Error (Unit {0}) × World S
  log_plan em (r, w) =
      let error : Option Str = elim r [ ok _ ↦ none | err e ↦ some (host.text_of e) ] in
      let entry =
        command_entry (codes "upgrade-plan") (build_upgrade_plan_args o) (plan_metadata o) error in
      (r, record w { lines = log em entry w.lines })

  -- What runs under the deferred function.
  unfoldable pub run_workflow : Emitter → Step (Unit {0})
  run_workflow em = do
    λ w. log_plan em (run_phase em w)
    log_entry em (workflow_success (codes "upgrade") (workflow_metadata o))
    emit_upgrade_output

  -- The deferred function.
  unfoldable pub log_failure :
      Emitter → Result Error (Unit {0}) × World S → Result Error (Unit {0}) × World S
  log_failure em (ok done, w) = (ok done, w)
  log_failure em (err e, w) =
      let entry = workflow_failure (codes "upgrade") (workflow_metadata o) (host.text_of e) in
      (err e, record w { lines = log em entry w.lines })

  unfoldable pub run_cluster_upgrade : Step (Unit {0})
  run_cluster_upgrade = do
    lift (guard (not (is_blank o.cluster_endpoint)) cluster_endpoint_required)
    lift (guard (not (is_blank o.k3s_version)) k3s_version_required)
    em ← lift (map_err emitter_failed (or_default deps.emitter host.emitter))
    lift (guard em.has_logger logger_unavailable)
    log_entry em (workflow_start (codes "upgrade") (workflow_metadata o))
    λ w. log_failure em (run_workflow em w)
