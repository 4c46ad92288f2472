-- ===== src/Tests/Applications.antt =====
-- Runs of the application's commands at concrete inputs.
use chainctl.Prelude.{◌≡◌, refl, ap, ◌∙◌, true, false, none, some, [], ◌∷◌, ◌++◌, ◌↔◌, any}
use chainctl.Result.{ok, err}
use chainctl.Text.{Str, codes}
use chainctl.Dict.{insert}
use chainctl.Profile.{Profile, reuse}
use chainctl.State.{ChartSource, Record, Overrides, Env}
use chainctl.State
use chainctl.Helm.{ResolveResult, Executor}
use chainctl.Logger.Phases.{Emitter}
use chainctl.App.{
  SharedOptions, validate_app_action_inputs, mode_of, load_options, build_profile_for_action,
  at_path, resolve_state_overrides, behind_colon, derive_version, build_state_record,
  action_upgrade, unsupported_output,
}
use chainctl.App.Puller.{split_oci_reference}
use chainctl.App.Sources.{
  ResolutionResult, ChartResolver, BundleLoader, resolve_from_chart, resolve_chart_source,
}
use chainctl.App.World.{Deps, Defaults, World, Host, StateManager, ensure_deps, other_installer}
use chainctl.App.Run.{prepare_app_installer, run_app_action}
use chainctl.App.Endings.{chart_of, Ends}
use chainctl.App.Order.{run_app_action-Ends}
use chainctl.App.Completion.{output_result, run_app_action_completes}
use chainctl.App.Version.{is_slash, derive_version-eq-split_oci_reference_iff}

abbrev tagged : Str
tagged = codes "oci://h/c:1"

abbrev pulled : ResolveResult
pulled = record {
  source = record { type_of = codes "oci"; reference = tagged; digest = [] };
  chart_path = [];
  bundle = none;
}

abbrev resolves_all : ChartResolver
resolves_all opts = ok pulled

abbrev writes_path : StateManager
writes_path r overrides disk = (
  ok overrides.state_file_path,
  record disk {
    files =
        insert overrides.state_file_path (record { content = r.version; perm = 384 }) disk.files;
  },
)

abbrev quiet_emitter : Emitter
quiet_emitter = record { accepts = λ out line. true; has_logger = true }

abbrev no_bundles : BundleLoader
no_bundles path root = err []

abbrev some_defaults : Defaults
some_defaults = record {
  load = no_bundles;
  emitter = ok quiet_emitter;
  manager = writes_path;
  locate = λ chart version. ok chart;
}

abbrev working : Executor
working p b = none

abbrev some_deps : Deps
some_deps = record {
  installer = some (other_installer working);
  bundle_loader = none;
  emitter = none;
  resolver = some resolves_all;
  state_manager = none;
}

abbrev some_host : Host
some_host = record {
  env = record { xdg_config_home = []; user_home_dir = none; wd = none };
  text_of = λ e. codes "failed";
  now = [];
  encode_error = none;
  clock = record { duration = 1; text = [] };
  invocation = none;
}

abbrev yaml_upgrade : SharedOptions
yaml_upgrade = record {
  cluster_endpoint = codes "c";
  values_file = codes "/v";
  values_passphrase = [];
  bundle_path = [];
  chart_reference = tagged;
  release_name = codes "r";
  app_version = [];
  namespace = codes "n";
  state_file_name = [];
  state_file_path = codes "/s";
  output = codes "yaml";
}

abbrev upgraded : Profile
upgraded = record {
  mode = reuse;
  cluster_endpoint = codes "c";
  airgapped = false;
  bundle_path = [];
  encrypted_file = codes "/v";
  passphrase = [];
  k3s_version = [];
  helm_release = codes "r";
  helm_namespace = codes "n";
}

abbrev start_world : World
start_world = record {
  lines = [];
  installs = [];
  disk = record { files = []; dirs = [] };
  printed = [];
  metadata = [];
}

yaml_valid : validate_app_action_inputs yaml_upgrade action_upgrade ≡ ok tt
unfolding validate_app_action_inputs chainctl.Text.is_blank codes
yaml_valid = refl

yaml_built : build_profile_for_action yaml_upgrade action_upgrade ≡ ok upgraded
unfolding build_profile_for_action chainctl.Profile.validate chainctl.Text.to_lower load_options
    chainctl.Profile.mode_text mode_of chainctl.Text.str_eq chainctl.Text.is_blank
    chainctl.FilePath.clean chainctl.FilePath.is_abs chainctl.Text.join chainctl.Text.split
    chainctl.FilePath.push_segment
yaml_built = refl

yaml_located : resolve_state_overrides some_host.env yaml_upgrade ≡ ok (codes "/s")
unfolding resolve_state_overrides State.resolve codes chainctl.FilePath.is_abs
    chainctl.FilePath.clean chainctl.Text.join chainctl.Text.split chainctl.FilePath.push_segment
    chainctl.Text.str_eq
yaml_located = refl

abbrev charted : ResolutionResult
charted = record { outcome = pulled; bundle = none }

yaml_resolved : resolve_chart_source (some resolves_all) no_bundles yaml_upgrade ≡ ok charted
unfolding resolve_chart_source chainctl.Text.is_blank codes resolve_from_chart
yaml_resolved = refl

yaml_refused : output_result some_host yaml_upgrade.output ≡ err unsupported_output
unfolding codes chainctl.Text.str_eq
yaml_refused = refl

yaml_resolver : (ensure_deps some_defaults some_deps).resolver ≡ some resolves_all
unfolding ensure_deps
yaml_resolver = refl

run_app_action-Ends_example :
    Ends some_host working writes_path action_upgrade yaml_upgrade
      (chart_of some_defaults (ensure_deps some_defaults some_deps) yaml_upgrade)
      start_world
      (run_app_action some_host some_defaults some_deps action_upgrade yaml_upgrade start_world)
unfolding prepare_app_installer
run_app_action-Ends_example =
    run_app_action-Ends some_host some_defaults some_deps action_upgrade yaml_upgrade start_world

located_path : (at_path (codes "/s")).state_file_path ≡ codes "/s"
unfolding at_path
located_path = refl

run_app_action_completes_example :
    let (result, after) =
      run_app_action some_host some_defaults some_deps action_upgrade yaml_upgrade start_world in
    let left =
      writes_path
        (build_state_record upgraded pulled action_upgrade yaml_upgrade)
        (at_path (codes "/s"))
        start_world.disk in
    (result ≡ output_result some_host (codes "yaml"))
    × (after.installs ≡ [] ++ (upgraded, none) ∷ [])
    × (after.disk ≡ left.1)
unfolding prepare_app_installer
run_app_action_completes_example =
    run_app_action_completes some_host some_defaults some_deps action_upgrade yaml_upgrade upgraded
      (codes "/s") (codes "/s") quiet_emitter charted start_world yaml_valid yaml_built yaml_located
      refl refl (λ out line. refl)
      (ap (λ r. resolve_chart_source r no_bundles yaml_upgrade) yaml_resolver ∙ yaml_resolved) refl
      (ap ok located_path)

abbrev untagged : ResolveResult
untagged = record {
  source = record { type_of = codes "oci"; reference = codes "oci://h:5000/c"; digest = [] };
  chart_path = [];
  bundle = none;
}

derive_version-eq-split_oci_reference_iff_example :
    (derive_version yaml_upgrade untagged ≡ (split_oci_reference (codes "oci://h:5000/c")).1)
    ↔ (any is_slash (behind_colon (codes "oci://h:5000/c")) ≡ false)
derive_version-eq-split_oci_reference_iff_example =
    derive_version-eq-split_oci_reference_iff yaml_upgrade untagged refl refl

-- Part of the address, and no version.
untagged_version : derive_version yaml_upgrade untagged ≡ codes "5000/c"
unfolding derive_version codes chainctl.Text.str_eq chainctl.Text.cut_last
untagged_version = refl

unasked_version : (split_oci_reference (codes "oci://h:5000/c")).1 ≡ []
unfolding split_oci_reference chainctl.Text.cut_last codes any
unasked_version = refl
