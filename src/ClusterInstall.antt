-- ===== src/ClusterInstall.antt =====
-- `chainctl cluster install`, cmd/chainctl/cluster/install.go: its options and what is computed
-- from them.
pub mod World
pub mod Run
pub mod Effects
pub mod Keeping
pub mod Guards
use chainctl.Prelude.{
  ℕ, zero, suc, ◌+◌, ◌-◌, ◌*◌, ◌/◌, ◌%◌, ◌≤◌, ◌<◌, String, ◌≡◌, refl, sym, ap, ◌∙◌, subst, ◌≢◌, ◌↔◌,
  ◌⊎◌, inl, inr, Bool, true, false, not, ◌&&◌, ◌||◌, Option, none, some, List, [], ◌∷◌, ◌++◌, map,
  append-nil, append_assoc, arith, ltb, leb, ◌==◌, if◌then◌else◌, ==_iff, leb→le, Bool-cases,
  Option-cases, not-true, length, is_empty, take, drop, length-append, take_append, drop_append,
  any, all, All, All-append,
}
use chainctl.Result.{
  Result, ok, err, map_err, ◌>>=◌, ◌>>◌, guard, of_error, >>=-eq-ok, Result-cases,
}
use chainctl.Text.{
  Str, codes, str_eq, has_prefix, contains, is_space, trim_left, trim_right, trim_space, is_blank,
  lower, upper, to_lower, to_upper, cons_head, split, cut, cut_last, join,
}
use chainctl.Dict.{
  Dict, insert, lookup, lookup-insert, lookup-insert_self, Distinct, remove, lookup-remove,
}
use chainctl.Profile.{
  Mode, bootstrap, reuse, mode_text, LoadOptions, Profile, validate, default_string, parse_mode,
  is_reuse, base_profile, profile_string, unknown_mode, cluster_endpoint_required,
  encrypted_file_required, bundle_path_required,
}
use chainctl.Profile
use chainctl.Preflight.{
  HostConfig, Inspector, Issue, validate_host, Outcome, issues_of, few_cores, little_memory,
  module_missing, path_missing, sudo_required,
}
use chainctl.Logger.Phases
use chainctl.App.Sources.{
  trimmed_args, ResolutionResult, ChartResolver, BundleLoader, validate_resolve_source,
  resolve_from_chart, resolved_bundle, loaded_outcome, resolve_from_bundle, resolve_chart_source,
  build_resolve_args, note_source, build_resolve_metadata, build_helm_install_metadata,
  build_helm_install_args, build_workflow_metadata, update_workflow_metadata_from_outcome,
}

pub record InstallOptions : Type 0 where
  pub wants_bootstrap : Bool
  pub cluster_endpoint : Str
  pub k3s_version : Str
  pub values_file : Str
  pub values_passphrase : Str
  pub bundle_path : Str
  pub airgapped : Bool
  pub dry_run : Bool
  pub output : Str

pub data Error : Type 0 where
  values_file_required unsupported_output logger_unavailable : Error
  profile_invalid : Profile.Error → Error
  preflight_failed : List Issue → Error
  emitter_failed : Str → Error
  cluster_config_unloaded cluster_invalid bundle_unloaded encode_failed : Str → Error
  phase_failed : Phases.Error → Error

unfoldable pub validate_install_options : InstallOptions → Result Error (Unit {0})
validate_install_options o = if is_blank o.values_file then err values_file_required else ok tt

unfoldable pub mode_of : InstallOptions → Mode
mode_of o = if not o.wants_bootstrap || not (is_blank o.cluster_endpoint) then reuse else bootstrap

unfoldable pub load_options : InstallOptions → LoadOptions
load_options o = record {
  mode = mode_text (mode_of o);
  cluster_endpoint = o.cluster_endpoint;
  airgapped_bundle_path = o.bundle_path;
  encrypted_values_path = o.values_file;
  values_passphrase = o.values_passphrase;
  k3s_version = o.k3s_version;
  helm_release_name = [];
  helm_namespace = [];
  offline = o.airgapped;
}

unfoldable pub build_profile : InstallOptions → Result Error Profile
build_profile o = map_err profile_invalid (validate (load_options o))

unfoldable pub requirements : HostConfig
requirements = record {
  require_sudo = true;
  kernel_modules = codes "br_netfilter" ∷ codes "overlay" ∷ [];
  min_cpu = 2;
  min_memory_gib = 4;
  filesystem_paths = [];
}

unfoldable pub run_preflight_validation : Inspector → Result Error (Unit {0})
unfolding requirements
run_preflight_validation inspector =
    let checked = validate_host requirements inspector in
    if checked.passed then ok tt else err (preflight_failed checked.issues)

unfoldable pub build_install_metadata : Profile → Dict Str
build_install_metadata p =
    let metadata =
      (codes "mode", mode_text p.mode)
      ∷ (codes "namespace", p.helm_namespace)
      ∷ (codes "release", p.helm_release)
      ∷ [] in
    if p.airgapped then insert (codes "bundlePath") p.bundle_path metadata else metadata

-- An argument with its flag, if it is not blank.
abbrev pub unless_blank : Str → Str → List Str
unless_blank flag value = if is_blank value then [] else flag ∷ value ∷ []

unfoldable pub build_helm_command_args : Profile → InstallOptions → Bool → List Str
build_helm_command_args p o dry_run =
    codes "helm"
    ∷ codes "upgrade"
    ∷ p.helm_release
    ∷ (trimmed_args (codes "--namespace") p.helm_namespace
        ++ (codes "--values"
            ∷ p.encrypted_file
            ∷ ((if p.airgapped then unless_blank (codes "--bundle-path") o.bundle_path else [])
                ++ (unless_blank (codes "--values-passphrase") p.passphrase
                    ++ (if dry_run then codes "--dry-run" ∷ [] else [])))))

unfoldable pub build_bootstrap_command_args : Profile → List Str
build_bootstrap_command_args p =
    codes "k3s-install" ∷ unless_blank (codes "--values-passphrase") p.passphrase
