-- ===== src/Helm.antt =====
-- pkg/helm: the resolution of a chart source (resolver.go), the installer (client.go) and the
-- arguments and entries of the logging executor (executor.go).
pub mod Resolution
pub mod Secrecy
use chainctl.Prelude.{
  ℕ, zero, suc, ◌+◌, ◌-◌, ◌*◌, ◌/◌, ◌%◌, ◌≤◌, ◌<◌, String, ◌≡◌, refl, sym, ap, ◌∙◌, subst, ◌≢◌, ◌↔◌,
  ◌⊎◌, inl, inr, Bool, true, false, not, ◌&&◌, ◌||◌, Option, none, some, List, [], ◌∷◌, ◌++◌, map,
  append-nil, append_assoc, arith, ltb, leb, ◌==◌, if◌then◌else◌, ==_iff, leb→le, Bool-cases,
  Option-cases, length, is_empty, take, drop, length-append, any, all, All, All-append,
}
use chainctl.Result.{
  ok, Result, ◌>>=◌, ◌>>◌, guard, map_err, of_error, >>=-eq-ok, Result-cases, err,
}
use chainctl.Text.{
  Str, codes, str_eq, has_prefix, contains, is_space, trim_left, trim_right, trim_space, is_blank,
  lower, upper, to_lower, to_upper, cons_head, split, cut, cut_last, join,
}
use chainctl.Dict.{
  Dict, insert, lookup, lookup-insert, lookup-insert_self, Distinct, remove, lookup-remove,
}
use chainctl.FilePath.{
  dir, dot, dot_dot, is_abs, up, push_segment, normalise, rev_append, parts, render, clean,
  join_path, abs, climb, rel_parts, starts_up, rel,
}
use chainctl.Profile.{
  Profile, Mode, LoadOptions, mode_text, default_string, parse_mode, is_reuse, base_profile,
  validate, profile_string, bootstrap, reuse, unknown_mode, cluster_endpoint_required,
  encrypted_file_required, bundle_path_required,
}
use chainctl.State.{
  ChartSource, Record, Overrides, Env, default_file_name, config_dir_name, state_dir_name,
  reserved_names, is_separator, is_control, names_device, invalid_file_name_test,
  default_state_directory, absolute_directory, state_directory_of, conflicting_overrides,
  relative_state_file, invalid_file_name, determine_state_directory, resolve_state_directory,
  path_resolver_missing, empty_state_path, write_failed,
}
use chainctl.Bundle.{
  Bundle, ImageRecord, ChartRecord, BinaryRecord, Manifest, Archive, Request, Host, Disk, Action,
  manifest_file_name, safe_join, request, make_dirs, write, extract_entry, extract_entries,
  tarball_path_required, read_bundle, reset_cache, create_cache, read_tar_entry,
  path_outside_bundle, resolve_base_path, manifest_missing, parse_manifest, create_dir,
  create_parent_dir, copy_entry, write_file, read_asset, checksum_mismatch, mkdir_all,
  write_file_at, remove_all,
}
use chainctl.Sanitizer.{
  sanitize_command, sanitize_text, Transform, redaction_placeholder, allowlisted_env_keys,
  is_sensitive_flag, is_sensitive_key, sanitize_pair, sanitize_set_expressions,
  next_for_set_style_flag, sanitize_inline_assignment, sanitize_command_arg, sanitize_step,
  sanitize_args, sanitize_env_value, sanitize_env, pattern_words, is_regexp_space, value_length,
  match_word, match_at, replace_all, no_transform, set_transform, redact_transform,
}
use chainctl.Logger.{
  Entry, Severity, Category, Payload, Phase, Outcome, Event, Line, payload_of, phase_text,
  severity_unset, severity_info, severity_warn, severity_error, category_workflow, category_command,
  category_diagnostic, category_config, preflight_phase, bootstrap_phase, helm_phase, upgrade_phase,
  join_phase, verify_phase, outcome_start, outcome_success, outcome_failure, entry_line, event_line,
}

pub record PullResult : Type 0 where
  pub chart_path : Str
  pub digest : Str

pub record ResolveOptions : Type 0 where
  pub oci_reference : Str
  pub bundle_path : Str
  pub bundle_cache_dir : Str

pub record ResolveResult : Type 0 where
  pub source : ChartSource
  pub chart_path : Str
  pub bundle : Option Bundle

-- `from_outside` is an error of the puller or the bundle loader.
pub data Error : Type 0 where
  conflicting_sources missing_source invalid_oci puller_missing bundle_loader_missing : Error
  empty_bundle_path : Error
  from_outside : Str → Error

-- The dependencies of a `Resolver`, `none` for nil. They are code outside this package.
pub record Resolver : Type 0 where
  pub puller : Option (Str → Result Str PullResult)
  pub bundle_loader : Option (Str → Str → Result Str Bundle)

unfoldable pub type_oci : Str
unfolding codes
type_oci = codes "oci"

unfoldable pub type_bundle : Str
unfolding codes
type_bundle = codes "bundle"

unfoldable pub resolve_oci : Resolver → ResolveOptions → Result Error ResolveResult
resolve_oci r opts =
    if not (has_prefix (to_lower opts.oci_reference) (codes "oci://"))
    then err invalid_oci
    else elim r.puller [
      | none ↦ err puller_missing
      | some pull ↦ do
        pulled ← map_err from_outside (pull opts.oci_reference)
        ok (record {
          source = record {
            type_of = type_oci;
            reference = opts.oci_reference;
            digest = pulled.digest;
          };
          chart_path = pulled.chart_path;
          bundle = none;
        })
    ]

unfoldable pub cache_root_of : ResolveOptions → Str
cache_root_of opts =
    if is_blank opts.bundle_cache_dir
    then dir (trim_space opts.bundle_path)
    else opts.bundle_cache_dir

unfoldable pub resolve_bundle : Resolver → ResolveOptions → Result Error ResolveResult
resolve_bundle r opts = elim r.bundle_loader [
  | none ↦ err bundle_loader_missing
  | some loader ↦ if is_blank opts.bundle_path then err empty_bundle_path else do
    tb ← map_err from_outside (loader (trim_space opts.bundle_path) (cache_root_of opts))
    ok (record {
      source = record { type_of = type_bundle; reference = opts.bundle_path; digest = [] };
      chart_path = [];
      bundle = some tb;
    })
]

unfoldable pub resolve : Resolver → ResolveOptions → Result Error ResolveResult
resolve r opts =
    let has_chart = not (is_blank opts.oci_reference) in
    let has_bundle = not (is_blank opts.bundle_path) in
    if has_chart && has_bundle
    then err conflicting_sources
    else if not has_chart && not has_bundle
    then err missing_source
    else if has_chart
    then resolve_oci r opts
    else resolve_bundle r opts

-- `args = append(args, ...)` under a test that the value is not empty.
abbrev pub option_args : Str → Str → List Str
option_args flag value = if is_empty value then [] else flag ∷ value ∷ []

unfoldable pub build_helm_args : Profile → List Str
build_helm_args p =
    codes "helm"
    ∷ codes "upgrade"
    ∷ ((if is_empty p.helm_release then [] else p.helm_release ∷ [])
        ++ (option_args (codes "--namespace") p.helm_namespace
            ++ (option_args (codes "--values") p.encrypted_file
                ++ (option_args (codes "--values-passphrase") p.passphrase
                    ++ option_args (codes "--bundle-path") p.bundle_path))))

-- `if value != "" { metadata[key] = value }`
abbrev pub note : Str → Str → Dict Str → Dict Str
note key value metadata = if is_empty value then metadata else insert key value metadata

abbrev bundle_version : Option Bundle → Str
bundle_version none = []
bundle_version (some b) = b.manifest.version

unfoldable pub upgrade_metadata : Profile → Option Bundle → Dict Str
upgrade_metadata p b = note (codes "bundleVersion") (bundle_version b) (
    note (codes "bundlePath") p.bundle_path
      (note (codes "release") p.helm_release (note (codes "namespace") p.helm_namespace [])))

unfoldable pub upgrade_start : Profile → Option Bundle → Entry
upgrade_start p b = record {
  category = category_command;
  message = codes "helm upgrade start";
  severity = severity_info;
  step = codes "helm";
  command = sanitize_command (build_helm_args p);
  stderr_excerpt = [];
  metadata = upgrade_metadata p b;
  error = none;
}

-- `error` is the text of the executor's error.
unfoldable pub upgrade_complete : Profile → Option Bundle → Option Str → Entry
upgrade_complete p b error = record {
  category = category_command;
  message = codes "helm upgrade complete";
  severity = elim error [ none ↦ severity_info | some _ ↦ severity_error ];
  step = codes "helm";
  command = sanitize_command (build_helm_args p);
  stderr_excerpt = elim error [ none ↦ [] | some text ↦ sanitize_text text ];
  metadata = upgrade_metadata p b;
  error = error;
}

-- An executor of helm upgrades, code outside: it returns the text of its error.
abbrev pub Executor : Type 0
Executor = Profile → Option Bundle → Option Str

unfoldable pub noop_executor : Executor
noop_executor p b = none

-- `NewInstaller`, `none` for a nil executor.
unfoldable pub installer_executor : Option Executor → Executor
installer_executor none = noop_executor
installer_executor (some exec) = exec

-- `loggingExecutor.UpgradeRelease`: its error, and the log with its two entries.
unfoldable pub logged_upgrade :
    Executor → Profile → Option Bundle → List Entry → Option Str × List Entry
logged_upgrade exec p b log =
    let error = exec p b in (error, log ++ upgrade_start p b ∷ upgrade_complete p b error ∷ [])
