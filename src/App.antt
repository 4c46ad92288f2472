-- ===== src/App.antt =====
-- `chainctl app install` and `app upgrade`, cmd/chainctl/app: the options of both and what is
-- computed from them (action.go). An error is a constructor; its text comes from outside.
pub mod Puller
pub mod Sources
pub mod World
pub mod Run
pub mod Effects
pub mod Endings
pub mod Order
pub mod Completion
pub mod Version
use chainctl.Prelude.{
  ℕ, zero, suc, ◌+◌, ◌-◌, ◌*◌, ◌/◌, ◌%◌, ◌≤◌, ◌<◌, String, ◌≡◌, refl, sym, ap, ◌∙◌, subst, ◌≢◌, ◌↔◌,
  ◌⊎◌, inl, inr, Bool, true, false, not, ◌&&◌, ◌||◌, Option, none, some, List, [], ◌∷◌, ◌++◌, map,
  append-nil, append_assoc, arith, ltb, leb, ◌==◌, if◌then◌else◌, ==_iff, leb→le, Bool-cases,
  Option-cases, not-true, length, is_empty, take, drop, length-append, take_append, drop_append,
  any, all, All, All-append,
}
use chainctl.Result.{Result, ok, err, map_err, ◌>>=◌}
use chainctl.Text.{
  Str, codes, str_eq, has_prefix, contains, is_space, trim_left, trim_right, trim_space, is_blank,
  lower, upper, to_lower, to_upper, cons_head, split, cut, cut_last, join,
}
use chainctl.Profile.{Mode, bootstrap, reuse, mode_text, LoadOptions, Profile, validate}
use chainctl.Profile
use chainctl.State.{ChartSource, Record, Overrides, Env}
use chainctl.State
use chainctl.Helm.{ResolveResult}
use chainctl.Helm
use chainctl.Logger.Phases

pub data AppAction : Type 0 where
  action_install action_upgrade : AppAction

-- The text of an action.
unfoldable pub action_text : AppAction → Str
action_text action_install = codes "install"
action_text action_upgrade = codes "upgrade"

pub record SharedOptions : Type 0 where
  pub cluster_endpoint : Str
  pub values_file : Str
  pub values_passphrase : Str
  pub bundle_path : Str
  pub chart_reference : Str
  pub release_name : Str
  pub app_version : Str
  pub namespace : Str
  pub state_file_name : Str
  pub state_file_path : Str
  pub output : Str

pub data Error : Type 0 where
  values_file_required cluster_endpoint_required conflicting_sources missing_source : Error
  unsupported_output resolver_puller_missing logger_unavailable state_manager_unavailable : Error
  profile_invalid : Profile.Error → Error
  state_path_invalid : State.Error → Error
  emitter_failed : Str → Error
  chart_unresolved : Helm.Error → Error
  bundle_unloaded : Str → Error
  phase_failed : Phases.Error → Error
  state_unwritten : State.Error → Error
  encode_failed : Str → Error

unfoldable pub is_upgrade : AppAction → Bool
is_upgrade action_install = false
is_upgrade action_upgrade = true

unfoldable pub validate_app_action_inputs : SharedOptions → AppAction → Result Error (Unit {0})
unfolding is_upgrade
validate_app_action_inputs o action =
    if is_blank o.values_file
    then err values_file_required
    else if is_upgrade action && is_blank o.cluster_endpoint
    then err cluster_endpoint_required
    else ok tt

-- The mode of the profile: `ModeReuse`, which an install replaces by `ModeBootstrap`.
unfoldable pub mode_of : AppAction → Mode
mode_of action_install = bootstrap
mode_of action_upgrade = reuse

unfoldable pub load_options : SharedOptions → AppAction → LoadOptions
load_options o action = record {
  mode = mode_text (mode_of action);
  cluster_endpoint = o.cluster_endpoint;
  airgapped_bundle_path = o.bundle_path;
  encrypted_values_path = o.values_file;
  values_passphrase = o.values_passphrase;
  k3s_version = [];
  helm_release_name = o.release_name;
  helm_namespace = o.namespace;
  offline = not (is_blank o.bundle_path);
}

unfoldable pub build_profile_for_action : SharedOptions → AppAction → Result Error Profile
build_profile_for_action o action = map_err profile_invalid (validate (load_options o action))

-- The overrides that the state manager is given, which hold nothing but the resolved path.
unfoldable pub at_path : Str → Overrides
at_path path = record { state_directory = []; state_file_name = []; state_file_path = path }

-- The path; the overrides are those `at_path`.
unfoldable pub resolve_state_overrides : Env → SharedOptions → Result Error Str
resolve_state_overrides env o = map_err state_path_invalid (
    State.resolve env (record {
      state_directory = [];
      state_file_name = o.state_file_name;
      state_file_path = o.state_file_path;
    }))

-- What stands behind the last colon of a reference, if it is not empty.
unfoldable pub behind_colon : Str → Str
behind_colon reference = elim (cut_last b':' reference) [ none ↦ [] | some (_, behind) ↦ behind ]

unfoldable pub derive_version : SharedOptions → ResolveResult → Str
unfolding behind_colon
derive_version o res =
    if not (is_empty o.app_version)
    then o.app_version
    else if str_eq res.source.type_of (codes "oci")
    then behind_colon res.source.reference
    else []

-- The manager sets the timestamp.
unfoldable pub build_state_record : Profile → ResolveResult → AppAction → SharedOptions → Record
build_state_record profile outcome action o = record {
  release = profile.helm_release;
  namespace = profile.helm_namespace;
  chart = outcome.source;
  version = derive_version o outcome;
  last_action = action_text action;
  timestamp = [];
  cluster_endpoint = profile.cluster_endpoint;
}

unfoldable pub workflow_step_name : AppAction → Str
workflow_step_name action_install = codes "app-install"
workflow_step_name action_upgrade = codes "app-upgrade"
