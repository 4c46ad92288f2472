-- ===== src/Tests/Configuration.antt =====
-- The configuration, the profile and the chart's source at concrete inputs.
use chainctl.Prelude.{◌≡◌, refl, subst, inl, inr, false, some, [], ◌∷◌, Bool-cases}
use chainctl.Result.{ok}
use chainctl.Text.{Str, str_eq, codes, has_prefix, to_lower, is_blank, trim_space}
use chainctl.Dict.{Distinct, insert, lookup}
use chainctl.Config.{
  FlagSet, FlagValue, string_value, unset, default_source, command_source, runtime_source,
  ConfigurationProfile, CommandSection, ResolvedInvocation,
}
use chainctl.Config.Resolver.{
  validate_command_section, new_resolved_invocation, with_source, apply_flag, apply,
  apply_profile_sections, sanitize_runtime_overrides, resolve_section, resolve_invocation,
}
use chainctl.Config.Precedence.{IsMaps, or_else, stamp, from_profiles}
use chainctl.Config.Invocation.{
  resolve_precedence, resolve_invocation_error, expected_error, error_of,
}
use chainctl.Profile.{LoadOptions, Profile, bootstrap, validate}
use chainctl.Profile.Validation.{IsValid, validate-IsValid}
use chainctl.Loader.{
  Catalog, RawProfile, Raw, raw_scalar, raw_string, raw_bool, flag_string, flag_bool, load,
}
use chainctl.Loader.Admission.{IsAdmissible, load-IsAdmissible}

abbrev from_text : Str → FlagValue
from_text s = record { value = string_value s; source = unset }

abbrev namespace_flag : Str
namespace_flag = 110 ∷ 115 ∷ []

abbrev install : Str
install = 105 ∷ []

abbrev staging : Str
staging = 115 ∷ []

abbrev install_section : CommandSection
install_section = record { profiles = staging ∷ []; flags = []; disabled = false }

abbrev two_layers : ConfigurationProfile
two_layers = record {
  metadata = record { name = []; description = [] };
  defaults = (namespace_flag, from_text (1 ∷ [])) ∷ [];
  profiles = (staging, (namespace_flag, from_text (2 ∷ [])) ∷ []) ∷ [];
  commands = (install, install_section) ∷ [];
  source_path = [];
}

abbrev from_runtime : FlagSet
from_runtime = (namespace_flag, from_text (3 ∷ [])) ∷ []

abbrev install_invocation : ResolvedInvocation
install_invocation = record {
  command_path = install;
  profiles = staging ∷ [];
  flags = (namespace_flag, record { value = string_value (3 ∷ []); source = runtime_source }) ∷ [];
  overrides =
      (codes "profile s overrides ns (was default)")
      ∷ codes "runtime overrides ns (was profile)"
      ∷ [];
  warnings = [];
  source_path = [];
}

install_found : lookup install two_layers.commands ≡ some install_section
unfolding lookup str_eq
install_found = refl

install_resolves : resolve_invocation (some two_layers) install from_runtime ≡ ok install_invocation
unfolding resolve_invocation validate_command_section lookup str_eq resolve_section
    apply_profile_sections apply sanitize_runtime_overrides apply_flag new_resolved_invocation
    insert with_source
install_resolves = refl

layers-IsMaps : IsMaps two_layers install_section from_runtime
unfolding lookup str_eq
layers-IsMaps = record {
  of_defaults = (refl, tt);
  of_profiles = λ p set found. elim (Bool-cases (str_eq staging p)) [
    | inl same ↦
        subst Distinct {x = (namespace_flag, from_text (2 ∷ [])) ∷ []} (cc (rw same at found))
          (refl, tt)
    | inr apart ↦ absurd (cc (rw apart at found))
  ];
  of_command = tt;
  of_runtime = (refl, tt);
}

resolve_precedence_example :
    lookup namespace_flag install_invocation.flags
    ≡ or_else (stamp runtime_source (lookup namespace_flag from_runtime)) (
        or_else (stamp command_source (lookup namespace_flag install_section.flags)) (
          or_else
            (from_profiles install_section.profiles two_layers.profiles namespace_flag)
            (stamp default_source (lookup namespace_flag two_layers.defaults))))
resolve_precedence_example =
    resolve_precedence two_layers install_section install from_runtime install_found layers-IsMaps
      install_resolves namespace_flag

resolve_invocation_error_example :
    error_of (resolve_invocation (some two_layers) staging from_runtime)
    ≡ expected_error two_layers (lookup staging two_layers.commands)
resolve_invocation_error_example = resolve_invocation_error two_layers staging from_runtime

abbrev bootstrap_options : LoadOptions
bootstrap_options = record {
  mode = [];
  cluster_endpoint = [];
  airgapped_bundle_path = [];
  encrypted_values_path = 47 ∷ 118 ∷ [];
  values_passphrase = 112 ∷ [];
  k3s_version = [];
  helm_release_name = 114 ∷ [];
  helm_namespace = 110 ∷ [];
  offline = false;
}

abbrev bootstrap_profile : Profile
bootstrap_profile = record {
  mode = bootstrap;
  cluster_endpoint = [];
  airgapped = false;
  bundle_path = [];
  encrypted_file = 47 ∷ 118 ∷ [];
  passphrase = 112 ∷ [];
  k3s_version = [];
  helm_release = 114 ∷ [];
  helm_namespace = 110 ∷ [];
}

bootstrap_validates : validate bootstrap_options ≡ ok bootstrap_profile
unfolding validate to_lower is_blank chainctl.FilePath.clean chainctl.FilePath.is_abs
    chainctl.Text.join chainctl.Text.split chainctl.FilePath.push_segment str_eq
bootstrap_validates = refl

validate-IsValid_example : IsValid bootstrap_options bootstrap_profile
validate-IsValid_example = validate-IsValid bootstrap_options bootstrap_validates

abbrev one_flag : Catalog
one_flag = record {
  commands = (install, (namespace_flag, flag_string) ∷ []) ∷ [];
  index = (namespace_flag, flag_string) ∷ [];
  order = install ∷ [];
}

abbrev one_default : RawProfile
one_default = record {
  name = [];
  description = [];
  defaults = (namespace_flag, raw_scalar (raw_string (1 ∷ []))) ∷ [];
  profiles = [];
  commands = [];
}

abbrev loaded_default : ConfigurationProfile
loaded_default = record {
  metadata = record { name = []; description = [] };
  defaults =
      (namespace_flag, record { value = string_value (1 ∷ []); source = default_source }) ∷ [];
  profiles = [];
  commands = [];
  source_path = [];
}

one_default_loads : load one_flag [] one_default ≡ ok loaded_default
unfolding load chainctl.Loader.build_flags chainctl.Loader.is_sensitive chainctl.Text.contains
    to_lower codes chainctl.Loader.expected_type str_eq chainctl.Loader.coerce_value
    chainctl.Loader.populate_profiles chainctl.Loader.populate_commands
one_default_loads = refl

load-IsAdmissible_example : IsAdmissible one_flag loaded_default
load-IsAdmissible_example =
    load-IsAdmissible one_flag [] one_default loaded_default one_default_loads
