-- ===== src/Config/Resolver.antt =====
-- pkg/config/resolver.go: `ResolveInvocation` and its steps.
use chainctl.Prelude.{Option, none, some, List, [], ◌∷◌, ◌++◌, if◌then◌else◌}
use chainctl.Result.{Result, ok, err, ◌>>=◌}
use chainctl.Text.{Str, codes}
use chainctl.Dict.{Dict, lookup, insert}
use chainctl.Config.{
  ValueSource, unset, default_source, profile_source, command_source, runtime_source, source_text,
  FlagValue, FlagSet, CommandSection, ConfigurationProfile, ResolvedInvocation,
}

pub data Error : Type 0 where
  command_not_declared command_disabled : Error
  unknown_profile : Str → Error

section_of : Option CommandSection → Result Error CommandSection
section_of none = err command_not_declared
section_of (some section) = if section.disabled then err command_disabled else ok section

unfoldable pub validate_command_section :
    Option ConfigurationProfile → Str → Result Error CommandSection
unfolding section_of
validate_command_section none command_path = err command_not_declared
validate_command_section (some profile) command_path =
    section_of (lookup command_path profile.commands)

unfoldable pub new_resolved_invocation :
    Str → ConfigurationProfile → CommandSection → ResolvedInvocation
new_resolved_invocation command_path profile section = record {
  command_path = command_path;
  profiles = section.profiles;
  flags = [];
  overrides = [];
  warnings = [];
  source_path = profile.source_path;
}

-- `if current.Source == "" { current.Source = fallback }`
unfoldable pub with_source : ValueSource → FlagValue → FlagValue
with_source fallback v = elim v.source [ unset ↦ record v { source = fallback } | _ ↦ v ]

override_text : Str → Str → ValueSource → Str
unfolding codes source_text
override_text source name was =
    source ++ codes " overrides " ++ name ++ codes " (was " ++ source_text was ++ codes ")"

-- The message for a flag that is set already.
overridden : Str → Str → Option FlagValue → List Str
unfolding override_text
overridden source name none = []
overridden source name (some previous) = override_text source name previous.source ∷ []

-- One round of the loop of `Apply`.
unfoldable pub apply_flag :
    Str → ValueSource → Str → FlagValue → ResolvedInvocation → ResolvedInvocation
unfolding overridden
apply_flag source fallback name value r = record r {
  overrides = r.overrides ++ overridden source name (lookup name r.flags);
  flags = insert name (with_source fallback value) r.flags;
}

unfoldable pub apply : Str → FlagSet → ValueSource → ResolvedInvocation → ResolvedInvocation
apply source [] fallback r = r
apply source ((name, value) ∷ set) fallback r =
    apply source set fallback (apply_flag source fallback name value r)

-- The loop of `applyProfileSections`; the error leaves no invocation.
unfoldable pub apply_profiles :
    List Str → Dict FlagSet → ResolvedInvocation → Result Error ResolvedInvocation
apply_profiles [] defined r = ok r
apply_profiles (name ∷ names) defined r = elim (lookup name defined) [
  | none ↦ err (unknown_profile name)
  | some set ↦ apply_profiles names defined (apply (codes "profile " ++ name) set profile_source r)
]

unfoldable pub apply_profile_sections :
    ConfigurationProfile → CommandSection → ResolvedInvocation → Result Error ResolvedInvocation
unfolding apply_profiles
apply_profile_sections profile section r = apply_profiles section.profiles profile.profiles r

unfoldable pub sanitize_runtime_overrides : FlagSet → FlagSet
sanitize_runtime_overrides [] = []
sanitize_runtime_overrides ((name, value) ∷ set) =
    (name, with_source runtime_source value) ∷ sanitize_runtime_overrides set

-- The merge, once the section is found.
unfoldable pub resolve_section :
    ConfigurationProfile → CommandSection → Str → FlagSet → Result Error ResolvedInvocation
resolve_section profile section command_path runtime = do
  let start = new_resolved_invocation command_path profile section
  let base = apply (codes "defaults") profile.defaults default_source start
  layered ← apply_profile_sections profile section base
  let commanded = apply (codes "command " ++ command_path) section.flags command_source layered
  ok (apply (codes "runtime") (sanitize_runtime_overrides runtime) runtime_source commanded)

-- A nil profile fails the validation before it is used.
unfoldable pub resolve_invocation :
    Option ConfigurationProfile → Str → FlagSet → Result Error ResolvedInvocation
resolve_invocation none command_path runtime = err command_not_declared
resolve_invocation (some profile) command_path runtime = do
  section ← validate_command_section (some profile) command_path
  resolve_section profile section command_path runtime
