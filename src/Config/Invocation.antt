-- ===== src/Config/Invocation.antt =====
-- `ResolveInvocation` as a whole: when it fails and with what, what it returns, and what the list
-- of overrides counts.
use chainctl.Prelude.{
  ℕ, suc, ◌+◌, ◌≡◌, refl, Option, none, some, List, [], ◌∷◌, ◌++◌, arith, length, length-append,
  if◌then◌else◌, Option-cases, inl, inr,
}
use chainctl.Result.{Result, ok, err, >>=-eq-ok}
use chainctl.Text.{Str, codes}
use chainctl.Dict.{Dict, lookup, insert}
use chainctl.Config.{
  default_source, profile_source, command_source, runtime_source, FlagValue, FlagSet,
  CommandSection, ConfigurationProfile, ResolvedInvocation, ValueSource,
}
use chainctl.Config.Resolver.{
  Error, apply, apply_flag, with_source, apply_profiles, apply_profile_sections, resolve_section,
  resolve_invocation, new_resolved_invocation, validate_command_section, unknown_profile,
  command_disabled, sanitize_runtime_overrides, command_not_declared,
}
use chainctl.Config.Precedence.{IsMaps, or_else, stamp, from_profiles, section_precedence}

abbrev pub error_of : Result Error ResolvedInvocation → Option Error
error_of (ok _) = none
error_of (err e) = some e

-- The first of the names that is not defined.
abbrev pub first_undefined : List Str → Dict FlagSet → Option Str
first_undefined [] defined = none
first_undefined (p ∷ ps) defined = elim (lookup p defined) [
  | none ↦ some p
  | some _ ↦ first_undefined ps defined
]

abbrev pub undefined_error : Option Str → Option Error
undefined_error none = none
undefined_error (some p) = some (unknown_profile p)

abbrev pub expected_error : ConfigurationProfile → Option CommandSection → Option Error
expected_error profile none = some command_not_declared
expected_error profile (some section) =
    if section.disabled
    then some command_disabled
    else undefined_error (first_undefined section.profiles profile.profiles)

error-apply_profiles :
    (names : List Str) (defined : Dict FlagSet) (r : ResolvedInvocation)
    → error_of (apply_profiles names defined r) ≡ undefined_error (first_undefined names defined)
unfolding apply_profiles
error-apply_profiles [] defined r = refl
error-apply_profiles (p ∷ ps) defined r = elim (Option-cases (lookup p defined)) [
  | inl missing ↦ rw (missing, apply_profiles) (ground (arith, missing))
  | inr (set, found) ↦ ground (
    arith,
    found,
    error-apply_profiles ps defined (apply (codes "profile " ++ p) set profile_source r),
  )
]

error-resolve_section :
    (profile : ConfigurationProfile) (section : CommandSection) (command_path : Str)
    (runtime : FlagSet)
    → error_of (resolve_section profile section command_path runtime)
      ≡ undefined_error (first_undefined section.profiles profile.profiles)
unfolding resolve_section apply_profile_sections
error-resolve_section profile section command_path runtime =
    let start = new_resolved_invocation command_path profile section in
    let base = apply (codes "defaults") profile.defaults default_source start in
    ground (arith, error-apply_profiles section.profiles profile.profiles base)

-- `ResolveInvocation` fails exactly when the command is not declared, is disabled, or lists a
-- profile that is not defined; the error is that of the first of these, and names the first
-- profile that is missing.
pub resolve_invocation_error :
    (profile : ConfigurationProfile) (command_path : Str) (runtime : FlagSet)
    → error_of (resolve_invocation (some profile) command_path runtime)
      ≡ expected_error profile (lookup command_path profile.commands)
unfolding resolve_invocation validate_command_section
resolve_invocation_error profile command_path runtime =
    elim (Option-cases (lookup command_path profile.commands)) [
      | inl missing ↦ rw missing
      | inr (section, found) ↦
          rw found (ground (arith, error-resolve_section profile section command_path runtime))
    ]

-- An invocation that `ResolveInvocation` returns has for every flag the value of the runtime
-- overrides if they set it, else of the command's section, else of the last listed profile that
-- sets it, else of the defaults, each with the source of its layer where it had none, and no other
-- flag. The flag sets are maps, so no key is in one of them twice.
pub resolve_precedence :
    (profile : ConfigurationProfile) (section : CommandSection) (command_path : Str)
    (runtime : FlagSet) {r : ResolvedInvocation}
    → lookup command_path profile.commands ≡ some section
    → IsMaps profile section runtime
    → resolve_invocation (some profile) command_path runtime ≡ ok r
    → (n : Str)
    → lookup n r.flags
      ≡ or_else (stamp runtime_source (lookup n runtime)) (
          or_else (stamp command_source (lookup n section.flags)) (
            or_else
              (from_profiles section.profiles profile.profiles n)
              (stamp default_source (lookup n profile.defaults))))
unfolding resolve_invocation validate_command_section
resolve_precedence profile section command_path runtime {r} found maps h n =
    section_precedence profile section command_path runtime {r = r} maps (ground arith) n

-- The number of flags that are set and of overrides recorded.
abbrev pub entries : ResolvedInvocation → ℕ
entries r = length r.flags + length r.overrides

length-insert :
    (k : Str) (v : FlagValue) (m : FlagSet)
    → length (insert k v m) ≡ (elim (lookup k m) [ none ↦ suc (length m) | some _ ↦ length m ])
unfolding insert lookup
length-insert k v [] = refl
length-insert k v ((j, w) ∷ m) = ground (arith, length-insert k v m)

entries-apply_flag :
    (source : Str) (fallback : ValueSource) (name : Str) (v : FlagValue) (r : ResolvedInvocation)
    → entries (apply_flag source fallback name v r) ≡ entries r + 1
unfolding apply_flag
entries-apply_flag source fallback name v r =
    rw length-append (ground (arith, length-insert name (with_source fallback v) r.flags))

entries-apply :
    (source : Str) (set : FlagSet) (fallback : ValueSource) (r : ResolvedInvocation)
    → entries (apply source set fallback r) ≡ entries r + length set
unfolding apply
entries-apply source [] fallback r = omega arith
entries-apply source ((name, v) ∷ set) fallback r = omega (
  arith,
  entries-apply_flag source fallback name v r,
  entries-apply source set fallback (apply_flag source fallback name v r),
)

-- The entries of the listed profiles, a profile as often as it is listed.
abbrev pub profile_entries : List Str → Dict FlagSet → ℕ
profile_entries [] defined = 0
profile_entries (p ∷ ps) defined =
    (elim (lookup p defined) [ none ↦ 0 | some set ↦ length set ]) + profile_entries ps defined

entries-apply_profiles :
    (names : List Str) (defined : Dict FlagSet) (r : ResolvedInvocation) {r' : ResolvedInvocation}
    → apply_profiles names defined r ≡ ok r'
    → entries r' ≡ entries r + profile_entries names defined
unfolding apply_profiles
entries-apply_profiles [] defined r h = ground arith
entries-apply_profiles (p ∷ ps) defined r {r'} h = elim (Option-cases (lookup p defined)) [
  | inl missing ↦ absurd (ground arith)
  | inr (set, found) ↦
      let next = apply (codes "profile " ++ p) set profile_source r in
      rw found (
        omega (
          arith,
          entries-apply_profiles ps defined next {r' = r'} (rw (found, apply_profiles) at h),
          entries-apply (codes "profile " ++ p) set profile_source r,
        ))
]

length-sanitize : (set : FlagSet) → length (sanitize_runtime_overrides set) ≡ length set
unfolding sanitize_runtime_overrides
length-sanitize [] = refl
length-sanitize (_ ∷ set) = omega (arith, length-sanitize set)

section_counts :
    (profile : ConfigurationProfile) (section : CommandSection) (command_path : Str)
    (runtime : FlagSet) {r : ResolvedInvocation}
    → resolve_section profile section command_path runtime ≡ ok r
    → entries r
      ≡ length profile.defaults
        + profile_entries section.profiles profile.profiles
        + length section.flags
        + length runtime
unfolding resolve_section new_resolved_invocation
section_counts profile section command_path runtime {r} h =
    let start = new_resolved_invocation command_path profile section in
    let base = apply (codes "defaults") profile.defaults default_source start in
    let top = sanitize_runtime_overrides runtime in
    let (layered, e1, e2) = >>=-eq-ok (apply_profile_sections profile section base) _ h in
    let commanded = apply (codes "command " ++ command_path) section.flags command_source layered in
    let profiled =
      entries-apply_profiles section.profiles profile.profiles base {r' = layered}
        (unfold apply_profile_sections in e1) in
    ground (
      arith,
      e2,
      profiled,
      entries-apply (codes "defaults") profile.defaults default_source start,
      entries-apply (codes "command " ++ command_path) section.flags command_source layered,
      entries-apply (codes "runtime") top runtime_source commanded,
      length-sanitize runtime,
    )

-- Every entry of every layer that takes part either sets a flag that was not set or is recorded as
-- an override: the flags and the overrides together are as many as the entries of the defaults, of
-- the listed profiles, of the command's section and of the runtime overrides.
resolve_counts_overrides :
    (profile : ConfigurationProfile) (section : CommandSection) (command_path : Str)
    (runtime : FlagSet) {r : ResolvedInvocation}
    → lookup command_path profile.commands ≡ some section
    → resolve_invocation (some profile) command_path runtime ≡ ok r
    → length r.flags + length r.overrides
      ≡ length profile.defaults
        + profile_entries section.profiles profile.profiles
        + length section.flags
        + length runtime
unfolding resolve_invocation validate_command_section
resolve_counts_overrides profile section command_path runtime {r} found h =
    section_counts profile section command_path runtime {r = r} (ground arith)
