-- ===== src/Config/Precedence.antt =====
-- The flag set that `ResolveInvocation` returns: which layer each value comes from, and what the
-- list of overrides counts.

use chainctl.Prelude.{
  ◌≡◌, refl, Option, none, some, List, [], ◌∷◌, ◌++◌, arith, if◌then◌else◌, Option-cases, inl, inr,
}
use chainctl.Result.{ok, >>=-eq-ok}
use chainctl.Text.{Str, str_eq, codes}
use chainctl.Text.Laws.{str_eq_iff}
use chainctl.Dict.{Dict, lookup, Distinct, lookup-insert}
use chainctl.Config.{
  ValueSource, default_source, profile_source, command_source, runtime_source, FlagValue, FlagSet,
  CommandSection, ConfigurationProfile, ResolvedInvocation,
}
use chainctl.Config.Resolver.{
  with_source, apply_flag, apply, apply_profiles, apply_profile_sections,
  sanitize_runtime_overrides, resolve_section, new_resolved_invocation,
}

abbrev pub or_else : Option FlagValue → Option FlagValue → Option FlagValue
or_else none b = b
or_else (some v) b = some v

-- What a layer says of a flag, its source filled in.
abbrev pub stamp : ValueSource → Option FlagValue → Option FlagValue
stamp fallback none = none
stamp fallback (some v) = some (with_source fallback v)

-- What the listed profiles say of a flag: a later profile beats an earlier one.
abbrev pub from_profiles : List Str → Dict FlagSet → Str → Option FlagValue
from_profiles [] defined n = none
from_profiles (p ∷ ps) defined n =
    or_else (from_profiles ps defined n)
      (elim (lookup p defined) [ none ↦ none | some set ↦ stamp profile_source (lookup n set) ])

lookup-apply_flag :
    (source : Str) (fallback : ValueSource) (name n : Str) (v : FlagValue) (r : ResolvedInvocation)
    → lookup n (apply_flag source fallback name v r).flags
      ≡ (if str_eq name n then some (with_source fallback v) else lookup n r.flags)
unfolding apply_flag
lookup-apply_flag source fallback name n v r = lookup-insert name n (with_source fallback v) r.flags

pub lookup-apply :
    (source : Str) (set : FlagSet) (fallback : ValueSource) (r : ResolvedInvocation) (n : Str)
    → Distinct set
    → lookup n (apply source set fallback r).flags
      ≡ or_else (stamp fallback (lookup n set)) (lookup n r.flags)
unfolding apply lookup
lookup-apply source [] fallback r n d = refl
lookup-apply source ((name, v) ∷ set) fallback r n d = ground (
  arith,
  d.0,
  str_eq_iff name n,
  lookup-apply_flag source fallback name n v r,
  lookup-apply source set fallback (apply_flag source fallback name v r) n d.1,
)

-- The profile's flag sets are Go maps: no key twice.
pub record IsMaps (profile : ConfigurationProfile) (section : CommandSection) (runtime : FlagSet)
    : Type 0 where
  pub of_defaults : Distinct profile.defaults
  pub of_profiles : (p : Str) (set : FlagSet) → lookup p profile.profiles ≡ some set → Distinct set
  pub of_command : Distinct section.flags
  pub of_runtime : Distinct runtime

pub lookup-apply_profiles :
    (names : List Str) (defined : Dict FlagSet) (r r' : ResolvedInvocation) (n : Str)
    → ((p : Str) (set : FlagSet) → lookup p defined ≡ some set → Distinct set)
    → apply_profiles names defined r ≡ ok r'
    → lookup n r'.flags ≡ or_else (from_profiles names defined n) (lookup n r.flags)
unfolding apply_profiles
lookup-apply_profiles [] defined r r' n maps h = ground arith
lookup-apply_profiles (p ∷ ps) defined r r' n maps h = elim (Option-cases (lookup p defined)) [
  | inl missing ↦ absurd (ground arith)
  | inr (set, found) ↦
      let next = apply (codes "profile " ++ p) set profile_source r in
      rw found (
        ground (
          arith,
          lookup-apply_profiles ps defined next r' n maps (rw (found, apply_profiles) at h),
          lookup-apply (codes "profile " ++ p) set profile_source r n (maps p set found),
        ))
]

pub lookup-sanitize :
    (runtime : FlagSet) (n : Str)
    → lookup n (sanitize_runtime_overrides runtime) ≡ stamp runtime_source (lookup n runtime)
unfolding sanitize_runtime_overrides lookup
lookup-sanitize [] n = refl
lookup-sanitize ((name, v) ∷ set) n = ground (arith, lookup-sanitize set n)

pub sanitize-Distinct :
    (runtime : FlagSet) → Distinct runtime → Distinct (sanitize_runtime_overrides runtime)
unfolding sanitize_runtime_overrides
sanitize-Distinct [] d = d
sanitize-Distinct ((name, v) ∷ set) d = (rw (lookup-sanitize, d.0) refl, sanitize-Distinct set d.1)

stamp_twice :
    (o : Option FlagValue) → stamp runtime_source (stamp runtime_source o) ≡ stamp runtime_source o
unfolding with_source
stamp_twice none = refl
stamp_twice (some v) = ground arith

lookup-start :
    (command_path n : Str) (profile : ConfigurationProfile) (section : CommandSection)
    → lookup n (new_resolved_invocation command_path profile section).flags ≡ none
unfolding new_resolved_invocation lookup
lookup-start command_path n profile section = refl

-- An invocation that `ResolveInvocation` returns for a declared section has for every flag the
-- value of the runtime overrides if they set it, else of the command's section, else of the last
-- listed profile that sets it, else of the defaults, each with the source of its layer where it
-- had none, and no other flag.
pub section_precedence :
    (profile : ConfigurationProfile) (section : CommandSection) (command_path : Str)
    (runtime : FlagSet) {r : ResolvedInvocation}
    → IsMaps profile section runtime
    → resolve_section profile section command_path runtime ≡ ok r
    → (n : Str)
    → lookup n r.flags
      ≡ or_else (stamp runtime_source (lookup n runtime)) (
          or_else (stamp command_source (lookup n section.flags)) (
            or_else
              (from_profiles section.profiles profile.profiles n)
              (stamp default_source (lookup n profile.defaults))))
unfolding resolve_section
section_precedence profile section command_path runtime {r} maps h n =
    let start = new_resolved_invocation command_path profile section in
    let base = apply (codes "defaults") profile.defaults default_source start in
    let top = sanitize_runtime_overrides runtime in
    let (layered, e1, e2) = >>=-eq-ok (apply_profile_sections profile section base) _ h in
    let commanded = apply (codes "command " ++ command_path) section.flags command_source layered in
    let from_runtime =
      lookup-apply (codes "runtime") top runtime_source commanded n
        (sanitize-Distinct runtime maps.of_runtime) in
    let from_command =
      lookup-apply (codes "command " ++ command_path) section.flags command_source layered n
        maps.of_command in
    let from_defaults =
      lookup-apply (codes "defaults") profile.defaults default_source start n maps.of_defaults in
    let profiled =
      lookup-apply_profiles section.profiles profile.profiles base layered n maps.of_profiles
        (unfold apply_profile_sections in e1) in
    ground (
      arith,
      e2,
      from_runtime,
      from_command,
      from_defaults,
      profiled,
      lookup-sanitize runtime n,
      stamp_twice (lookup n runtime),
      lookup-start command_path n profile section,
    )
