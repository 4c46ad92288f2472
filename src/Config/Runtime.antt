-- ===== src/Config/Runtime.antt =====
-- pkg/config/resolver.go: the runtime overrides in an invocation, whose flags are a map.
use chainctl.Prelude.{◌≡◌, refl, subst, inl, inr, some, List, [], ◌∷◌, ◌++◌, arith, Option-cases}
use chainctl.Result.{ok, >>=-eq-ok}
use chainctl.Text.{Str, codes}
use chainctl.Dict.{Dict, lookup, Distinct, insert-Distinct}
use chainctl.Config.{
  ValueSource, default_source, profile_source, command_source, runtime_source, FlagValue, FlagSet,
  CommandSection, ConfigurationProfile, ResolvedInvocation,
}
use chainctl.Config.Resolver.{
  with_source, apply_flag, apply, apply_profiles, apply_profile_sections,
  sanitize_runtime_overrides, resolve_section, new_resolved_invocation, resolve_invocation,
  validate_command_section,
}
use chainctl.Config.Precedence.{lookup-apply, lookup-sanitize, sanitize-Distinct}

apply-Distinct :
    (source : Str) (set : FlagSet) (fallback : ValueSource) (r : ResolvedInvocation)
    → Distinct r.flags
    → Distinct (apply source set fallback r).flags
unfolding apply apply_flag
apply-Distinct source [] fallback r d = d
apply-Distinct source ((name, v) ∷ set) fallback r d =
    apply-Distinct source set fallback (apply_flag source fallback name v r)
      (insert-Distinct name (with_source fallback v) r.flags d)

apply_profiles-Distinct :
    (names : List Str) (defined : Dict FlagSet) (r r' : ResolvedInvocation)
    → Distinct r.flags
    → apply_profiles names defined r ≡ ok r'
    → Distinct r'.flags
unfolding apply_profiles
apply_profiles-Distinct [] defined r r' d h =
    subst (λ (x : ResolvedInvocation). Distinct x.flags) {x = r} {y = r'} (cc h) d
apply_profiles-Distinct (p ∷ ps) defined r r' d h = elim (Option-cases (lookup p defined)) [
  | inl missing ↦ absurd (ground arith)
  | inr (set, found) ↦
      apply_profiles-Distinct ps defined (apply (codes "profile " ++ p) set profile_source r) r'
        (apply-Distinct (codes "profile " ++ p) set profile_source r d)
        (rw (found, apply_profiles) at h)
]

-- The flags of an invocation are a map, where a runtime override has its value.
pub record IsOverridden (runtime : FlagSet) (r : ResolvedInvocation) : Type 0 where
  pub flags_distinct : Distinct r.flags
  pub overrides_win :
      (n : Str) (v : FlagValue)
      → lookup n runtime ≡ some v
      → lookup n r.flags ≡ some (with_source runtime_source (with_source runtime_source v))

section-IsOverridden :
    (profile : ConfigurationProfile) (section : CommandSection) (command_path : Str)
    (runtime : FlagSet) (r : ResolvedInvocation)
    → Distinct runtime
    → resolve_section profile section command_path runtime ≡ ok r
    → IsOverridden runtime r
unfolding resolve_section new_resolved_invocation apply_profile_sections
section-IsOverridden profile section command_path runtime r d h =
    let start = new_resolved_invocation command_path profile section in
    let base = apply (codes "defaults") profile.defaults default_source start in
    let top = sanitize_runtime_overrides runtime in
    let (layered, e1, e2) = >>=-eq-ok (apply_profile_sections profile section base) _ h in
    let commanded = apply (codes "command " ++ command_path) section.flags command_source layered in
    let based = apply-Distinct (codes "defaults") profile.defaults default_source start tt in
    let profiled =
      apply_profiles-Distinct section.profiles profile.profiles base layered based e1 in
    let whole = apply-Distinct (codes "runtime") top runtime_source commanded (
      apply-Distinct (codes "command " ++ command_path) section.flags command_source layered
        profiled) in
    subst (IsOverridden runtime) {x = apply (codes "runtime") top runtime_source commanded} {y = r}
      (cc e2)
      (record {
        flags_distinct = whole;
        overrides_win = λ n v said.
            rw
              (
                lookup-apply (codes "runtime") top runtime_source commanded n
                    (sanitize-Distinct runtime d),
                lookup-sanitize runtime n,
                said,
              )
              refl;
      })

pub resolve_invocation-IsOverridden :
    (profile : ConfigurationProfile) (command_path : Str) (runtime : FlagSet)
    (r : ResolvedInvocation)
    → Distinct runtime
    → resolve_invocation (some profile) command_path runtime ≡ ok r
    → IsOverridden runtime r
unfolding resolve_invocation
resolve_invocation-IsOverridden profile command_path runtime r d h =
    let (section, _, resolved) =
      >>=-eq-ok (validate_command_section (some profile) command_path) _ h in
    section-IsOverridden profile section command_path runtime r d resolved
