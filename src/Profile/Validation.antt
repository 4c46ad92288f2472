-- ===== src/Profile/Validation.antt =====
-- What a validated profile satisfies, and when validation fails.
use chainctl.Prelude.{ℕ, ◌≡◌, refl, ◌↔◌, ◌⊎◌, true, false, [], ◌∷◌, arith, is_empty}
use chainctl.Result.{ok}
use chainctl.Text.{Str, codes, str_eq, is_blank, to_lower}
use chainctl.Text.Laws.{str_eq_iff, str_eq_refl, is_empty-eq-nil}
use chainctl.FilePath.{clean}
use chainctl.Profile.{
  LoadOptions, Profile, mode_text, default_string, parse_mode, validate, profile_string, bootstrap,
  reuse,
}

-- What the installer relies on.
pub record IsValid (o : LoadOptions) (p : Profile) : Type 0 where
  pub endpoint_known : p.mode ≡ reuse → is_blank p.cluster_endpoint ≡ false
  pub no_stray_endpoint : p.mode ≡ bootstrap → p.cluster_endpoint ≡ []
  pub has_values : is_blank o.encrypted_values_path ≡ false
  pub values_cleaned : p.encrypted_file ≡ clean o.encrypted_values_path
  pub airgapped_as_asked : p.airgapped ≡ o.offline
  pub has_bundle : p.airgapped ≡ true → is_blank o.airgapped_bundle_path ≡ false
  pub bundle_cleaned : p.airgapped ≡ true → p.bundle_path ≡ clean o.airgapped_bundle_path
  pub no_stray_bundle : p.airgapped ≡ false → p.bundle_path ≡ []
  pub has_release : is_blank p.helm_release ≡ false
  pub has_namespace : is_blank p.helm_namespace ≡ false

default_string-fallback :
    (val fallback : Str)
    → is_blank fallback ≡ false
    → is_blank (default_string val fallback) ≡ false
unfolding default_string
default_string-fallback val fallback h = ground arith

release_named : (val : Str) → is_blank (default_string val (codes "chainapp")) ≡ false
release_named val = default_string-fallback val (codes "chainapp") (unfold is_blank codes in refl)

namespace_named : (val : Str) → is_blank (default_string val (codes "chain-system")) ≡ false
namespace_named val =
    default_string-fallback val (codes "chain-system") (unfold is_blank codes in refl)

-- A profile that `Validate` returns has an endpoint exactly in reuse mode, a values file, a bundle
-- path exactly if it is air-gapped, and a release and a namespace that are not blank.
pub validate-IsValid : (o : LoadOptions) {p : Profile} → validate o ≡ ok p → IsValid o p
unfolding validate
validate-IsValid o h =
    ground (arith, release_named o.helm_release_name, namespace_named o.helm_namespace)

-- The logged summary of a profile depends on its passphrase only in whether there is one.
pub profile_string_hides_passphrase :
    (p : Profile) (c d : ℕ) (secret other : Str)
    → profile_string (record p { passphrase = c ∷ secret })
      ≡ profile_string (record p { passphrase = d ∷ other })
unfolding profile_string
profile_string_hides_passphrase p c d secret other = refl

reuse_apart : str_eq (mode_text reuse) (mode_text bootstrap) ≡ false
unfolding mode_text str_eq
reuse_apart = refl

bootstrap_apart : str_eq (mode_text bootstrap) (mode_text reuse) ≡ false
unfolding mode_text str_eq
bootstrap_apart = refl

reuse_nonempty : is_empty (mode_text reuse) ≡ false
unfolding mode_text
reuse_nonempty = refl

-- `Validate` accepts any spelling of the two modes in upper and lower case, and takes no mode for
-- bootstrap; every other text is an unknown mode.
parse_mode_iff :
    (text : Str)
    → ((parse_mode text ≡ ok bootstrap)
        ↔ ((to_lower text ≡ []) ⊎ (to_lower text ≡ mode_text bootstrap)))
      × ((parse_mode text ≡ ok reuse) ↔ (to_lower text ≡ mode_text reuse))
unfolding parse_mode
parse_mode_iff text = (
  (
    (λ h.
        ground (
          arith,
          is_empty-eq-nil (to_lower text),
          str_eq_iff (to_lower text) (mode_text bootstrap),
        )),
    λ h. ground (arith, str_eq_iff (to_lower text) (mode_text bootstrap)),
  ),
  (
    (λ h. ground (arith, str_eq_iff (to_lower text) (mode_text reuse))),
    λ h. rw (h, reuse_nonempty, reuse_apart, str_eq_refl) refl,
  ),
)
