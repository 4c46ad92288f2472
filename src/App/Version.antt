-- ===== src/App/Version.antt =====
-- The version that the state records and the one that the puller asks for.
use chainctl.Prelude.{
  ℕ, ◌≡◌, refl, ◌≢◌, ◌↔◌, inl, inr, Bool, true, false, [], ◌∷◌, ◌==◌, if◌then◌else◌, Bool-cases,
  Option-cases, any,
}
use chainctl.Text.{Str, codes, cut_last}
use chainctl.Text.Laws.{str_eq_refl}
use chainctl.Helm.{ResolveResult}
use chainctl.App.{SharedOptions, behind_colon, derive_version}
use chainctl.App.Puller.{split_oci_reference}

abbrev pub is_slash : ℕ → Bool
is_slash c = c == b'/'

any-nil : (s : Str) → any is_slash s ≡ true → s ≢ []
unfolding any
any-nil [] h = cc
any-nil (c ∷ s) h = λ e. cc e

derive_version-eq-behind_colon :
    (o : SharedOptions) (res : ResolveResult)
    → o.app_version ≡ []
    → res.source.type_of ≡ codes "oci"
    → derive_version o res ≡ behind_colon res.source.reference
unfolding derive_version
derive_version-eq-behind_colon o res unset from_registry =
    rw (unset, from_registry, str_eq_refl (codes "oci")) refl

behind_split_iff :
    (reference behind : Str) (before : Str)
    → let parts : Str × Str = if any is_slash behind then (reference, []) else (before, behind) in
      (behind ≡ parts.1) ↔ (any is_slash behind ≡ false)
behind_split_iff reference behind before = elim (Bool-cases (any is_slash behind)) [
  | inl slashed ↦ rw slashed (λ h. absurd (any-nil behind slashed h), λ h. cc h)
  | inr plain ↦ rw plain (λ h. refl, λ h. refl)
]

behind_colon-split_iff :
    (reference : Str)
    → (behind_colon reference ≡ (split_oci_reference reference).1)
      ↔ (any is_slash (behind_colon reference) ≡ false)
unfolding behind_colon split_oci_reference any
behind_colon-split_iff reference = elim (Option-cases (cut_last b':' reference)) [
  | inl without ↦ rw (behind_colon, split_oci_reference, without) (λ h. refl, λ h. refl)
  | inr ((before, behind), found) ↦
      rw (behind_colon, split_oci_reference, found) (behind_split_iff reference behind before)
]

-- For a chart from a registry whose version is not given, the state records the version that the
-- puller asks helm for exactly if no slash stands behind the last colon of the reference.
pub derive_version-eq-split_oci_reference_iff :
    (o : SharedOptions) (res : ResolveResult)
    → o.app_version ≡ []
    → res.source.type_of ≡ codes "oci"
    → (derive_version o res ≡ (split_oci_reference res.source.reference).1)
      ↔ (any is_slash (behind_colon res.source.reference) ≡ false)
derive_version-eq-split_oci_reference_iff o res unset from_registry =
    rw (derive_version-eq-behind_colon o res unset from_registry)
      (behind_colon-split_iff res.source.reference)
