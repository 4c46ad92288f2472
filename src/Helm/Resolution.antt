-- ===== src/Helm/Resolution.antt =====
-- pkg/helm/resolver.go: the charts that a request resolves to, given as rules.
use chainctl.Prelude.{
  ◌≡◌, refl, subst, ◌↔◌, inl, inr, true, false, none, some, [], Bool-cases, Option-cases,
}
use chainctl.Result.{Result, Result-cases, ok}
use chainctl.Text.{Str, codes, has_prefix, trim_space, is_blank, to_lower}
use chainctl.Bundle.{Bundle}
use chainctl.Helm.{
  PullResult, ResolveOptions, ResolveResult, Resolver, type_oci, type_bundle, resolve_oci,
  cache_root_of, resolve_bundle, resolve,
}

-- What a request may resolve to: a chart that the puller fetched for an `oci://` reference, or a
-- bundle that the loader read, and only one of the two was asked for.
pub data Resolves (r : Resolver) (opts : ResolveOptions) : ResolveResult → Type 0 where
  by_oci :
      (pull : Str → Result Str PullResult) (pulled : PullResult)
      → r.puller ≡ some pull
      → is_blank opts.oci_reference ≡ false
      → is_blank opts.bundle_path ≡ true
      → has_prefix (to_lower opts.oci_reference) (codes "oci://") ≡ true
      → pull opts.oci_reference ≡ ok pulled
      → Resolves r opts (record {
        source = record {
          type_of = type_oci;
          reference = opts.oci_reference;
          digest = pulled.digest;
        };
        chart_path = pulled.chart_path;
        bundle = none;
      })
  by_bundle :
      (load : Str → Str → Result Str Bundle) (loaded : Bundle)
      → r.bundle_loader ≡ some load
      → is_blank opts.oci_reference ≡ true
      → is_blank opts.bundle_path ≡ false
      → load (trim_space opts.bundle_path) (cache_root_of opts) ≡ ok loaded
      → Resolves r opts (record {
        source = record { type_of = type_bundle; reference = opts.bundle_path; digest = [] };
        chart_path = [];
        bundle = some loaded;
      })

resolve_complete :
    (r : Resolver) (opts : ResolveOptions) (res : ResolveResult)
    → Resolves r opts res
    → resolve r opts ≡ ok res
unfolding resolve resolve_oci resolve_bundle
resolve_complete r opts _ (by_oci pull pulled given chart no_bundle prefix e) =
    rw (given, chart, no_bundle, prefix, e) refl
resolve_complete r opts _ (by_bundle load loaded given no_chart bundle e) =
    rw (given, no_chart, bundle, e) refl

ok_inj : {E A : Type 0} {r : Result E A} {a b : A} → r ≡ ok a → r ≡ ok b → a ≡ b
ok_inj h k = cc

-- A request that resolves by a rule resolves to the rule's chart alone.
resolved_by :
    (r : Resolver) (opts : ResolveOptions) (made res : ResolveResult)
    → resolve r opts ≡ ok res
    → Resolves r opts made
    → Resolves r opts res
resolved_by r opts made res h rule =
    subst (Resolves r opts) (ok_inj (resolve_complete r opts made rule) h) rule

bundle_sound :
    (r : Resolver) (opts : ResolveOptions) (res : ResolveResult)
    → resolve r opts ≡ ok res
    → is_blank opts.oci_reference ≡ true
    → is_blank opts.bundle_path ≡ false
    → Resolves r opts res
unfolding resolve resolve_bundle
bundle_sound r opts res h no_chart bundle = elim (Option-cases r.bundle_loader) [
  | inl missing ↦ absurd (cc (rw (no_chart, bundle, missing) at h))
  | inr (load, given) ↦
      elim (Result-cases (load (trim_space opts.bundle_path) (cache_root_of opts))) [
        | inl (loaded, e) ↦
            resolved_by r opts _ res h (by_bundle load loaded given no_chart bundle e)
        | inr (text, e) ↦ absurd (cc (rw (no_chart, bundle, given, e) at h))
      ]
]

oci_sound :
    (r : Resolver) (opts : ResolveOptions) (res : ResolveResult)
    → resolve r opts ≡ ok res
    → is_blank opts.oci_reference ≡ false
    → is_blank opts.bundle_path ≡ true
    → has_prefix (to_lower opts.oci_reference) (codes "oci://") ≡ true
    → Resolves r opts res
unfolding resolve resolve_oci
oci_sound r opts res h chart no_bundle prefix = elim (Option-cases r.puller) [
  | inl missing ↦ absurd (cc (rw (chart, no_bundle, prefix, missing) at h))
  | inr (pull, given) ↦ elim (Result-cases (pull opts.oci_reference)) [
    | inl (pulled, e) ↦
        resolved_by r opts _ res h (by_oci pull pulled given chart no_bundle prefix e)
    | inr (text, e) ↦ absurd (cc (rw (chart, no_bundle, prefix, given, e) at h))
  ]
]

resolve_sound :
    (r : Resolver) (opts : ResolveOptions) (res : ResolveResult)
    → resolve r opts ≡ ok res
    → Resolves r opts res
unfolding resolve resolve_oci
resolve_sound r opts res h = elim (Bool-cases (is_blank opts.oci_reference)) [
  | inl no_chart ↦ elim (Bool-cases (is_blank opts.bundle_path)) [
    | inl no_bundle ↦ absurd (cc (rw (no_chart, no_bundle) at h))
    | inr bundle ↦ bundle_sound r opts res h no_chart bundle
  ]
  | inr chart ↦ elim (Bool-cases (is_blank opts.bundle_path)) [
    | inl no_bundle ↦
        elim (Bool-cases (has_prefix (to_lower opts.oci_reference) (codes "oci://"))) [
          | inl prefix ↦ oci_sound r opts res h chart no_bundle prefix
          | inr other ↦ absurd (cc (rw (chart, no_bundle, other) at h))
        ]
    | inr bundle ↦ absurd (cc (rw (chart, bundle) at h))
  ]
]

-- The resolver returns a chart exactly where the rules give it: from an `oci://` reference or from
-- a bundle, whichever of the two alone was asked for and its dependency could fetch.
pub resolve_iff :
    (r : Resolver) (opts : ResolveOptions) (res : ResolveResult)
    → (resolve r opts ≡ ok res) ↔ Resolves r opts res
resolve_iff r opts res = (resolve_sound r opts res, resolve_complete r opts res)
