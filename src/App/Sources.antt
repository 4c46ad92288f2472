-- ===== src/App/Sources.antt =====
-- Where the chart comes from, and the arguments and metadata that are logged: action.go.
use chainctl.Prelude.{Bool, not, ◌&&◌, Option, none, some, List, [], ◌∷◌, ◌++◌, if◌then◌else◌}
use chainctl.Result.{Result, ok, err, map_err, ◌>>=◌, ◌>>◌}
use chainctl.Text.{Str, codes, is_blank, trim_space}
use chainctl.Dict.{Dict, insert}
use chainctl.FilePath.{dir}
use chainctl.Profile.{Profile, mode_text}
use chainctl.Bundle.{Bundle}
use chainctl.Helm.{ResolveOptions, ResolveResult, note, option_args}
use chainctl.Helm
use chainctl.App.{
  SharedOptions, Error, conflicting_sources, missing_source, resolver_puller_missing,
  chart_unresolved, bundle_unloaded,
}

-- The interface `ChartResolver`, and the loader of bundles.
abbrev pub ChartResolver : Type 0
ChartResolver = ResolveOptions → Result Helm.Error ResolveResult

abbrev pub BundleLoader : Type 0
BundleLoader = Str → Str → Result Str Bundle

pub record ResolutionResult : Type 0 where
  pub outcome : ResolveResult
  pub bundle : Option Bundle

unfoldable pub validate_resolve_source : Bool → Bool → Result Error (Unit {0})
validate_resolve_source has_chart has_bundle =
    if has_chart && has_bundle
    then err conflicting_sources
    else if not has_chart && not has_bundle
    then err missing_source
    else ok tt

unfoldable pub resolve_from_chart :
    Option ChartResolver → SharedOptions → Result Error ResolutionResult
resolve_from_chart none o = err resolver_puller_missing
resolve_from_chart (some resolver) o = do
  res ← map_err chart_unresolved (
      resolver
        (record { oci_reference = o.chart_reference; bundle_path = []; bundle_cache_dir = [] }))
  ok (record { outcome = res; bundle = none })

-- What the resolver gives for the bundle: nothing if it is missing, fails or has no bundle.
unfoldable pub resolved_bundle :
    Option ChartResolver → SharedOptions → Option (ResolveResult × Bundle)
resolved_bundle none o = none
resolved_bundle (some resolver) o =
    elim (resolver (record {
      oci_reference = [];
      bundle_path = o.bundle_path;
      bundle_cache_dir = dir o.bundle_path;
    })) [
      | err _ ↦ none
      | ok res ↦ elim res.bundle [ none ↦ none | some loaded ↦ some (res, loaded) ]
    ]

unfoldable pub loaded_outcome : SharedOptions → ResolveResult
loaded_outcome o = record {
  source = record { type_of = codes "bundle"; reference = o.bundle_path; digest = [] };
  chart_path = [];
  bundle = none;
}

unfoldable pub resolve_from_bundle :
    Option ChartResolver → BundleLoader → SharedOptions → Result Error ResolutionResult
resolve_from_bundle resolver loader o = elim (resolved_bundle resolver o) [
  | some (res, loaded) ↦ ok (record { outcome = res; bundle = some loaded })
  | none ↦ do
    loaded ← map_err bundle_unloaded (loader o.bundle_path (dir o.bundle_path))
    ok (record { outcome = loaded_outcome o; bundle = some loaded })
]

unfoldable pub resolve_chart_source :
    Option ChartResolver → BundleLoader → SharedOptions → Result Error ResolutionResult
unfolding validate_resolve_source
resolve_chart_source resolver loader o = do
  validate_resolve_source (not (is_blank o.chart_reference)) (not (is_blank o.bundle_path))
  if not (is_blank o.chart_reference)
      then resolve_from_chart resolver o
      else resolve_from_bundle resolver loader o

unfoldable pub build_resolve_args : SharedOptions → List Str
build_resolve_args o =
    if not (is_blank o.chart_reference)
    then codes "helm" ∷ codes "pull" ∷ o.chart_reference ∷ []
    else if not (is_blank o.bundle_path)
    then codes "bundle" ∷ codes "load" ∷ o.bundle_path ∷ []
    else codes "helm" ∷ codes "pull" ∷ []

-- The three entries for a source, each if it is not empty.
unfoldable pub note_source : ResolveResult → Dict Str → Dict Str
note_source res metadata = note (codes "digest") res.source.digest (
    note (codes "reference") res.source.reference
      (note (codes "source") res.source.type_of metadata))

abbrev note_blank : Str → Str → Dict Str → Dict Str
note_blank key value metadata = if is_blank value then metadata else insert key value metadata

unfoldable pub build_resolve_metadata : Option ResolveResult → SharedOptions → Dict Str
build_resolve_metadata (some res) o = note_source res []
build_resolve_metadata none o =
    note_blank (codes "bundlePath") o.bundle_path
      (note_blank (codes "reference") o.chart_reference [])

unfoldable pub build_helm_install_metadata : Profile → ResolveResult → Dict Str
build_helm_install_metadata p res =
    note_source res ((codes "namespace", p.helm_namespace) ∷ (codes "release", p.helm_release) ∷ [])

abbrev pub trimmed_args : Str → Str → List Str
trimmed_args flag value = if is_blank value then [] else flag ∷ trim_space value ∷ []

unfoldable pub build_helm_install_args : Profile → SharedOptions → List Str
build_helm_install_args p o =
    codes "helm"
    ∷ codes "upgrade"
    ∷ p.helm_release
    ∷ (trimmed_args (codes "--namespace") p.helm_namespace
        ++ (option_args (codes "--values") p.encrypted_file
            ++ (option_args (codes "--values-passphrase") p.passphrase
                ++ ((if is_blank o.chart_reference then [] else o.chart_reference ∷ [])
                    ++ (if is_blank o.bundle_path
                        then []
                        else codes "--bundle-path" ∷ o.bundle_path ∷ [])))))

unfoldable pub build_workflow_metadata : Profile → Dict Str
build_workflow_metadata p = note (codes "cluster") p.cluster_endpoint (
    (codes "mode", mode_text p.mode)
    ∷ (codes "namespace", p.helm_namespace)
    ∷ (codes "release", p.helm_release)
    ∷ [])

unfoldable pub update_workflow_metadata_from_outcome : ResolveResult → Dict Str → Dict Str
update_workflow_metadata_from_outcome res metadata =
    note (codes "digest") res.source.digest (note (codes "source") res.source.type_of metadata)
