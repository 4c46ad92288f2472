-- ===== src/App/Puller.antt =====
-- The puller of charts, deps_defaults.go, over the helm libraries' `LocateChart`.
use chainctl.Prelude.{not, none, some, [], ◌∷◌, ◌==◌, if◌then◌else◌, is_empty, any}
use chainctl.Result.{Result, ◌>>=◌, ok}
use chainctl.Text.{Str, codes, has_prefix, cut_last}
use chainctl.Helm.{PullResult}

-- The reference without its version, and the version. A colon before the last slash is no
-- separator: what stands behind it has a slash, and its position is below the slash's.
unfoldable pub split_oci_reference : Str → Str × Str
split_oci_reference reference = elim (cut_last b':' reference) [
  | none ↦ (reference, [])
  | some (before, behind) ↦
      if any (λ c. c == b'/') behind then (reference, []) else (before, behind)
]

-- `ref[idx+1:]` at the last "@sha256:"; the search goes on behind each hit.
unfoldable pub digest_of : Str → Str
digest_of [] = []
digest_of (c ∷ s) =
    let rest = digest_of s in
    if not (is_empty rest) then rest else if has_prefix (c ∷ s) (codes "@sha256:") then s else []

-- LocateChart: a reference and a version, which is empty for none, to the path of the chart.
abbrev pub LocateChart : Type 0
LocateChart = Str → Str → Result Str Str

unfoldable pub pull : LocateChart → Str → Result Str PullResult
pull locate reference = do
  let (chart_reference, version) = split_oci_reference reference
  path ← locate chart_reference version
  ok (record { chart_path = path; digest = digest_of reference })
