-- ===== src/Profile.antt =====
-- internal/config/profile_loader.go: `LoadOptions.Validate` and the profile that it returns.
pub mod Validation
use chainctl.Prelude.{
  ℕ, zero, suc, ◌+◌, ◌-◌, ◌*◌, ◌/◌, ◌%◌, ◌≤◌, ◌<◌, String, ◌≡◌, refl, sym, ap, ◌∙◌, subst, ◌≢◌, ◌↔◌,
  ◌⊎◌, inl, inr, Bool, true, false, not, ◌&&◌, ◌||◌, Option, none, some, List, [], ◌∷◌, ◌++◌, map,
  append-nil, append_assoc, arith, ltb, leb, ◌==◌, if◌then◌else◌, ==_iff, leb→le, Bool-cases,
  Option-cases, length, is_empty, take, drop, length-append, any, all, All, All-append,
}
use chainctl.Result.{
  ok, ◌>>=◌, Result, ◌>>◌, guard, map_err, of_error, >>=-eq-ok, Result-cases, err,
}
use chainctl.Text.{
  Str, codes, str_eq, has_prefix, contains, is_space, trim_left, trim_right, trim_space, is_blank,
  lower, upper, to_lower, to_upper, cons_head, split, cut, cut_last, join,
}
use chainctl.FilePath.{
  clean, dot, dot_dot, is_abs, up, push_segment, normalise, rev_append, parts, render, join_path,
  abs, dir, climb, rel_parts, starts_up, rel,
}

pub data Mode : Type 0 where
  bootstrap reuse : Mode

-- The text of a mode.
unfoldable pub mode_text : Mode → Str
unfolding codes
mode_text bootstrap = codes "bootstrap"
mode_text reuse = codes "reuse"

-- `mode` is whatever text the caller gave.
pub record LoadOptions : Type 0 where
  pub mode : Str
  pub cluster_endpoint : Str
  pub airgapped_bundle_path : Str
  pub encrypted_values_path : Str
  pub values_passphrase : Str
  pub k3s_version : Str
  pub helm_release_name : Str
  pub helm_namespace : Str
  pub offline : Bool

pub record Profile : Type 0 where
  pub mode : Mode
  pub cluster_endpoint : Str
  pub airgapped : Bool
  pub bundle_path : Str
  pub encrypted_file : Str
  pub passphrase : Str
  pub k3s_version : Str
  pub helm_release : Str
  pub helm_namespace : Str

pub data Error : Type 0 where
  unknown_mode cluster_endpoint_required encrypted_file_required bundle_path_required : Error

unfoldable pub default_string : Str → Str → Str
default_string val fallback = if is_blank val then fallback else val

-- The switch on `strings.ToLower(string(o.Mode))`.
unfoldable pub parse_mode : Str → Result Error Mode
parse_mode text =
    let mode = to_lower text in
    if is_empty mode || str_eq mode (mode_text bootstrap)
    then ok bootstrap
    else if str_eq mode (mode_text reuse)
    then ok reuse
    else err unknown_mode

unfoldable pub is_reuse : Mode → Bool
is_reuse bootstrap = false
is_reuse reuse = true

-- The profile before its bundle path is set.
unfoldable pub base_profile : LoadOptions → Mode → Profile
unfolding default_string is_reuse
base_profile o mode = record {
  mode = mode;
  cluster_endpoint = if is_reuse mode then o.cluster_endpoint else [];
  airgapped = o.offline;
  bundle_path = [];
  encrypted_file = clean o.encrypted_values_path;
  passphrase = o.values_passphrase;
  k3s_version = o.k3s_version;
  helm_release = default_string o.helm_release_name (codes "chainapp");
  helm_namespace = default_string o.helm_namespace (codes "chain-system");
}

validate_mode : LoadOptions → Mode → Result Error Profile
unfolding base_profile
validate_mode o mode =
    if is_reuse mode && is_blank o.cluster_endpoint
    then err cluster_endpoint_required
    else if is_blank o.encrypted_values_path
    then err encrypted_file_required
    else if not o.offline
    then ok (base_profile o mode)
    else if is_blank o.airgapped_bundle_path
    then err bundle_path_required
    else ok (record (base_profile o mode) { bundle_path = clean o.airgapped_bundle_path })

unfoldable pub validate : LoadOptions → Result Error Profile
unfolding validate_mode parse_mode
validate o = do mode ← parse_mode o.mode; validate_mode o mode

-- p.String(), for logs
unfoldable pub profile_string : Profile → Str
unfolding codes mode_text
profile_string p =
    let pass = if is_empty p.passphrase then codes "<none>" else codes "******" in
    codes "mode="
    ++ mode_text p.mode
    ++ codes " endpoint="
    ++ p.cluster_endpoint
    ++ codes " airgapped="
    ++ (if p.airgapped then codes "true" else codes "false")
    ++ codes " bundle="
    ++ p.bundle_path
    ++ codes " encrypted="
    ++ p.encrypted_file
    ++ codes " passphrase="
    ++ pass
