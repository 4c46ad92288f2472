-- ===== src/Tests/Bundles.antt =====
-- A bundle of one file, and an archive with a path that leaves it.
use chainctl.Prelude.{◌≡◌, refl, ap, true, false, none, some, List, [], ◌∷◌, any}
use chainctl.Result.{Result, ok}
use chainctl.Text.{Str, codes, str_eq, has_prefix, to_lower, split, join}
use chainctl.Dict.{lookup, insert}
use chainctl.FilePath.{
  is_abs, up, push_segment, normalise, rev_append, parts, render, clean, join_path, abs, climb,
  rel_parts, rel,
}
use chainctl.Tokens.{hex_encode}
use chainctl.Bundle.{
  Manifest, Bundle, Entry, Archive, Host, Disk, Error, safe_join, extract_entries, extract_entry,
  request, make_dirs, write, manifest_file_name,
}
use chainctl.Exec.{◌>>=◌}
use chainctl.Bundle.Load.{
  load, load_data, extract_tar_to_dir, checked_bundle, validate_checksums, check_asset, equal_fold,
  without_tree,
}
use chainctl.Bundle.Containment.{OnlyInside, extract_entries_contained}
use chainctl.Bundle.Integrity.{IsVerified, load-IsVerified}

abbrev obliging : Host
obliging = record { wd = some (codes "/w"); refuses = λ q. false }

wd_absolute : is_abs (codes "/w") ≡ true
unfolding is_abs codes
wd_absolute = refl

asset_joins : safe_join (some (codes "/w")) (codes "r") (codes "a/b") ≡ ok (codes "/w/r/a/b")
unfolding codes str_eq has_prefix join split is_abs clean join_path abs normalise parts push_segment
    render rev_append up any safe_join rel rel_parts climb
asset_joins = refl

abbrev escaping : List Entry
escaping =
    record { is_dir = false; name = codes "a"; mode = 420; content = some (1 ∷ []) }
    ∷ record { is_dir = false; name = codes "../../etc/x"; mode = 420; content = some (2 ∷ []) }
    ∷ []

abbrev empty_disk : Disk
empty_disk = record { files = []; dirs = [] }

extract_entries_contained_example :
    OnlyInside
      (some (codes "/w"))
      (codes "r")
      []
      (extract_entries obliging escaping false (codes "r") none empty_disk).1
extract_entries_contained_example =
    extract_entries_contained obliging escaping false (codes "r") none empty_disk wd_absolute

abbrev plain_hash : Str → Str
plain_hash s = s

abbrev one_checksum : Manifest
one_checksum = record {
  version = [];
  images = [];
  charts = [];
  binaries = [];
  checksums = (codes "a", hex_encode (1 ∷ [])) ∷ [];
}

abbrev one_file : Str → Archive
one_file contents = record {
  entries =
      record { is_dir = false; name = codes "a"; mode = 420; content = some (1 ∷ []) }
      ∷ record { is_dir = false; name = manifest_file_name; mode = 420; content = some [] }
      ∷ [];
  broken = false;
}

abbrev one_bundle_disk : Disk
one_bundle_disk = record { files = (codes "/t", 9 ∷ []) ∷ []; dirs = [] }

abbrev loaded_bundle : Bundle
loaded_bundle = record {
  path = codes "/t";
  cache_root = codes "/c";
  extracted = codes "/c/09";
  manifest = one_checksum;
}

abbrev loads : Result Error Bundle × Disk
loads =
    load obliging plain_hash one_file (λ bytes. some one_checksum) (codes "/t") (codes "/c")
      one_bundle_disk

bundle_loads : loads.0 ≡ ok loaded_bundle
unfolding codes str_eq has_prefix join split is_abs clean join_path abs normalise parts push_segment
    render rev_append up any safe_join rel rel_parts climb load load_data ◌>>=◌ lookup request
    make_dirs extract_tar_to_dir extract_entries extract_entry hex_encode write checked_bundle
    validate_checksums check_asset insert without_tree equal_fold to_lower
bundle_loads = refl

checksum_listed : lookup (codes "a") loaded_bundle.manifest.checksums ≡ some (hex_encode (1 ∷ []))
unfolding lookup codes str_eq
checksum_listed = refl

load-IsVerified_example :
    IsVerified obliging plain_hash one_file
      (λ bytes. some one_checksum)
      loads.1.files
      (codes "/c/09")
      (codes "a")
      (hex_encode (1 ∷ []))
load-IsVerified_example =
    load-IsVerified obliging plain_hash one_file (λ bytes. some one_checksum) (codes "/t")
      (codes "/c") one_bundle_disk (ap (λ r. (r, loads.1)) bundle_loads) (codes "a")
      (hex_encode (1 ∷ [])) checksum_listed
