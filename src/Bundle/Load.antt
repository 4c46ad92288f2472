-- ===== src/Bundle/Load.antt =====
-- pkg/bundle/bundle.go: `Load`, from the manifest on, and `AssetPath`.
use chainctl.Prelude.{Bool, ◌||◌, Option, none, some, [], ◌∷◌, ◌++◌, if◌then◌else◌, is_empty}
use chainctl.Result
use chainctl.Result.{Result, ok, err, guard, map_err, of_error, >>=-eq-ok, Result-cases}
use chainctl.Exec.{pure, raise, lift, gets, modify, ◌>>=◌, ◌>>◌}
use chainctl.Text.{Str, str_eq, has_prefix, to_lower}
use chainctl.Dict.{Dict, lookup}
use chainctl.FilePath.{clean, join_path, dir, rel}
use chainctl.Tokens.{hex_encode}
use chainctl.Bundle.{
  Error, tarball_path_required, read_bundle, reset_cache, create_cache, manifest_missing,
  parse_manifest, read_asset, checksum_mismatch, Manifest, Bundle, Archive, remove_all, Host,
  Action, safe_join, request, make_dirs, extract_entries,
}

-- b.AssetPath(rel)
unfoldable pub asset_path : Bundle → Str → Str
asset_path b rel = join_path b.extracted (clean rel)

-- strings.EqualFold, on ASCII
unfoldable pub equal_fold : Str → Str → Bool
equal_fold s t = str_eq (to_lower s) (to_lower t)

-- `path` is `dir` or stands below it.
abbrev at_or_below : Str → Str → Bool
at_or_below dir path = str_eq path dir || has_prefix path (dir ++ b'/' ∷ [])

-- What os.RemoveAll leaves.
unfoldable pub without_tree : {V : Type 0} → Str → Dict V → Dict V
without_tree dir [] = []
without_tree dir ((path, content) ∷ files) =
    let rest = without_tree dir files in
    if at_or_below dir path then rest else (path, content) ∷ rest

-- `unmarshal_manifest` stands for yaml.Unmarshal, `untar` for archive/tar, `sha256` for
-- crypto/sha256.
module _ (host : Host) (sha256 : Str → Str) (untar : Str → Archive)
    (unmarshal_manifest : Str → Option Manifest) where
  -- After the loop: no manifest seen, or one that must parse.
  manifest_of : Option Str → Result Error Manifest
  manifest_of none = err manifest_missing
  manifest_of (some bytes) = elim (unmarshal_manifest bytes) [
    | none ↦ err parse_manifest
    | some m ↦ ok m
  ]

  unfoldable pub extract_tar_to_dir : Str → Str → Action Manifest
  unfolding manifest_of
  extract_tar_to_dir contents extract_dir = do
    let archive = untar contents
    bytes ← extract_entries host archive.entries archive.broken extract_dir none
    lift (manifest_of bytes)

  -- One round of the loop of `validateChecksums`, on what `os.ReadFile` gives.
  unfoldable pub check_content : Str → Str → Option Str → Result Error (Unit {0})
  check_content rel expected none = err (read_asset rel)
  check_content rel expected (some content) =
      if equal_fold (hex_encode (sha256 content)) expected
      then ok tt
      else err (checksum_mismatch rel)

  unfoldable pub check_asset : Dict Str → Str → Str → Result Error Str → Result Error (Unit {0})
  unfolding check_content
  check_asset files rel expected (err e) = err e
  check_asset files rel expected (ok path) = check_content rel expected (lookup path files)

  -- In the order of the iteration over the map.
  unfoldable pub validate_checksums : Dict Str → Str → Dict Str → Result Error (Unit {0})
  validate_checksums files root [] = ok tt
  validate_checksums files root ((rel, expected) ∷ rest) =
      Result.◌>>◌ (check_asset files rel expected (safe_join host.wd root rel))
        (validate_checksums files root rest)

  -- The bundle, once its checksums are validated.
  unfoldable pub checked_bundle : Str → Str → Str → Manifest → Action Bundle
  checked_bundle tarball_path cache_root extract_dir manifest = do
    files ← gets (λ d. d.files)
    lift (validate_checksums files extract_dir manifest.checksums)
    pure (record {
      path = tarball_path;
      cache_root = cache_root;
      extracted = extract_dir;
      manifest = manifest;
    })

  unfoldable pub load_data : Str → Str → Str → Action Bundle
  load_data tarball_path cache_root contents = do
    let extract_dir = join_path cache_root (hex_encode (sha256 contents))
    request host (remove_all extract_dir) reset_cache
    modify (λ d. record d {
      files = without_tree extract_dir d.files;
      dirs = without_tree extract_dir d.dirs;
    })
    make_dirs host extract_dir 493 create_cache
    manifest ← extract_tar_to_dir contents extract_dir
    checked_bundle tarball_path cache_root extract_dir manifest

  read_tarball : Str → Option Str → Result Error Str
  read_tarball path none = err read_bundle
  read_tarball path (some contents) = ok contents

  unfoldable pub load : Str → Str → Action Bundle
  unfolding read_tarball load_data
  load tarball_path cache_root = if is_empty tarball_path then raise tarball_path_required else do
    files ← gets (λ d. d.files)
    contents ← lift (read_tarball tarball_path (lookup tarball_path files))
    load_data tarball_path (if is_empty cache_root then dir tarball_path else cache_root) contents
