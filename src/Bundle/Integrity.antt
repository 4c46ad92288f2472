-- ===== src/Bundle/Integrity.antt =====
-- What a bundle that `Load` returns has passed.
use chainctl.Prelude.{
  ◌≡◌, refl, ap, subst, inl, inr, true, Option, some, [], ◌∷◌, arith, if◌then◌else◌, Bool-cases,
  Option-cases, is_empty,
}
use chainctl.Result.{>>=-eq-ok, ok, Result-cases, Result, >>=-eq-ok, err}
use chainctl.Exec.{◌>>=◌, exec-eq-ok}
use chainctl.Text.{Str, str_eq}
use chainctl.Text.Laws.{str_eq_iff}
use chainctl.Dict.{Dict, lookup}
use chainctl.FilePath.{join_path, dir, rel}
use chainctl.Tokens.{hex_encode}
use chainctl.Bundle.{
  Error, Archive, Manifest, Bundle, Host, Disk, safe_join, request, make_dirs, reset_cache,
  create_cache, remove_all,
}
use chainctl.Bundle.Load.{
  equal_fold, validate_checksums, check_asset, load_data, load, extract_tar_to_dir, checked_bundle,
}

module _ (host : Host) (sha256 : Str → Str) (untar : Str → Archive)
    (unmarshal_manifest : Str → Option Manifest) where
  -- The file that a checksum is for stands on the disk and has that checksum.
  pub record IsVerified (files : Dict Str) (root rel expected : Str) : Type 0 where
    pub path : Str
    pub content : Str
    pub joined : safe_join host.wd root rel ≡ ok path
    pub on_disk : lookup path files ≡ some content
    pub matches : equal_fold (hex_encode (sha256 content)) expected ≡ true

  check_content-ok :
      (files : Dict Str) (root rel expected path : Str)
      → safe_join host.wd root rel ≡ ok path
      → check_asset host sha256 untar unmarshal_manifest files rel expected (ok path) ≡ ok tt
      → IsVerified files root rel expected
  unfolding check_asset
  check_content-ok files root rel expected path joined h = elim (Option-cases (lookup path files)) [
    | inl missing ↦ absurd (ground (arith, missing))
    | inr (content, found) ↦ record {
      path = path;
      content = content;
      joined = joined;
      on_disk = found;
      matches = ground (arith, found);
    }
  ]

  check_asset-IsVerified :
      (files : Dict Str) (root rel expected : Str) (joined : Result Error Str)
      → safe_join host.wd root rel ≡ joined
      → check_asset host sha256 untar unmarshal_manifest files rel expected joined ≡ ok tt
      → IsVerified files root rel expected
  check_asset-IsVerified files root rel expected (ok path) e h =
      check_content-ok files root rel expected path e h
  check_asset-IsVerified files root rel expected (err x) e h = absurd (unfold check_asset in cc h)

  validate_checksums-IsVerified :
      (files : Dict Str) (root : Str) (checksums : Dict Str) (rel expected : Str)
      → validate_checksums host sha256 untar unmarshal_manifest files root checksums ≡ ok tt
      → lookup rel checksums ≡ some expected
      → IsVerified files root rel expected
  unfolding validate_checksums lookup
  validate_checksums-IsVerified files root [] rel expected h found = absurd (cc found)
  validate_checksums-IsVerified files root ((r, e) ∷ rest) rel expected h found =
      let (_, checked, later) =
        >>=-eq-ok
          (check_asset host sha256 untar unmarshal_manifest files r e (safe_join host.wd root r)) _
          h in
      elim (Bool-cases (str_eq r rel)) [
        | inl same ↦ rw (← (str_eq_iff r rel).0 same) (
            subst (IsVerified files root r) (ground (arith, same))
              (check_asset-IsVerified files root r e (safe_join host.wd root r) refl checked))
        | inr other ↦
            validate_checksums-IsVerified files root rest rel expected later (ground (arith, other))
      ]

  checked_bundle-IsVerified :
      (tarball_path cache_root extract_dir : Str) (manifest : Manifest) (d : Disk) {b : Bundle}
      {d' : Disk}
      → checked_bundle host sha256 untar unmarshal_manifest tarball_path cache_root extract_dir
          manifest d
        ≡ (ok b, d')
      → (rel expected : Str) → lookup rel b.manifest.checksums ≡ some expected
      → IsVerified d'.files b.extracted rel expected
  unfolding checked_bundle ◌>>=◌
  checked_bundle-IsVerified tarball_path cache_root extract_dir manifest d {b} {d'} h rel expected
        found =
      elim (Result-cases (
        validate_checksums host sha256 untar unmarshal_manifest d.files extract_dir
          manifest.checksums)) [
            | inr (x, bad) ↦ absurd (ground (arith, bad))
            | inl (_, fine) ↦
                let returned : b ≡ record {
                  path = tarball_path;
                  cache_root = cache_root;
                  extracted = extract_dir;
                  manifest = manifest;
                } =
                  ground (arith, fine) in
                let kept : d' ≡ d = ground (arith, fine) in
                rw (kept, returned)
                  (validate_checksums-IsVerified d.files extract_dir manifest.checksums rel expected
                    fine (rw returned at found))
          ]

  load_data-IsVerified :
      (tarball_path cache_root contents : Str) (d : Disk) {b : Bundle} {d' : Disk}
      → load_data host sha256 untar unmarshal_manifest tarball_path cache_root contents d
        ≡ (ok b, d')
      → (rel expected : Str) → lookup rel b.manifest.checksums ≡ some expected
      → IsVerified d'.files b.extracted rel expected
  unfolding load_data
  load_data-IsVerified tarball_path cache_root contents d h rel expected found =
      let extract_dir = join_path cache_root (hex_encode (sha256 contents)) in
      let (_, d1, _, h1) = exec-eq-ok (request host (remove_all extract_dir) reset_cache) _ d h in
      let (_, d2, _, h2) = exec-eq-ok _ _ d1 h1 in
      let (_, d3, _, h3) = exec-eq-ok (make_dirs host extract_dir 493 create_cache) _ d2 h2 in
      let (manifest, d4, _, h4) =
        exec-eq-ok (extract_tar_to_dir host sha256 untar unmarshal_manifest contents extract_dir) _
          d3 h3 in
      checked_bundle-IsVerified tarball_path cache_root extract_dir manifest d4 h4 rel expected
        found

  load_from :
      (tarball_path cache_root : Str) (d : Disk) {b : Bundle} {d' : Disk}
      → load host sha256 untar unmarshal_manifest tarball_path cache_root d ≡ (ok b, d')
      → (root contents : Str) × (load_data host sha256 untar unmarshal_manifest tarball_path root
            contents d
          ≡ (ok b, d'))
  unfolding load ◌>>=◌
  load_from [] cache_root d h = absurd (cc (ap (λ p. p.0) h))
  load_from (c ∷ tarball_path) cache_root d h =
      elim (Option-cases (lookup (c ∷ tarball_path) d.files)) [
        | inl missing ↦ absurd (ground (arith, missing))
        | inr (contents, found) ↦ (
          if is_empty cache_root then dir (c ∷ tarball_path) else cache_root,
          contents,
          ground (arith, found),
        )
      ]

  -- A bundle that `Load` returns, with the disk that `Load` leaves: every file that its manifest
  -- lists a checksum for stands on the disk at the path that `safeJoin` gives, and its SHA-256 is
  -- that checksum up to the case of letters.
  pub load-IsVerified :
      (tarball_path cache_root : Str) (d : Disk) {b : Bundle} {d' : Disk}
      → load host sha256 untar unmarshal_manifest tarball_path cache_root d ≡ (ok b, d')
      → (rel expected : Str) → lookup rel b.manifest.checksums ≡ some expected
      → IsVerified d'.files b.extracted rel expected
  load-IsVerified tarball_path cache_root d h rel expected found =
      let (root, contents, loaded) = load_from tarball_path cache_root d h in
      load_data-IsVerified tarball_path root contents d loaded rel expected found
