-- ===== src/Bundle.antt =====
-- pkg/bundle/bundle.go: extraction of a bundle archive and the validation of its checksums.
-- The disk is a map from absolute paths to contents. Which calls of the operating system fail is
-- up to `Host`. The readers of the tar and YAML formats and the hash are parameters.
pub mod Load
pub mod Containment
pub mod Integrity
use chainctl.Prelude.{
  ℕ, zero, suc, ◌+◌, ◌-◌, ◌*◌, ◌/◌, ◌%◌, ◌≤◌, ◌<◌, String, ◌≡◌, refl, sym, ap, ◌∙◌, subst, ◌≢◌, ◌↔◌,
  ◌⊎◌, inl, inr, Bool, true, false, not, ◌&&◌, ◌||◌, Option, none, some, List, [], ◌∷◌, ◌++◌, map,
  append-nil, append_assoc, arith, ltb, leb, ◌==◌, if◌then◌else◌, ==_iff, leb→le, Bool-cases,
  Option-cases, length, is_empty, take, drop, length-append, any, all, All, All-append,
}
use chainctl.Result.{Result, ok, err, guard, map_err, of_error, >>=-eq-ok, Result-cases}
use chainctl.Exec.{
  Exec, pure, raise, lift, gets, modify, ◌>>=◌, ◌>>◌, Keeps, continue, Keeps-pure, Keeps-raise,
  Keeps-lift, Keeps-if, Keeps-bind, Keeps-bind-lift,
}
use chainctl.Text.{
  Str, codes, str_eq, has_prefix, contains, is_space, trim_left, trim_right, trim_space, is_blank,
  lower, upper, to_lower, to_upper, cons_head, split, cut, cut_last, join,
}
use chainctl.Dict.{Dict, lookup, insert, lookup-insert, lookup-insert_self, Distinct}
use chainctl.FilePath.{
  clean, dot, dot_dot, is_abs, up, push_segment, normalise, rev_append, parts, render, join_path,
  abs, dir, climb, rel_parts, starts_up, rel,
}
use chainctl.Tokens.{
  hex_encode, Duration, CreateOptions, Token, CreatedToken, Entropy, Scope, scope_worker,
  scope_control_plane, hour, max_ttl, hex_digit, random_hex, effective_ttl, known_scope, two_parts,
  split_token, hash_secret, compare_secret, generate_token, check_token, unknown_scope,
  ttl_exceeds_maximum, generate_id, generate_secret, token_not_found, token_consumed, token_expired,
  scope_mismatch, invalid_token_fmt, after, before,
}

pub data Error : Type 0 where
  tarball_path_required read_bundle reset_cache create_cache read_tar_entry : Error
  path_outside_bundle resolve_base_path manifest_missing parse_manifest : Error
  create_dir create_parent_dir copy_entry write_file read_asset checksum_mismatch : Str → Error

pub record ImageRecord : Type 0 where
  pub name : Str
  pub tag : Str
  pub digest : Str

pub record ChartRecord : Type 0 where
  pub name : Str
  pub version : Str
  pub path : Str

pub record BinaryRecord : Type 0 where
  pub name : Str
  pub version : Str
  pub path : Str
  pub os : Str
  pub arch : Str

pub record Manifest : Type 0 where
  pub version : Str
  pub images : List ImageRecord
  pub charts : List ChartRecord
  pub binaries : List BinaryRecord
  pub checksums : Dict Str

pub record Bundle : Type 0 where
  pub path : Str
  pub cache_root : Str
  pub extracted : Str
  pub manifest : Manifest

-- A header of the archive with the content behind it, `none` where reading it fails.
pub record Entry : Type 0 where
  pub is_dir : Bool
  pub name : Str
  pub mode : ℕ
  pub content : Option Str

-- The entries up to the end of the archive, or up to a header that cannot be read.
pub record Archive : Type 0 where
  pub entries : List Entry
  pub broken : Bool

-- What the code asks of the operating system, for `Host` to refuse.
pub data Request : Type 0 where
  mkdir_all : Str → ℕ → Request
  write_file_at : Str → ℕ → Request
  remove_all : Str → Request

pub record Host : Type 0 where
  pub wd : Option Str
  pub refuses : Request → Bool

pub record Disk : Type 0 where
  pub files : Dict Str
  pub dirs : Dict ℕ

abbrev pub Action : Type 0 → Type 0
Action A = Exec Error Disk A

abbrev pub manifest_file_name : Str
manifest_file_name = codes "bundle.yaml"

-- `cleaned == ".." || strings.HasPrefix(cleaned, "../")`
abbrev escapes : Str → Bool
escapes p = str_eq p dot_dot || has_prefix p (b'.' ∷ b'.' ∷ b'/' ∷ [])

-- The last test of `safeJoin`, on what `filepath.Rel` returns: for two absolute paths never an error.
abbrev inside_base : Str → Option Str → Result Error Str
inside_base target none = err resolve_base_path
inside_base target (some r) = if escapes r then err path_outside_bundle else ok target

-- On Unix a path has no volume name, so that test never fires.
unfoldable pub safe_join : Option Str → Str → Str → Result Error Str
safe_join wd root name = elim (abs wd root) [
  | none ↦ err resolve_base_path
  | some base ↦
      let cleaned = clean name in
      if is_abs cleaned
      then err path_outside_bundle
      else if escapes cleaned
      then err path_outside_bundle
      else inside_base (join_path base cleaned) (rel base (join_path base cleaned))
]

module _ (host : Host) where
  unfoldable pub request : Request → Error → Action Unit
  request q e = if host.refuses q then raise e else pure tt

  -- os.MkdirAll(path, mode)
  unfoldable pub make_dirs : Str → ℕ → Error → Action Unit
  unfolding request
  make_dirs path mode e = do
    request (mkdir_all path mode) e
    modify (λ d. record d { dirs = insert path mode d.dirs })

  -- os.WriteFile(path, content, mode)
  unfoldable pub write : Str → Str → ℕ → Error → Action Unit
  unfolding request
  write path content mode e = do
    request (write_file_at path mode) e
    modify (λ d. record d { files = insert path content d.files })

  -- Returns the manifest's bytes as they are after the entry.
  extract_file : Str → Entry → Option Str → Option Str → Action (Option Str)
  extract_file target entry none manifest_bytes = raise (copy_entry entry.name)
  extract_file target entry (some content) manifest_bytes =
      if str_eq entry.name manifest_file_name
      then pure (some content)
      else do write target content entry.mode (write_file entry.name); pure manifest_bytes

  unfoldable pub extract_entry : Entry → Str → Option Str → Action (Option Str)
  unfolding extract_file
  extract_entry entry root manifest_bytes =
      if entry.is_dir
      then (do
        target ← lift (safe_join host.wd root entry.name)
        make_dirs target entry.mode (create_dir entry.name)
        pure manifest_bytes)
      else (do
        target ← lift (safe_join host.wd root entry.name)
        make_dirs (dir target) 493 (create_parent_dir entry.name)
        extract_file target entry entry.content manifest_bytes)

  -- The loop over the archive.
  unfoldable pub extract_entries : List Entry → Bool → Str → Option Str → Action (Option Str)
  extract_entries [] broken root manifest_bytes =
      if broken then raise read_tar_entry else pure manifest_bytes
  extract_entries (entry ∷ entries) broken root manifest_bytes = do
    bytes ← extract_entry entry root manifest_bytes
    extract_entries entries broken root bytes
