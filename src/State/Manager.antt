-- ===== src/State/Manager.antt =====
-- `Manager` of pkg/state/state.go: the record is written to a temporary file, which is renamed.
-- The disk maps paths to files; which calls of the operating system fail is up to `Host`.
use chainctl.Prelude.{ℕ, Bool, Option, none, some, [], if◌then◌else◌, is_empty}
use chainctl.Result
use chainctl.Result.{Result, ok, err, guard, map_err, of_error, >>=-eq-ok, Result-cases}
use chainctl.Exec.{pure, Exec, raise, lift, ◌>>=◌, ◌>>◌}
use chainctl.Text.{Str, is_blank}
use chainctl.Dict.{Dict, lookup, insert, remove}
use chainctl.FilePath.{dir}
use chainctl.State.{Record, Overrides, Error, path_resolver_missing, empty_state_path, write_failed}

pub record File : Type 0 where
  pub content : Str
  pub perm : ℕ

pub record Disk : Type 0 where
  pub files : Dict File
  pub dirs : Dict ℕ

pub data Request : Type 0 where
  mkdir_all chmod_dir create_temp chmod_temp encode_temp close_temp rename_temp chmod_path : Request
  remove_temp : Request

pub data Stat : Type 0 where
  present absent stat_failed : Stat

-- `temp_perm` is the permission of a new temporary file, `torn` what a failing encoder leaves in it,
-- `now` the clock as RFC 3339.
pub record Host : Type 0 where
  pub refuses : Request → Bool
  pub stat : Str → Stat
  pub temp_name : Str
  pub temp_perm : ℕ
  pub torn : Str
  pub now : Str

abbrev pub Action : Type 0 → Type 0
Action A = Exec Error Disk A

abbrev pub dir_perm : ℕ
dir_perm = 448

abbrev pub file_perm : ℕ
file_perm = 384

unfoldable pub ensure_timestamp : Host → Record → Record
ensure_timestamp host r = if is_empty r.timestamp then record r { timestamp = host.now } else r

-- os.Rename(from, to)
unfoldable pub rename_file : Str → Str → Dict File → Dict File
rename_file from to files = elim (lookup from files) [
  | none ↦ files
  | some file ↦ insert to file (remove from files)
]

unfoldable pub set_perm : Str → ℕ → Dict File → Dict File
set_perm path perm files = elim (lookup path files) [
  | none ↦ files
  | some file ↦ insert path (record file { perm = perm }) files
]

-- A write into an open file, whose permission stays.
unfoldable pub write_content : Str → Str → Dict File → Dict File
write_content path content files = elim (lookup path files) [
  | none ↦ files
  | some file ↦ insert path (record file { content = content }) files
]

abbrev pub on_files : (Dict File → Dict File) → Disk → Disk
on_files f d = record d { files = f d.files }

-- `encode` stands for encoding/json.
module _ (encode : Record → Str) (host : Host) where
  -- A call that changes the disk, or fails with `errWriteFailed` and leaves it.
  unfoldable pub perform : Request → (Disk → Disk) → Action Unit
  perform q change d = if host.refuses q then (err write_failed, d) else (ok tt, change d)

  unfoldable pub ensure_directory : Str → Action Unit
  ensure_directory folder = elim (host.stat folder) [
    | present ↦ pure tt
    | stat_failed ↦ raise write_failed
    | absent ↦ do
      perform mkdir_all (λ d. record d { dirs = insert folder dir_perm d.dirs })
      perform chmod_dir (λ d. record d { dirs = insert folder dir_perm d.dirs })
  ]

  unfoldable pub encode_json : Str → Record → Action Unit
  encode_json tmp r d =
      if host.refuses encode_temp
      then (err write_failed, on_files (write_content tmp host.torn) d)
      else (ok tt, on_files (write_content tmp (encode r)) d)

  -- What follows the creation of the temporary file.
  unfoldable pub fill_and_rename : Str → Str → Record → Action Unit
  fill_and_rename tmp path r = do
    perform chmod_temp (on_files (set_perm tmp file_perm))
    encode_json tmp r
    perform close_temp (λ d. d)
    perform rename_temp (on_files (rename_file tmp path))
    perform chmod_path (on_files (set_perm path file_perm))

  -- `defer os.Remove(tmp.Name())`: it runs whatever came before, and its own error is dropped.
  unfoldable pub removing : Str → Action Unit → Action Unit
  removing tmp body d =
      let after = body d in
      (after.0, if host.refuses remove_temp then after.1 else on_files (remove tmp) after.1)

  unfoldable pub write_state_file : Str → Record → Action Unit
  write_state_file path r = do
    perform create_temp
        (on_files (insert host.temp_name (record { content = []; perm = host.temp_perm })))
    removing host.temp_name (fill_and_rename host.temp_name path r)

  -- `none` is a manager without a resolver.
  unfoldable pub resolve_path : Option (Overrides → Result Error Str) → Overrides → Result Error Str
  resolve_path none overrides = err path_resolver_missing
  resolve_path (some resolver) overrides =
      Result.◌>>=◌ (resolver overrides)
        (λ path. if is_blank path then err empty_state_path else ok path)

  unfoldable pub write_record :
      Option (Overrides → Result Error Str) → Record → Overrides → Action Str
  write_record resolver r overrides = do
    path ← lift (resolve_path resolver overrides)
    ensure_directory (dir path)
    write_state_file path (ensure_timestamp host r)
    pure path
