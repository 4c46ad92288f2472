-- ===== src/State/Atomicity.antt =====
-- pkg/state/state.go: what `writeStateFile` leaves, with the calls of the operating system that fail.
use chainctl.Prelude.{
  ℕ, ◌≡◌, refl, ◌∙◌, ◌⊎◌, inl, inr, false, Option, some, [], arith, Option-cases,
}
use chainctl.Result.{ok, err}
use chainctl.Exec.{◌>>=◌}
use chainctl.Text.{Str, str_eq}
use chainctl.Dict.{Dict, lookup, insert, remove, lookup-insert, lookup-remove, lookup-insert_self}
use chainctl.State.{Record, write_failed}
use chainctl.State.Manager.{
  File, Disk, Host, file_perm, rename_file, set_perm, write_content, perform, encode_json,
  fill_and_rename, removing, write_state_file,
}

lookup-insert_ne :
    (p q : Str) (f : File) (files : Dict File)
    → str_eq p q ≡ false
    → lookup q (insert p f files) ≡ lookup q files
lookup-insert_ne p q f files h = rw (lookup-insert, h) refl

lookup-remove_ne :
    (p q : Str) (files : Dict File)
    → str_eq p q ≡ false
    → lookup q (remove p files) ≡ lookup q files
lookup-remove_ne p q files h = rw (lookup-remove, h) refl

lookup-set_perm_ne :
    (p q : Str) (perm : ℕ) (files : Dict File)
    → str_eq p q ≡ false
    → lookup q (set_perm p perm files) ≡ lookup q files
unfolding set_perm
lookup-set_perm_ne p q perm files h = elim (Option-cases (lookup p files)) [
  | inl missing ↦ rw (missing, set_perm) refl
  | inr (f, found) ↦ rw (found, set_perm) (lookup-insert_ne p q (record f { perm = perm }) files h)
]

lookup-set_perm :
    (p : Str) (perm : ℕ) (f : File) (files : Dict File)
    → lookup p files ≡ some f
    → lookup p (set_perm p perm files) ≡ some (record f { perm = perm })
unfolding set_perm
lookup-set_perm p perm f files found =
    rw (found, set_perm) (lookup-insert_self p (record f { perm = perm }) files)

module _ (encode : Record → Str) (host : Host) (r : Record) (path : Str) (d : Disk) where
  abbrev temp : Str
  temp = host.temp_name

  -- The files before the rename, for what the encoder left in the temporary file.
  abbrev filled : Str → Dict File
  filled content =
      insert temp (record { content = content; perm = file_perm })
        (set_perm temp file_perm
          (insert temp (record { content = []; perm = host.temp_perm }) d.files))

  abbrev renamed : Dict File
  renamed =
      insert path (record { content = encode r; perm = file_perm })
        (remove temp (filled (encode r)))

  abbrev empty_temp : File
  empty_temp = record { content = []; perm = host.temp_perm }

  filled_apart :
      (q content : Str) → str_eq temp q ≡ false → lookup q (filled content) ≡ lookup q d.files
  filled_apart q content apart =
      lookup-insert_ne temp q (record { content = content; perm = file_perm }) _ apart
      ∙ lookup-set_perm_ne temp q file_perm (insert temp empty_temp d.files) apart
      ∙ lookup-insert_ne temp q empty_temp d.files apart

  write_chmodded :
      (content : Str)
      → write_content temp content (set_perm temp file_perm (insert temp empty_temp d.files))
        ≡ filled content
  unfolding write_content
  write_chmodded content =
      rw
        (
          lookup-set_perm temp file_perm empty_temp (insert temp empty_temp d.files)
              (lookup-insert_self temp empty_temp d.files),
          write_content,
        )
        refl

  -- If `writeStateFile` returns no error the state file holds the whole new record and only its
  -- owner may read it. If it fails, at whatever call, the state file is the old one or holds the
  -- whole new record. The temporary file is taken to have another path than the state file.
  pub write_state_file_atomic :
      str_eq temp path ≡ false
      → let (result, after) = write_state_file encode host path r d in
        let written : Option File = some (record { content = encode r; perm = file_perm }) in
        ((result ≡ ok tt) × (lookup path after.files ≡ written))
        ⊎ ((result ≡ err write_failed)
            × ((lookup path after.files ≡ lookup path d.files)
                ⊎ (lookup path after.files ≡ written)))
  unfolding write_state_file perform removing fill_and_rename encode_json ◌>>=◌ rename_file
  write_state_file_atomic apart =
      let created = insert temp empty_temp d.files in
      ground (
        arith,
        apart,
        lookup-insert_ne temp path empty_temp d.files apart,
        write_chmodded host.torn,
        write_chmodded (encode r),
        lookup-set_perm_ne temp path file_perm created apart,
        filled_apart path host.torn apart,
        filled_apart path (encode r) apart,
        lookup-insert_self temp (record { content = encode r; perm = file_perm })
            (set_perm temp file_perm created),
        lookup-insert_self path (record { content = encode r; perm = file_perm })
            (remove temp (filled (encode r))),
        lookup-set_perm path file_perm (record { content = encode r; perm = file_perm }) renamed,
        lookup-remove_ne temp path d.files apart,
        lookup-remove_ne temp path created apart,
        lookup-remove_ne temp path (set_perm temp file_perm created) apart,
        lookup-remove_ne temp path (filled host.torn) apart,
        lookup-remove_ne temp path (filled (encode r)) apart,
        lookup-remove_ne temp path renamed apart,
        lookup-remove_ne temp path (set_perm path file_perm renamed) apart,
      )
