-- ===== src/Secrets/Keeping.antt =====
-- pkg/secrets/encrypt.go: the files that `EncryptFile` leaves alone.
use chainctl.Prelude.{
  ◌≡◌, refl, sym, ◌∙◌, ◌≢◌, ◌⊎◌, inl, inr, false, none, some, arith, Bool-cases, Option-cases,
}
use chainctl.Result.{Result, Result-cases, ok, err}
use chainctl.Text.{Str, str_eq}
use chainctl.Text.Laws.{str_eq_iff}
use chainctl.Dict.{lookup, lookup-insert}
use chainctl.Secrets.{
  Error, Crypto, Host, EncryptOptions, Sealed, Files, check_options, prepare, encrypt_file,
  write_sealed,
}
use chainctl.Secrets.Envelope.{prepare-Made}

fresh_output :
    (opts : EncryptOptions) (files : Files)
    → check_options opts files ≡ ok tt
    → opts.overwrite ≡ false
    → lookup opts.output_path files ≡ none
unfolding check_options
fresh_output opts files h kept = elim (Option-cases (lookup opts.output_path files)) [
  | inl missing ↦ missing
  | inr (content, found) ↦ absurd (ground (arith, found))
]

write_sealed_keeps :
    (host : Host) (opts : EncryptOptions) (files : Files) (r : Result Error Sealed) (path : Str)
    → str_eq opts.output_path path ≡ false
    → lookup path (write_sealed host opts files r).1 ≡ lookup path files
unfolding write_sealed
write_sealed_keeps host opts files (err e) path other = refl
write_sealed_keeps host opts files (ok s) path other =
    ground (arith, lookup-insert opts.output_path path s.payload files)

-- `EncryptFile` changes no file but its output, and without `Overwrite` no file that there was.
pub encrypt_file_keeps :
    (crypto : Crypto) (host : Host) (opts : EncryptOptions) (files : Files) (path content : Str)
    → (opts.overwrite ≡ false) ⊎ (path ≢ opts.output_path)
    → lookup path files ≡ some content
    → lookup path (encrypt_file crypto host opts files).1 ≡ some content
unfolding encrypt_file
encrypt_file_keeps crypto host opts files path content allowed h =
    elim (Bool-cases (str_eq opts.output_path path)) [
      | inr other ↦
          write_sealed_keeps host opts files (prepare crypto host opts files) path other ∙ h
      | inl same ↦
          let output = (str_eq_iff opts.output_path path).0 same in
          elim (Result-cases (prepare crypto host opts files)) [
            | inr (e, failed) ↦ rw failed (unfold write_sealed in h)
            | inl (s, made) ↦ absurd (elim allowed [
              | inl kept ↦
                  let (_, _, _, checked, _) = prepare-Made crypto host opts files s made in
                  cc (sym h ∙ rw output at (fresh_output opts files checked kept))
              | inr apart ↦ apart (sym output)
            ])
          ]
    ]
