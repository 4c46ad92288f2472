-- ===== src/EncryptCommand.antt =====
-- `chainctl encrypt-values`, cmd/chainctl/secrets/encrypt.go, over a terminal with the state `T`.
pub mod Outcome
use chainctl.Prelude.{
  ◌≡◌, Bool, true, false, not, ◌||◌, Option, none, some, List, [], ◌∷◌, ◌++◌, if◌then◌else◌,
  is_empty,
}
use chainctl.Result.{Result, ok, err, map_err, guard}
use chainctl.Exec.{Exec, pure, raise, lift, modify, ◌>>=◌, ◌>>◌}
use chainctl.Text.{Str, codes, str_eq, is_blank, trim_space, to_lower}
use chainctl.Dict.{Dict}
use chainctl.Secrets.{
  Code, code_validation, code_encryption, Crypto, Files, EncryptOptions, EncryptResult,
  encrypt_file,
}
use chainctl.Secrets

pub record Options : Type 0 where
  pub input_path : Str
  pub output_path : Str
  pub passphrase : Str
  pub overwrite : Bool
  pub format : Str

pub data Reason : Type 0 where
  input_required output_required result_missing not_interactive passphrases_differ : Reason
  unsupported_format read_failed encode_failed : Str → Reason

pub data Error : Type 0 where
  failure : Code → Reason → Error
  encrypt_failed : Secrets.Error → Error

-- What is written to the standard output.
pub data Output : Type 0 where
  text_output : Str → Output
  json_output : Dict Str → Output

-- The variables `isTerminal` and `readPassword`, of golang.org/x/term.
pub record Terminal (T : Type 0) : Type 0 where
  pub is_terminal : Bool
  pub read_password : T → Result Str Str × T

pub record World (T : Type 0) : Type 0 where
  pub files : Files
  pub input : T
  pub prompts : Str
  pub printed : List Output

unfoldable pub validate_encrypt_paths : Options → Result Error (Unit {0})
validate_encrypt_paths o =
    if is_blank o.input_path
    then err (failure code_validation input_required)
    else if is_blank o.output_path
    then err (failure code_validation output_required)
    else ok tt

abbrev or_text : Str → Str
or_text [] = codes "text"
or_text (c ∷ s) = c ∷ s

unfoldable pub normalize_encrypt_format : Str → Result Error Str
normalize_encrypt_format format =
    let normalized = or_text (to_lower (trim_space format)) in
    if str_eq normalized (codes "text") || str_eq normalized (codes "json")
    then ok normalized
    else err (failure code_validation (unsupported_format normalized))

-- "Encrypted values written to %s\nChecksum: %s\n"
unfoldable pub result_text : EncryptResult → Str
result_text result =
    codes "Encrypted values written to "
    ++ (result.output_path ++ (10 ∷ [] ++ (codes "Checksum: " ++ (result.checksum ++ 10 ∷ []))))

unfoldable pub result_payload : EncryptResult → Dict Str
result_payload result =
    (codes "outputPath", result.output_path) ∷ (codes "checksum", result.checksum) ∷ []

module _ {T : Type 0} (terminal : Terminal T) where
  -- A prompt, the read, and the end of the line.
  unfoldable pub ask : Str → Exec Reason (World T) Str
  ask label w =
      let (answer, after) = terminal.read_password w.input in
      (
        map_err read_failed answer,
        record w { input = after; prompts = w.prompts ++ (label ++ 10 ∷ []) },
      )

  unfoldable pub prompt_for_passphrase : Exec Reason (World T) Str
  prompt_for_passphrase = do
    lift (guard terminal.is_terminal not_interactive)
    pass1 ← ask (codes "Enter passphrase: ")
    pass2 ← ask (codes "Confirm passphrase: ")
    lift (guard (str_eq pass1 pass2) passphrases_differ)
    pure pass1

  unfoldable pub resolve_passphrase : Str → Exec Error (World T) Str
  resolve_passphrase provided w = if not (is_blank provided) then (ok provided, w) else (
    map_err (failure code_validation) (prompt_for_passphrase w).0,
    (prompt_for_passphrase w).1,
  )

  unfoldable pub encrypt_step :
      Crypto → Secrets.Host → EncryptOptions → Exec Error (World T) EncryptResult
  encrypt_step crypto host opts w =
      let (result, after) = encrypt_file crypto host opts w.files in
      (map_err encrypt_failed result, record w { files = after })

  unfoldable pub print : Output → Exec Error (World T) (Unit {0})
  print output = modify (λ w. record w { printed = w.printed ++ output ∷ [] })

  -- `encode_error` is what the JSON encoder returns.
  unfoldable pub render_encrypt_result :
      Option Str → Str → Option EncryptResult → Exec Error (World T) (Unit {0})
  render_encrypt_result encode_error format none = raise (failure code_encryption result_missing)
  render_encrypt_result encode_error format (some result) =
      if str_eq format (codes "json")
      then elim encode_error [
        | none ↦ print (json_output (result_payload result))
        | some text ↦ raise (failure code_encryption (encode_failed text))
      ]
      else print (text_output (result_text result))

  -- `EncryptFile` gives a result whenever it gives no error.
  unfoldable pub run_encrypt_command :
      Crypto → Secrets.Host → Option Str → Options → Exec Error (World T) (Unit {0})
  run_encrypt_command crypto host encode_error o = do
    lift (validate_encrypt_paths o)
    format ← lift (normalize_encrypt_format o.format)
    passphrase ← resolve_passphrase o.passphrase
    result ← encrypt_step crypto host (record {
      input_path = o.input_path;
      output_path = o.output_path;
      passphrase = passphrase;
      overwrite = o.overwrite;
    })
    render_encrypt_result encode_error format (some result)
