-- ===== src/Tests/Storage.antt =====
-- The state file and encrypted values at concrete inputs.
use chainctl.Prelude.{
  ◌≤◌, ◌≡◌, refl, sym, ap, subst, ◌⊎◌, inl, true, false, Option, none, some, [], ◌∷◌, arith, length,
  any,
}
use chainctl.Result.{Result, ok, err}
use chainctl.Exec.{◌>>=◌}
use chainctl.Text.{
  Str, codes, str_eq, has_prefix, trim_left, trim_right, trim_space, is_blank, to_lower, to_upper,
  split, join,
}
use chainctl.Dict.{lookup}
use chainctl.FilePath.{
  is_abs, up, push_segment, normalise, rev_append, parts, render, clean, join_path, abs,
}
use chainctl.State.{
  Record, Overrides, Env, default_file_name, config_dir_name, state_dir_name, reserved_names,
  invalid_file_name_test, default_state_directory, absolute_directory, state_directory_of, resolve,
  write_failed,
}
use chainctl.State.Manager.{write_state_file, File, Disk, Host, absent, file_perm}
use chainctl.State.Atomicity.{write_state_file_atomic}
use chainctl.Secrets.{
  Crypto, Aead, EncryptOptions, EncryptResult, DecryptOptions, Files, encrypt_file, decrypt_file,
  prepare, check_options, seal_payload, envelope, envelope_magic, additional_data,
}
use chainctl.Secrets
use chainctl.Secrets.Envelope.{FillsBuffers, OpensSealed, decrypt_file-encrypt_file}
use chainctl.Secrets.Keeping.{encrypt_file_keeps}
use chainctl.State.Location.{resolve-is_abs}
use chainctl.EncryptCommand.{
  Options, Terminal, World, run_encrypt_command, validate_encrypt_paths, normalize_encrypt_format,
  resolve_passphrase, prompt_for_passphrase, ask, encrypt_step, render_encrypt_result, print, Error,
}
use chainctl.EncryptCommand.Outcome.{
  Settled, Ends, run_encrypt_command-Ends, decrypt_file-run_encrypt_command,
}

abbrev home_env : Env
home_env = record {
  xdg_config_home = [];
  user_home_dir = some (codes "/h");
  wd = some (codes "/w");
}

abbrev no_overrides : Overrides
no_overrides = record { state_directory = []; state_file_name = []; state_file_path = [] }

home_resolves : resolve home_env no_overrides ≡ ok (codes "/h/.chainctl/state/app.json")
unfolding codes str_eq has_prefix to_upper to_lower join split is_abs clean join_path abs normalise
    parts push_segment render rev_append up any resolve state_directory_of default_state_directory
    absolute_directory state_dir_name config_dir_name default_file_name reserved_names
    invalid_file_name_test
home_resolves = refl

wd_absolute : is_abs (codes "/w") ≡ true
unfolding is_abs codes
wd_absolute = refl

resolve-is_abs_example : is_abs (codes "/h/.chainctl/state/app.json") ≡ true
resolve-is_abs_example =
    resolve-is_abs home_env no_overrides (codes "/h/.chainctl/state/app.json") wd_absolute
      home_resolves

abbrev plain_encode : Record → Str
plain_encode r = r.version

abbrev first_record : Record
first_record = record {
  release = [];
  namespace = [];
  chart = record { type_of = []; reference = []; digest = [] };
  version = 1 ∷ [];
  last_action = [];
  timestamp = [];
  cluster_endpoint = [];
}

abbrev obliging : Host
obliging = record {
  refuses = λ q. false;
  stat = λ path. absent;
  temp_name = 7 ∷ [];
  temp_perm = 384;
  torn = [];
  now = [];
}

abbrev old_disk : Disk
old_disk = record { files = (8 ∷ [], record { content = []; perm = 420 }) ∷ []; dirs = [] }

names_apart : str_eq (7 ∷ []) (8 ∷ []) ≡ false
unfolding str_eq
names_apart = refl

write_state_file_atomic_example :
    let (result, after) = write_state_file plain_encode obliging (8 ∷ []) first_record old_disk in
    let written : Option File = some (record { content = 1 ∷ []; perm = file_perm }) in
    ((result ≡ ok tt) × (lookup (8 ∷ []) after.files ≡ written))
    ⊎ ((result ≡ err write_failed)
        × ((lookup (8 ∷ []) after.files ≡ lookup (8 ∷ []) old_disk.files)
            ⊎ (lookup (8 ∷ []) after.files ≡ written)))
write_state_file_atomic_example =
    write_state_file_atomic plain_encode obliging first_record (8 ∷ []) old_disk names_apart

-- A toy cipher that stores the text as it is.
abbrev open_aead : Aead
open_aead = record { seal = λ nonce text extra. text; unseal = λ nonce sealed extra. some sealed }

abbrev open_crypto : Crypto
open_crypto = record {
  derive = λ passphrase salt. some passphrase;
  new_cipher = λ key. some key;
  new_gcm = λ block. some open_aead;
  checksum = λ text. text;
}

abbrev full_buffers : Secrets.Host
full_buffers = record {
  salt = some (codes "0123456789abcdef");
  nonce = some (codes "0123456789ab");
  writable = λ path. true;
}

option_value : {A : Type 0} {a b : A} → some a ≡ some b → a ≡ b
option_value h = cc

full_buffers-FillsBuffers : FillsBuffers full_buffers
unfolding codes
full_buffers-FillsBuffers = record {
  salt_filled = λ salt h. ap length (sym (option_value h));
  nonce_filled = λ nonce h. ap length (sym (option_value h));
}

open_crypto-OpensSealed : OpensSealed open_crypto
open_crypto-OpensSealed = record {
  opens = λ block aead nonce plaintext extra h.
      subst (λ a. a.unseal nonce (a.seal nonce plaintext extra) extra ≡ some plaintext)
        (option_value h) refl;
  keeps_length = λ block aead nonce plaintext extra h.
      subst (λ a. length plaintext ≤ length (a.seal nonce plaintext extra)) (option_value h)
        (omega arith);
}

abbrev encrypt_values : EncryptOptions
encrypt_values = record {
  input_path = 1 ∷ [];
  output_path = 2 ∷ [];
  passphrase = 3 ∷ [];
  overwrite = false;
}

abbrev plain_values : Files
plain_values = (1 ∷ [], codes "a: b") ∷ []

abbrev encrypted : Result Secrets.Error EncryptResult × Files
encrypted = encrypt_file open_crypto full_buffers encrypt_values plain_values

abbrev encrypt_result : EncryptResult
encrypt_result = record { output_path = 2 ∷ []; checksum = codes "a: b" }

values_encrypted : encrypted.0 ≡ ok encrypt_result
unfolding encrypt_file prepare check_options seal_payload envelope codes lookup str_eq is_blank
    trim_space trim_left trim_right
values_encrypted = refl

decrypt_file-encrypt_file_example :
    (plaintext : Str) × (lookup (1 ∷ []) plain_values ≡ some plaintext)
    × (decrypt_file open_crypto (record { input_path = 2 ∷ []; passphrase = 3 ∷ [] }) encrypted.1
        ≡ ok plaintext)
decrypt_file-encrypt_file_example =
    decrypt_file-encrypt_file open_crypto full_buffers encrypt_values plain_values encrypted.1
      encrypt_result full_buffers-FillsBuffers open_crypto-OpensSealed
      (ap (λ r. (r, encrypted.1)) values_encrypted)

values_there : lookup (1 ∷ []) plain_values ≡ some (codes "a: b")
unfolding lookup str_eq
values_there = refl

encrypt_file_keeps_example : lookup (1 ∷ []) encrypted.1 ≡ some (codes "a: b")
encrypt_file_keeps_example =
    encrypt_file_keeps open_crypto full_buffers encrypt_values plain_values (1 ∷ []) (codes "a: b")
      (inl refl) values_there

-- Every read gives the same text.
abbrev steady_terminal : Terminal (Unit {0})
steady_terminal = record { is_terminal = true; read_password = λ t. (ok (3 ∷ []), t) }

abbrev encrypt_prompted : Options
encrypt_prompted = record {
  input_path = 1 ∷ [];
  output_path = 2 ∷ [];
  passphrase = [];
  overwrite = false;
  format = codes " JSON";
}

abbrev before_encryption : World (Unit {0})
before_encryption = record { files = plain_values; input = tt; prompts = []; printed = [] }

abbrev prompted_run : Result Error (Unit {0}) × World (Unit {0})
prompted_run =
    run_encrypt_command steady_terminal open_crypto full_buffers none encrypt_prompted
      before_encryption

prompted_run_returns : prompted_run.0 ≡ ok tt
unfolding run_encrypt_command validate_encrypt_paths normalize_encrypt_format resolve_passphrase
    prompt_for_passphrase ask encrypt_step render_encrypt_result print encrypt_file prepare
    check_options seal_payload envelope codes lookup str_eq is_blank trim_space trim_left trim_right
    to_lower ◌>>=◌
prompted_run_returns = refl

run_encrypt_command-Ends_example :
    Ends steady_terminal open_crypto full_buffers none encrypt_prompted before_encryption
      prompted_run
run_encrypt_command-Ends_example =
    run_encrypt_command-Ends steady_terminal open_crypto full_buffers none encrypt_prompted
      before_encryption

decrypt_file-run_encrypt_command_example :
    (p : Str) × Settled steady_terminal encrypt_prompted tt p
    × ((plaintext : Str) × (lookup (1 ∷ []) plain_values ≡ some plaintext)
        × (decrypt_file open_crypto
              (record { input_path = 2 ∷ []; passphrase = p })
              prompted_run.1.files
            ≡ ok plaintext))
decrypt_file-run_encrypt_command_example =
    decrypt_file-run_encrypt_command steady_terminal open_crypto full_buffers none encrypt_prompted
      before_encryption prompted_run.1 full_buffers-FillsBuffers open_crypto-OpensSealed
      (ap (λ r. (r, prompted_run.1)) prompted_run_returns)
