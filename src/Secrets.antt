-- ===== src/Secrets.antt =====
-- pkg/secrets: the envelope of an encrypted file of values (encrypt.go) and its errors (errors.go).
pub mod Envelope
pub mod Keeping
use chainctl.Prelude.{
  ℕ, zero, suc, ◌+◌, ◌-◌, ◌*◌, ◌/◌, ◌%◌, ◌≤◌, ◌<◌, String, ◌≡◌, refl, sym, ap, ◌∙◌, subst, ◌≢◌, ◌↔◌,
  ◌⊎◌, inl, inr, Bool, true, false, not, ◌&&◌, ◌||◌, Option, none, some, List, [], ◌∷◌, ◌++◌, map,
  append-nil, append_assoc, arith, ltb, leb, ◌==◌, if◌then◌else◌, ==_iff, leb→le, Bool-cases,
  Option-cases, length, is_empty, take, drop, length-append, any, all, All, All-append,
}
use chainctl.Result.{
  Result, ◌>>=◌, ◌>>◌, guard, map_err, of_error, >>=-eq-ok, Result-cases, ok, err,
}
use chainctl.Text.{
  Str, codes, str_eq, has_prefix, contains, is_space, trim_left, trim_right, trim_space, is_blank,
  lower, upper, to_lower, to_upper, cons_head, split, cut, cut_last, join,
}
use chainctl.Dict.{
  Dict, lookup, insert, lookup-insert, lookup-insert_self, Distinct, remove, lookup-remove,
}

pub data Code : Type 0 where
  code_validation code_encryption : Code

-- The reasons that `NewError` wraps.
pub data Reason : Type 0 where
  path_required passphrase_empty output_exists read_input input_empty : Reason
  generate_salt derive_key create_cipher generate_nonce create_gcm write_output : Reason
  payload_too_small invalid_header unsupported_version decrypt_failed : Reason

pub record Error : Type 0 where
  pub code : Code
  pub reason : Reason

abbrev pub validation : Reason → Error
validation reason = record { code = code_validation; reason = reason }

abbrev pub encryption : Reason → Error
encryption reason = record { code = code_encryption; reason = reason }

-- An AEAD by its `Seal` and `Open`, applied to nonce, text and additional data.
pub record Aead : Type 0 where
  pub seal : Str → Str → Str → Str
  pub unseal : Str → Str → Str → Option Str

-- The packages scrypt, aes, cipher and sha256; a derived key is that of passphrase and salt.
pub record Crypto : Type 0 where
  pub derive : Str → Str → Option Str
  pub new_cipher : Str → Option Str
  pub new_gcm : Str → Option Aead
  pub checksum : Str → Str

-- What `rand.Reader` gives for the salt and for the nonce, and the paths that can be written.
pub record Host : Type 0 where
  pub salt : Option Str
  pub nonce : Option Str
  pub writable : Str → Bool

abbrev pub Files : Type 0
Files = Dict Str

-- `err` where the value is missing.
abbrev pub required {ℓ} : {A : Type ℓ} → Option A → Error → Result Error A
required none e = err e
required (some a) e = ok a

unfoldable pub envelope_magic : Str
unfolding codes
envelope_magic = codes "CENC"

abbrev pub envelope_version : ℕ
envelope_version = 1

abbrev pub salt_size : ℕ
salt_size = 16

abbrev pub nonce_size : ℕ
nonce_size = 12

unfoldable pub additional_data : Str
unfolding envelope_magic
additional_data = envelope_magic ++ envelope_version ∷ []

pub record EncryptOptions : Type 0 where
  pub input_path : Str
  pub output_path : Str
  pub passphrase : Str
  pub overwrite : Bool

pub record EncryptResult : Type 0 where
  pub output_path : Str
  pub checksum : Str

pub record DecryptOptions : Type 0 where
  pub input_path : Str
  pub passphrase : Str

-- What `EncryptFile` makes before it writes: the envelope's bytes and the ciphertext's checksum.
pub record Sealed : Type 0 where
  pub payload : Str
  pub checksum : Str

abbrev exists : Files → Str → Bool
exists files path = elim (lookup path files) [ none ↦ false | some _ ↦ true ]

unfoldable pub check_options : EncryptOptions → Files → Result Error (Unit {0})
unfolding lookup
check_options opts files = do
  guard (not (is_empty opts.input_path || is_empty opts.output_path)) (validation path_required)
  guard (not (is_empty opts.passphrase)) (validation passphrase_empty)
  guard (opts.overwrite || not (exists files opts.output_path)) (validation output_exists)

-- The buffer that the parts of the envelope are written to.
unfoldable pub envelope : Crypto → Str → Str → Str → Sealed
envelope crypto salt nonce ciphertext = record {
  payload = additional_data ++ (salt ++ (nonce ++ ciphertext));
  checksum = crypto.checksum ciphertext;
}

unfoldable pub seal_payload : Crypto → Host → Str → Str → Result Error Sealed
seal_payload crypto host passphrase plaintext = do
  salt ← required host.salt (encryption generate_salt)
  key ← required (crypto.derive passphrase salt) (encryption derive_key)
  block ← required (crypto.new_cipher key) (encryption create_cipher)
  nonce ← required host.nonce (encryption generate_nonce)
  aead ← required (crypto.new_gcm block) (encryption create_gcm)
  ok (envelope crypto salt nonce (aead.seal nonce plaintext additional_data))

-- `EncryptFile` up to the write.
unfoldable pub prepare : Crypto → Host → EncryptOptions → Files → Result Error Sealed
prepare crypto host opts files = do
  check_options opts files
  plaintext ← required (lookup opts.input_path files) (validation read_input)
  guard (not (is_blank plaintext)) (validation input_empty)
  seal_payload crypto host opts.passphrase plaintext

-- `EncryptFile` from the write on.
unfoldable pub write_sealed :
    Host → EncryptOptions → Files → Result Error Sealed → Result Error EncryptResult × Files
write_sealed host opts files (err e) = (err e, files)
write_sealed host opts files (ok s) =
    if host.writable opts.output_path
    then (
      ok (record { output_path = opts.output_path; checksum = s.checksum }),
      insert opts.output_path s.payload files,
    )
    else (err (encryption write_output), files)

unfoldable pub encrypt_file :
    Crypto → Host → EncryptOptions → Files → Result Error EncryptResult × Files
unfolding write_sealed
encrypt_file crypto host opts files = write_sealed host opts files (prepare crypto host opts files)

-- The byte at an index.
abbrev pub byte_at : ℕ → Str → Option ℕ
byte_at n [] = none
byte_at zero (c ∷ s) = some c
byte_at (suc n) (c ∷ s) = byte_at n s

unfoldable pub header_size : ℕ
unfolding envelope_magic codes
header_size = length envelope_magic + 1

abbrev version_matches : Str → Bool
version_matches payload = elim (byte_at (length envelope_magic) payload) [
  | none ↦ false
  | some version ↦ version == envelope_version
]

-- The end of `DecryptFile`, by the parts of the envelope.
unfoldable pub open_parts : Crypto → Str → Str → Str → Str → Result Error Str
open_parts crypto passphrase salt nonce ciphertext = do
  key ← required (crypto.derive passphrase salt) (encryption derive_key)
  block ← required (crypto.new_cipher key) (encryption create_cipher)
  aead ← required (crypto.new_gcm block) (encryption create_gcm)
  required (aead.unseal nonce ciphertext additional_data) (encryption decrypt_failed)

-- What stands behind the header, in slices.
unfoldable pub open_body : Crypto → Str → Str → Result Error Str
unfolding open_parts
open_body crypto passphrase body =
    open_parts crypto passphrase (take salt_size body) (take nonce_size (drop salt_size body))
      (drop nonce_size (drop salt_size body))

unfoldable pub open_payload : Crypto → Str → Str → Result Error Str
unfolding envelope_magic header_size
open_payload crypto passphrase payload = do
  guard (not (ltb (length payload) (header_size + salt_size + nonce_size + 1)))
      (encryption payload_too_small)
  guard (str_eq (take (length envelope_magic) payload) envelope_magic) (encryption invalid_header)
  guard (version_matches payload) (encryption unsupported_version)
  open_body crypto passphrase (drop header_size payload)

unfoldable pub decrypt_file : Crypto → DecryptOptions → Files → Result Error Str
decrypt_file crypto opts files = do
  guard (not (is_empty opts.input_path)) (validation path_required)
  guard (not (is_empty opts.passphrase)) (validation passphrase_empty)
  payload ← required (lookup opts.input_path files) (validation read_input)
  open_payload crypto opts.passphrase payload
