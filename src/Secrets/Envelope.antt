-- ===== src/Secrets/Envelope.antt =====
-- pkg/secrets/encrypt.go: what `DecryptFile` reads of a file that `EncryptFile` wrote.
use chainctl.Prelude.{
  ◌≤◌, ◌≡◌, refl, sym, ap, ◌∙◌, inl, inr, Bool, true, false, not, Option, none, some, [], ◌∷◌, ◌++◌,
  arith, Bool-cases, length, is_empty, take, drop, length-append, not-true, take_append,
  drop_append,
}
use chainctl.Result.{Result, guard, >>=-eq-ok, ok, err}
use chainctl.Text.{Str, codes, str_eq, trim_left, trim_right, trim_space, is_blank}
use chainctl.Dict.{lookup, insert, lookup-insert_self}
use chainctl.Secrets.{
  Error, Aead, Crypto, Host, EncryptOptions, EncryptResult, Sealed, validation, encryption, Files,
  required, envelope_magic, salt_size, nonce_size, additional_data, check_options, envelope,
  seal_payload, prepare, encrypt_file, header_size, open_body, open_payload, decrypt_file,
  read_input, input_empty, generate_salt, derive_key, create_cipher, generate_nonce, create_gcm,
  open_parts, write_sealed,
}

-- `io.ReadFull(rand.Reader, ...)` fills the whole buffer.
pub record FillsBuffers (host : Host) : Type 0 where
  pub salt_filled : (salt : Str) → host.salt ≡ some salt → length salt ≡ salt_size
  pub nonce_filled : (nonce : Str) → host.nonce ≡ some nonce → length nonce ≡ nonce_size

-- An AEAD opens what it sealed, and the ciphertext is not shorter than the plaintext.
pub record OpensSealed (crypto : Crypto) : Type 0 where
  pub opens :
      (block : Str) (aead : Aead) (nonce plaintext extra : Str)
      → crypto.new_gcm block ≡ some aead
      → aead.unseal nonce (aead.seal nonce plaintext extra) extra ≡ some plaintext
  pub keeps_length :
      (block : Str) (aead : Aead) (nonce plaintext extra : Str)
      → crypto.new_gcm block ≡ some aead
      → length plaintext ≤ length (aead.seal nonce plaintext extra)

required-eq-ok {ℓ} :
    {A : Type ℓ} (o : Option A) (e : Error) {a : A} → required o e ≡ ok a → o ≡ some a
required-eq-ok none e h = cc
required-eq-ok (some a) e h = cc

guard-eq-ok : (b : Bool) (e : Error) {u : Unit {0}} → guard b e ≡ ok u → b ≡ true
guard-eq-ok true e h = refl
guard-eq-ok false e h = cc

-- The parts of an envelope and where they come from.
pub record Made (crypto : Crypto) (host : Host) (passphrase plaintext : Str) (s : Sealed)
    : Type 0 where
  pub salt : Str
  pub key : Str
  pub block : Str
  pub nonce : Str
  pub aead : Aead
  pub salt_read : host.salt ≡ some salt
  pub derived : crypto.derive passphrase salt ≡ some key
  pub cipher_made : crypto.new_cipher key ≡ some block
  pub nonce_read : host.nonce ≡ some nonce
  pub gcm_made : crypto.new_gcm block ≡ some aead
  pub made : s ≡ envelope crypto salt nonce (aead.seal nonce plaintext additional_data)

seal_payload-Made :
    (crypto : Crypto) (host : Host) (passphrase plaintext : Str) (s : Sealed)
    → seal_payload crypto host passphrase plaintext ≡ ok s
    → Made crypto host passphrase plaintext s
unfolding seal_payload
seal_payload-Made crypto host passphrase plaintext s h =
    let (salt, e₁, h₁) = >>=-eq-ok (required host.salt (encryption generate_salt)) _ h in
    let (key, e₂, h₂) =
      >>=-eq-ok (required (crypto.derive passphrase salt) (encryption derive_key)) _ h₁ in
    let (block, e₃, h₃) =
      >>=-eq-ok (required (crypto.new_cipher key) (encryption create_cipher)) _ h₂ in
    let (nonce, e₄, h₄) = >>=-eq-ok (required host.nonce (encryption generate_nonce)) _ h₃ in
    let (aead, e₅, h₅) = >>=-eq-ok (required (crypto.new_gcm block) (encryption create_gcm)) _ h₄ in
    record {
      salt = salt;
      key = key;
      block = block;
      nonce = nonce;
      aead = aead;
      salt_read = required-eq-ok host.salt _ e₁;
      derived = required-eq-ok _ _ e₂;
      cipher_made = required-eq-ok _ _ e₃;
      nonce_read = required-eq-ok host.nonce _ e₄;
      gcm_made = required-eq-ok _ _ e₅;
      made = cc;
    }

not_blank-length : (s : Str) → is_blank s ≡ false → 1 ≤ length s
unfolding is_blank trim_space trim_left trim_right
not_blank-length [] h = absurd (cc h)
not_blank-length (c ∷ s) h = omega arith

open_parts_sealed :
    (crypto : Crypto) (host : Host) (passphrase plaintext : Str) (s : Sealed)
    → OpensSealed crypto
    → (m : Made crypto host passphrase plaintext s) → {salt nonce ciphertext : Str} → salt ≡ m.salt
    → nonce ≡ m.nonce
    → ciphertext ≡ m.aead.seal m.nonce plaintext additional_data
    → open_parts crypto passphrase salt nonce ciphertext ≡ ok plaintext
unfolding open_parts
open_parts_sealed crypto host passphrase plaintext s sound m es en et =
    rw
      (
        es,
        en,
        et,
        m.derived,
        m.cipher_made,
        m.gcm_made,
        sound.opens m.block m.aead m.nonce plaintext additional_data m.gcm_made,
      )
      refl

open_body_sealed :
    (crypto : Crypto) (host : Host) (passphrase plaintext : Str) (s : Sealed)
    → FillsBuffers host
    → OpensSealed crypto
    → (m : Made crypto host passphrase plaintext s)
    → open_body crypto passphrase
        (m.salt ++ (m.nonce ++ m.aead.seal m.nonce plaintext additional_data))
      ≡ ok plaintext
unfolding open_body
open_body_sealed crypto host passphrase plaintext s fills sound m =
    let ciphertext = m.aead.seal m.nonce plaintext additional_data in
    let ls = fills.salt_filled m.salt m.salt_read in
    let ln = fills.nonce_filled m.nonce m.nonce_read in
    let rest = drop_append salt_size m.salt (m.nonce ++ ciphertext) ls in
    open_parts_sealed crypto host passphrase plaintext s sound m
      (take_append salt_size m.salt (m.nonce ++ ciphertext) ls)
      (ap (take nonce_size) rest ∙ take_append nonce_size m.nonce ciphertext ln)
      (ap (drop nonce_size) rest ∙ drop_append nonce_size m.nonce ciphertext ln)

open_payload_envelope :
    (crypto : Crypto) (passphrase body : Str)
    → 29 ≤ length body
    → open_payload crypto passphrase (additional_data ++ body) ≡ open_body crypto passphrase body
unfolding open_payload additional_data envelope_magic header_size codes str_eq
open_payload_envelope crypto passphrase body long = ground arith

-- What a successful preparation tells.
pub prepare-Made :
    (crypto : Crypto) (host : Host) (opts : EncryptOptions) (files : Files) (s : Sealed)
    → prepare crypto host opts files ≡ ok s
    → (plaintext : Str) × (lookup opts.input_path files ≡ some plaintext)
      × (is_blank plaintext ≡ false)
      × (check_options opts files ≡ ok tt)
      × Made crypto host opts.passphrase plaintext s
unfolding prepare
prepare-Made crypto host opts files s h =
    let (u, e₁, h₁) = >>=-eq-ok (check_options opts files) _ h in
    let (plaintext, e₂, h₂) =
      >>=-eq-ok (required (lookup opts.input_path files) (validation read_input)) _ h₁ in
    let (v, e₃, h₃) = >>=-eq-ok (guard (not (is_blank plaintext)) (validation input_empty)) _ h₂ in
    (
      plaintext,
      required-eq-ok _ _ e₂,
      not-true _ (guard-eq-ok _ _ e₃),
      e₁,
      seal_payload-Made crypto host opts.passphrase plaintext s h₃,
    )

write_sealed-ok :
    (host : Host) (opts : EncryptOptions) (files after : Files) (r : Result Error Sealed)
    (result : EncryptResult)
    → write_sealed host opts files r ≡ (ok result, after)
    → (s : Sealed) × (r ≡ ok s) × (after ≡ insert opts.output_path s.payload files)
unfolding write_sealed
write_sealed-ok host opts files after (ok s) result h =
    elim (Bool-cases (host.writable opts.output_path)) [
      | inl w ↦ (s, refl, sym (ap (λ p. p.1) (rw w at h)))
      | inr w ↦ absurd (cc (ap (λ p. p.0) (rw w at h)))
    ]
write_sealed-ok host opts files after (err e) result h = absurd (cc (ap (λ p. p.0) h))

length-Made :
    (crypto : Crypto) (host : Host) (passphrase plaintext : Str) (s : Sealed)
    → FillsBuffers host
    → OpensSealed crypto
    → is_blank plaintext ≡ false
    → (m : Made crypto host passphrase plaintext s)
    → 29 ≤ length (m.salt ++ (m.nonce ++ m.aead.seal m.nonce plaintext additional_data))
length-Made crypto host passphrase plaintext s fills sound given m =
    let ciphertext = m.aead.seal m.nonce plaintext additional_data in
    omega (
      arith,
      length-append m.salt (m.nonce ++ ciphertext),
      length-append m.nonce ciphertext,
      fills.salt_filled m.salt m.salt_read,
      fills.nonce_filled m.nonce m.nonce_read,
      sound.keeps_length m.block m.aead m.nonce plaintext additional_data m.gcm_made,
      not_blank-length plaintext given,
    )

open_payload_sealed :
    (crypto : Crypto) (host : Host) (passphrase plaintext : Str) (s : Sealed)
    → FillsBuffers host
    → OpensSealed crypto
    → is_blank plaintext ≡ false
    → Made crypto host passphrase plaintext s
    → open_payload crypto passphrase s.payload ≡ ok plaintext
unfolding envelope
open_payload_sealed crypto host passphrase plaintext s fills sound given m =
    let body = m.salt ++ (m.nonce ++ m.aead.seal m.nonce plaintext additional_data) in
    ap (λ (s : Sealed). open_payload crypto passphrase s.payload) m.made
    ∙ open_payload_envelope crypto passphrase body
        (length-Made crypto host passphrase plaintext s fills sound given m)
    ∙ open_body_sealed crypto host passphrase plaintext s fills sound m

passphrase_given :
    (opts : EncryptOptions) (files : Files)
    → check_options opts files ≡ ok tt
    → (is_empty opts.output_path ≡ false) × (is_empty opts.passphrase ≡ false)
unfolding check_options
passphrase_given opts files h = ground arith

-- A file that `EncryptFile` wrote without an error decrypts, with the same passphrase, to the bytes
-- of the input, if the random source fills its buffers and the AEAD opens what it sealed.
pub decrypt_file-encrypt_file :
    (crypto : Crypto) (host : Host) (opts : EncryptOptions) (files after : Files)
    (result : EncryptResult)
    → FillsBuffers host
    → OpensSealed crypto
    → encrypt_file crypto host opts files ≡ (ok result, after)
    → (plaintext : Str) × (lookup opts.input_path files ≡ some plaintext)
      × (decrypt_file crypto
            (record { input_path = opts.output_path; passphrase = opts.passphrase })
            after
          ≡ ok plaintext)
unfolding encrypt_file decrypt_file
decrypt_file-encrypt_file crypto host opts files after result fills sound h =
    let (s, e, stored) =
      write_sealed-ok host opts files after (prepare crypto host opts files) result h in
    let (plaintext, input, given, checked, m) = prepare-Made crypto host opts files s e in
    let (output_given, passphrase_given') = passphrase_given opts files checked in
    (
      plaintext,
      input,
      rw
          (
            output_given,
            passphrase_given',
            stored,
            lookup-insert_self opts.output_path s.payload files,
          )
          (open_payload_sealed crypto host opts.passphrase plaintext s fills sound given m),
    )
