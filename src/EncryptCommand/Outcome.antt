-- ===== src/EncryptCommand/Outcome.antt =====
-- `runEncryptCommand`: the passphrase that it settles on and what it writes.
use chainctl.Prelude.{
  ◌≡◌, refl, ap, subst, ◌⊎◌, inl, inr, true, false, Option, none, some, Bool-cases,
}
use chainctl.Result.{map_err-eq-ok, Result, ok, err, Result-cases}
use chainctl.Exec.{modify, ◌>>=◌, bind_lift-elim, bind-elim, Keeps, keeps_rules}
use chainctl.Text.{Str, codes, str_eq, is_blank}
use chainctl.Text.Laws.{str_eq_iff}
use chainctl.Dict.{lookup}
use chainctl.Secrets.{Crypto, EncryptOptions, EncryptResult, Files, encrypt_file, decrypt_file}
use chainctl.Secrets
use chainctl.Secrets.Envelope.{FillsBuffers, OpensSealed, decrypt_file-encrypt_file}
use chainctl.EncryptCommand.{
  Options, Error, Output, Terminal, World, encrypt_failed, validate_encrypt_paths,
  normalize_encrypt_format, ask, prompt_for_passphrase, resolve_passphrase, encrypt_step, print,
  render_encrypt_result, run_encrypt_command,
}

abbrev pub with_passphrase : Options → Str → EncryptOptions
with_passphrase o passphrase = record {
  input_path = o.input_path;
  output_path = o.output_path;
  passphrase = passphrase;
  overwrite = o.overwrite;
}

module _ {T : Type 0} (terminal : Terminal T) where
  -- The same text was typed twice at the terminal.
  abbrev Typed : T → Str → Type 0
  Typed t p =
      (terminal.is_terminal ≡ true)
      × ((terminal.read_password t).0 ≡ ok p)
      × ((terminal.read_password (terminal.read_password t).1).0 ≡ ok p)

  -- The passphrase is the one that the option gives or, where that is blank, the one typed twice.
  abbrev pub Settled : Options → T → Str → Type 0
  Settled o t p =
      ((is_blank o.passphrase ≡ false) × (p ≡ o.passphrase))
      ⊎ ((is_blank o.passphrase ≡ true) × Typed t p)

  -- No file was touched, and what is returned has `P`.
  abbrev Untouched {ℓ} : {E : Type 0} → Files → (Str → Type ℓ) → Result E Str × World T → Type ℓ
  Untouched files P (r, after) = (after.files ≡ files) × ((p : Str) → r ≡ ok p → P p)

  prompt_for_passphrase-Untouched :
      (w : World T) → Untouched w.files (Typed w.input) (prompt_for_passphrase terminal w)
  unfolding prompt_for_passphrase ask ◌>>=◌
  prompt_for_passphrase-Untouched w =
      let first = terminal.read_password w.input in
      let second = terminal.read_password first.1 in
      elim (Bool-cases terminal.is_terminal) [
        | inr off ↦ rw off (refl, λ p h. absurd (cc h))
        | inl on ↦ rw on (elim (Result-cases first.0) [
          | inr (e, failed) ↦ rw failed (refl, λ p h. absurd (cc h))
          | inl (pass1, typed) ↦ rw typed (elim (Result-cases second.0) [
            | inr (e, failed) ↦ rw failed (refl, λ p h. absurd (cc h))
            | inl (pass2, again) ↦ rw again (elim (Bool-cases (str_eq pass1 pass2)) [
              | inr differ ↦ rw differ (refl, λ p h. absurd (cc h))
              | inl same ↦ rw same (
                refl,
                λ p h. let equal = (str_eq_iff pass1 pass2).0 same in (refl, cc h, cc (h, equal)),
              )
            ])
          ])
        ])
      ]

  resolve_passphrase-Untouched :
      (o : Options) (w : World T)
      → Untouched w.files (Settled o w.input) (resolve_passphrase terminal o.passphrase w)
  unfolding resolve_passphrase
  resolve_passphrase-Untouched o w = elim (Bool-cases (is_blank o.passphrase)) [
    | inr given ↦ rw given (refl, λ p h. inl (refl, cc h))
    | inl blank ↦
        let (untouched, typed) = prompt_for_passphrase-Untouched w in
        rw blank (untouched, λ p h. inr (refl, typed p (map_err-eq-ok _ _ h)))
  ]

  resolve_passphrase-Settled :
      (o : Options) (w : World T) (p : Str)
      → Settled o w.input p
      → (resolve_passphrase terminal o.passphrase w).0 ≡ ok p
  unfolding resolve_passphrase prompt_for_passphrase ask ◌>>=◌
  resolve_passphrase-Settled o w p (inl (given, is)) = rw given (cc is)
  resolve_passphrase-Settled o w p (inr (blank, (on, first, second))) =
      rw (blank, on, first, second, (str_eq_iff p p).1 refl) refl

  abbrev Held : Files → World T → Type 0
  Held files w = w.files ≡ files

  print-Keeps : (files : Files) (output : Output) → Keeps (Held files) (print terminal output)
  unfolding print modify
  print-Keeps files output = record { at = λ w h. h }

  render_encrypt_result-Keeps :
      (files : Files) (encode_error : Option Str) (format : Str) (result : EncryptResult)
      → Keeps (Held files) (render_encrypt_result terminal encode_error format (some result))
  unfolding render_encrypt_result
  render_encrypt_result-Keeps files none format result = search (keeps_rules, print-Keeps)
  render_encrypt_result-Keeps files (some text) format result = search (keeps_rules, print-Keeps)

  render_encrypt_result_returns :
      (encode_error : Option Str) (format : Str) (result : EncryptResult) (w : World T)
      → let r = (render_encrypt_result terminal encode_error format (some result) w).0 in
        (r ≡ ok tt) ⊎ ((text : Str) × (encode_error ≡ some text))
  unfolding render_encrypt_result print modify
  render_encrypt_result_returns none format result w =
      elim (Bool-cases (str_eq format (codes "json"))) [
        | inl json ↦ rw json (inl refl)
        | inr other ↦ rw other (inl refl)
      ]
  render_encrypt_result_returns (some text) format result w = inr (text, refl)

  -- The paths or the format are refused, or there is no passphrase to settle on.
  abbrev pub Refused : Options → T → Error → Type 0
  Refused o t e =
      (validate_encrypt_paths o ≡ err e)
      ⊎ (normalize_encrypt_format o.format ≡ err e)
      ⊎ ((p : Str) → ¬ Settled o t p)

  -- The run is refused with the files as they were, or it settles on a passphrase and leaves the
  -- files as `EncryptFile` does: where that fails, the run fails with its error, and otherwise the
  -- run returns, unless the JSON encoder fails.
  abbrev pub Ends :
      Crypto
      → Secrets.Host
      → Option Str
      → Options
      → World T
      → Result Error (Unit {0}) × World T
      → Type 0
  Ends crypto host encode_error o before (r, after) =
      ((e : Error) × (r ≡ err e) × (after.files ≡ before.files) × Refused o before.input e)
      ⊎ ((p : Str) × Settled o before.input p
          × (let (result, files) = encrypt_file crypto host (with_passphrase o p) before.files in
              (after.files ≡ files)
              × (((e : Secrets.Error) × (result ≡ err e) × (r ≡ err (encrypt_failed e)))
                  ⊎ ((made : EncryptResult) × (result ≡ ok made)
                      × ((r ≡ ok tt) ⊎ ((text : Str) × (encode_error ≡ some text)))))))

  encrypt_step-Ends :
      (crypto : Crypto) (host : Secrets.Host) (encode_error : Option Str) (o : Options)
      (format p : Str) (before w : World T)
      → w.files ≡ before.files
      → Settled o before.input p
      → Ends crypto host encode_error o before (
          (encrypt_step terminal crypto host (with_passphrase o p)
              >>= (λ result. render_encrypt_result terminal encode_error format (some result)))
            w)
  unfolding encrypt_step ◌>>=◌
  encrypt_step-Ends crypto host encode_error o format p before w same settled =
      let end = encrypt_file crypto host (with_passphrase o p) before.files in
      rw same (
        inr (
          p,
          settled,
          elim (Result-cases end.0) [
            | inl (made, returned) ↦ rw returned (
              (render_encrypt_result-Keeps end.1 encode_error format made).at
                  (record w { files = end.1 }) refl,
              inr (
                made,
                refl,
                render_encrypt_result_returns encode_error format made (record w { files = end.1 }),
              ),
            )
            | inr (e, failed) ↦ rw failed (refl, inl (e, refl, refl))
          ],
        ))

  encrypt_command-Ends :
      (crypto : Crypto) (host : Secrets.Host) (encode_error : Option Str) (o : Options)
      (w : World T)
      → Ends crypto host encode_error o w
          (run_encrypt_command terminal crypto host encode_error o w)
  unfolding run_encrypt_command
  encrypt_command-Ends crypto host encode_error o w =
      let End = Ends crypto host encode_error o w in
      bind_lift-elim End (validate_encrypt_paths o) _ w
        (λ _ _.
          bind_lift-elim End (normalize_encrypt_format o.format) _ w
            (λ format _.
              bind-elim End (resolve_passphrase terminal o.passphrase) _ w
                (λ p mid ran.
                  let (same, settled) =
                    subst (Untouched w.files (Settled o w.input)) ran
                      (resolve_passphrase-Untouched o w) in
                  encrypt_step-Ends crypto host encode_error o format p w mid same (settled p refl))
                (λ e mid failed. inl (
                  e,
                  refl,
                  (subst (Untouched w.files (Settled o w.input)) failed
                      (resolve_passphrase-Untouched o w)).0,
                  inr (
                      inr λ p settled.
                        cc (resolve_passphrase-Settled o w p settled, ap (λ x. x.0) failed)),
                )))
            (λ e refused. inl (e, refl, refl, inr (inl refused))))
        (λ e refused. inl (e, refl, refl, inl refused))

-- A run of `encrypt-values` either fails without a change of a file, and then the paths are refused,
-- the format is refused, or there is no passphrase: the option is blank, and the input is no
-- terminal, cannot be read or gives two different texts. Or it settles on the passphrase of the
-- option, as it stands, or on the one typed twice, and leaves the files as `EncryptFile` with that
-- passphrase does: where that fails the run fails with its error, and else it returns, unless the
-- JSON encoder has an error.
pub run_encrypt_command-Ends :
    {T : Type 0} (terminal : Terminal T) (crypto : Crypto) (host : Secrets.Host)
    (encode_error : Option Str) (o : Options) (w : World T)
    → Ends terminal crypto host encode_error o w
        (run_encrypt_command terminal crypto host encode_error o w)
run_encrypt_command-Ends terminal = encrypt_command-Ends terminal

-- Where `encrypt-values` returns, its output decrypts to the bytes that its input had, with the
-- passphrase of the option or, where that is blank, with the text that was typed twice, if the random
-- source fills its buffers and the AEAD opens what it sealed.
pub decrypt_file-run_encrypt_command :
    {T : Type 0} (terminal : Terminal T) (crypto : Crypto) (host : Secrets.Host)
    (encode_error : Option Str) (o : Options) (w after : World T)
    → FillsBuffers host
    → OpensSealed crypto
    → run_encrypt_command terminal crypto host encode_error o w ≡ (ok tt, after)
    → (p : Str) × Settled terminal o w.input p
      × ((plaintext : Str) × (lookup o.input_path w.files ≡ some plaintext)
          × (decrypt_file crypto (record { input_path = o.output_path; passphrase = p }) after.files
              ≡ ok plaintext))
decrypt_file-run_encrypt_command terminal crypto host encode_error o w after fills sound h =
    elim (subst (Ends terminal crypto host encode_error o w) h
      (run_encrypt_command-Ends terminal crypto host encode_error o w)) [
        | inl (e, failed, _, _) ↦ absurd (cc failed)
        | inr (p, settled, (_, inl (e, _, failed))) ↦ absurd (cc failed)
        | inr (p, settled, (left, inr (made, returned, _))) ↦ (
          p,
          settled,
          decrypt_file-encrypt_file crypto host (with_passphrase o p) w.files after.files made fills
              sound (cc (returned, left)),
        )
      ]
