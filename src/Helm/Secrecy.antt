-- ===== src/Helm/Secrecy.antt =====
-- internal/cli/logging and pkg/helm/executor.go: what the entries of a helm upgrade tell of the
-- passphrase of the values.
use chainctl.Prelude.{
  ◌≡◌, refl, sym, ap, ◌∙◌, false, Option, List, [], ◌∷◌, ◌++◌, append_assoc, if◌then◌else◌,
  is_empty, some,
}
use chainctl.Text.{Str, codes, str_eq, has_prefix, contains, to_lower, cut}
use chainctl.Sanitizer.{
  Transform, redaction_placeholder, is_sensitive_flag, next_for_set_style_flag,
  sanitize_inline_assignment, sanitize_step, sanitize_args, sanitize_command, no_transform,
  sanitize_text,
}
use chainctl.Sanitizer.Commands.{
  IsSecretFlag, pending, sanitized, sanitize_args-append, sanitize_command_hides_value,
  sanitize_args-cons, sanitize_args_secret,
}
use chainctl.Profile.{Profile}
use chainctl.Dict.{lookup, lookup-insert_self}
use chainctl.Logger.{payload_of, Entry}
use chainctl.Bundle.{Bundle}
use chainctl.Helm.{
  option_args, build_helm_args, upgrade_metadata, upgrade_start, upgrade_complete, Executor,
  logged_upgrade,
}

-- An argument that leaves the next one alone.
unfoldable pub IsPlain : Str → Type 0
IsPlain arg = (sanitize_step no_transform arg).1 ≡ no_transform

flag_of : Str
flag_of = codes "--values-passphrase"

-- The arguments in front of the values.
unfoldable pub front : Profile → List Str
front p =
    codes "helm"
    ∷ codes "upgrade"
    ∷ ((if is_empty p.helm_release then [] else p.helm_release ∷ [])
        ++ option_args (codes "--namespace") p.helm_namespace)

-- The arguments in front of the passphrase.
before : Profile → List Str
before p = front p ++ option_args (codes "--values") p.encrypted_file

unfoldable pub after : Profile → List Str
after p = option_args (codes "--bundle-path") p.bundle_path

args_around :
    (p : Profile)
    → is_empty p.passphrase ≡ false
    → build_helm_args p ≡ before p ++ flag_of ∷ p.passphrase ∷ after p
unfolding build_helm_args before front after flag_of
args_around p given = rw given (simp (append_assoc))

pending-append :
    (t : Transform) (xs ys : List Str) → pending t (xs ++ ys) ≡ pending (pending t xs) ys
unfolding pending
pending-append t [] ys = refl
pending-append t (x ∷ xs) ys = pending-append (sanitize_step t x).1 xs ys

flag-IsSecretFlag : IsSecretFlag flag_of
unfolding flag_of codes str_eq to_lower cut contains next_for_set_style_flag is_sensitive_flag
flag-IsSecretFlag = record { not_set_style = refl; no_assignment = refl; sensitive = refl }

-- The words that stand in the command leave their next argument alone.
words-IsPlain :
    IsPlain (codes "helm")
    × IsPlain (codes "upgrade")
    × IsPlain (codes "--namespace")
    × IsPlain (codes "--values")
unfolding IsPlain sanitize_step sanitize_inline_assignment codes str_eq to_lower cut contains
    has_prefix next_for_set_style_flag is_sensitive_flag
words-IsPlain = (refl, refl, refl, refl)

-- The values given on the command line leave their next argument alone.
pub record HasPlainArgs (p : Profile) : Type 0 where
  pub release : IsPlain p.helm_release
  pub namespace : IsPlain p.helm_namespace
  pub values : IsPlain p.encrypted_file

pending-plain :
    (x : Str) (xs : List Str) → IsPlain x → pending no_transform (x ∷ xs) ≡ pending no_transform xs
unfolding pending IsPlain
pending-plain x xs h = ap (λ next. pending next xs) h

pending-option_args :
    (flag value : Str)
    → IsPlain flag
    → IsPlain value
    → pending no_transform (option_args flag value) ≡ no_transform
unfolding pending
pending-option_args flag [] f v = refl
pending-option_args flag (c ∷ value) f v =
    pending-plain flag ((c ∷ value) ∷ []) f ∙ pending-plain (c ∷ value) [] v

pending-release :
    (release : Str)
    → IsPlain release
    → pending no_transform (if is_empty release then [] else release ∷ []) ≡ no_transform
unfolding pending
pending-release [] h = refl
pending-release (c ∷ release) h = pending-plain (c ∷ release) [] h

pending-front :
    (p : Profile)
    → IsPlain p.helm_release
    → IsPlain p.helm_namespace
    → pending no_transform (front p) ≡ no_transform
unfolding front
pending-front p release namespace =
    let (helm, upgrade, namespace_flag, _) = words-IsPlain in
    let name = if is_empty p.helm_release then [] else p.helm_release ∷ [] in
    let space = option_args (codes "--namespace") p.helm_namespace in
    rw
      (
        pending-plain (codes "helm") (codes "upgrade" ∷ (name ++ space)) helm,
        pending-plain (codes "upgrade") (name ++ space) upgrade,
        pending-append no_transform name space,
        pending-release p.helm_release release,
      )
      (pending-option_args (codes "--namespace") p.helm_namespace namespace_flag namespace)

pending-before : (p : Profile) → HasPlainArgs p → pending no_transform (before p) ≡ no_transform
unfolding before
pending-before p h =
    rw
      (
        pending-append no_transform (front p) (option_args (codes "--values") p.encrypted_file),
        pending-front p h.release h.namespace,
      )
      (pending-option_args (codes "--values") p.encrypted_file words-IsPlain.3 h.values)

abbrev pub with_passphrase : Str → Profile → Profile
with_passphrase s p = record p { passphrase = s }

command_hides_passphrase :
    (p : Profile) (s t : Str)
    → HasPlainArgs p
    → is_empty s ≡ false
    → is_empty t ≡ false
    → sanitize_command (build_helm_args (with_passphrase s p))
      ≡ sanitize_command (build_helm_args (with_passphrase t p))
unfolding before front after
command_hides_passphrase p s t h s-given t-given =
    ap sanitize_command (args_around (with_passphrase s p) s-given)
    ∙ sanitize_command_hides_value (before p) (after p) flag_of s t (pending-before p h)
        flag-IsSecretFlag
    ∙ ap sanitize_command (sym (args_around (with_passphrase t p) t-given))

-- The entries of a helm upgrade do not depend on the passphrase of the values, if neither the
-- release, nor the namespace, nor the path of the values makes the sanitizer change the argument
-- that follows it, and the executor's error is the same.
pub logged_upgrade_hides_passphrase :
    (exec : Executor) (p : Profile) (s t : Str) (b : Option Bundle) (log : List Entry)
    → HasPlainArgs p
    → is_empty s ≡ false
    → is_empty t ≡ false
    → exec (with_passphrase s p) b ≡ exec (with_passphrase t p) b
    → logged_upgrade exec (with_passphrase s p) b log
      ≡ logged_upgrade exec (with_passphrase t p) b log
unfolding logged_upgrade upgrade_start upgrade_complete upgrade_metadata
logged_upgrade_hides_passphrase exec p s t b log h s-given t-given same =
    rw (same, command_hides_passphrase p s t h s-given t-given) refl

values_shown : sanitize_step no_transform (codes "--values") ≡ (codes "--values", no_transform)
unfolding sanitize_step sanitize_inline_assignment codes str_eq to_lower cut contains
    next_for_set_style_flag is_sensitive_flag
values_shown = refl

-- A path of the values that the sanitizer takes for a sensitive flag makes it hide the flag
-- `--values-passphrase` and show the passphrase behind it, if neither the release nor the namespace
-- makes the sanitizer change the argument behind it, and the passphrase, given and by itself, is
-- shown as it is and does not either.
pub sensitive_values_path_leaks_passphrase :
    (p : Profile)
    → IsPlain p.helm_release
    → IsPlain p.helm_namespace
    → IsSecretFlag p.encrypted_file
    → is_empty p.encrypted_file ≡ false
    → is_empty p.passphrase ≡ false
    → sanitize_step no_transform p.passphrase ≡ (p.passphrase, no_transform)
    → sanitize_args no_transform (build_helm_args p)
      ≡ sanitized no_transform (front p)
        ++ codes "--values"
          ∷ p.encrypted_file
          ∷ redaction_placeholder
          ∷ p.passphrase
          ∷ sanitize_args no_transform (after p)
unfolding before
sensitive_values_path_leaks_passphrase p release namespace path path-given given shown =
    let rest = p.passphrase ∷ after p in
    rw
      (
        args_around p given,
        path-given,
        append_assoc (front p) (codes "--values" ∷ p.encrypted_file ∷ []) (flag_of ∷ rest),
        sanitize_args-append no_transform (front p)
            (codes "--values" ∷ p.encrypted_file ∷ flag_of ∷ rest),
        pending-front p release namespace,
        sanitize_args-cons no_transform (codes "--values") (p.encrypted_file ∷ flag_of ∷ rest),
        values_shown,
        sanitize_args_secret p.encrypted_file flag_of rest path,
        sanitize_args-cons no_transform p.passphrase (after p),
        shown,
      )
      refl

-- The entry of a failed upgrade is encoded with the text of the executor's error as it is, whatever
-- `SanitizeText` makes of it for the excerpt.
payload_of-upgrade_complete :
    (p : Profile) (b : Option Bundle) (text : Str)
    → let payload = payload_of (upgrade_complete p b (some text)) in
      (lookup (codes "error") payload.metadata ≡ some text)
      × ((upgrade_complete p b (some text)).stderr_excerpt ≡ sanitize_text text)
unfolding payload_of upgrade_complete
payload_of-upgrade_complete p b text =
    (lookup-insert_self (codes "error") text (upgrade_metadata p b), refl)
