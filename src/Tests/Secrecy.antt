-- ===== src/Tests/Secrecy.antt =====
-- Redaction, charts and phases at concrete inputs.
use chainctl.Prelude.{
  ℕ, zero, suc, ◌≡◌, refl, ◌↔◌, true, false, none, some, [], ◌∷◌, ◌++◌, arith, length, is_empty,
  any,
}
use chainctl.Result.{ok}
use chainctl.Text.{Str, codes, str_eq, has_prefix, contains, to_lower, cut}
use chainctl.Text.Laws.{Without}
use chainctl.Dict.{Dict}
use chainctl.Sanitizer.{
  redaction_placeholder, is_sensitive_flag, next_for_set_style_flag, sanitize_inline_assignment,
  sanitize_step, sanitize_args, sanitize_command, pattern_words, sanitize_text, no_transform,
}
use chainctl.Sanitizer.Commands.{
  pending, sanitized, IsSecretFlag, sanitize_command_hides_value, sanitize_command_hides_assignment,
}
use chainctl.Sanitizer.Matching.{IsAscii}
use chainctl.Sanitizer.Redaction.{assigned, sanitize_text_redacts}
use chainctl.Sanitizer.Output.{sanitize_text_leaks_long_value}
use chainctl.Profile.{Profile, bootstrap}
use chainctl.Logger.{helm_phase}
use chainctl.Logger.Phases.{Emitter, Work, Clock, emit_phase}
use chainctl.Logger.Brackets.{before_work, behind_work, returned, emit_phase-brackets}
use chainctl.Helm.{
  ResolveOptions, ResolveResult, Resolver, resolve, build_helm_args, logged_upgrade, Executor,
}
use chainctl.Helm.Secrecy.{
  IsPlain, HasPlainArgs, front, after, logged_upgrade_hides_passphrase,
  sensitive_values_path_leaks_passphrase,
}
use chainctl.Helm.Resolution.{Resolves, resolve_iff}

token_flag-IsSecretFlag : IsSecretFlag (codes "--token")
unfolding codes str_eq to_lower cut contains next_for_set_style_flag is_sensitive_flag
token_flag-IsSecretFlag = record { not_set_style = refl; no_assignment = refl; sensitive = refl }

join_idle : pending no_transform (codes "node" ∷ codes "join" ∷ []) ≡ no_transform
unfolding pending sanitize_step sanitize_inline_assignment codes str_eq to_lower cut contains
    next_for_set_style_flag is_sensitive_flag
join_idle = refl

sanitize_command_hides_value_example :
    sanitize_command
      (codes "node" ∷ codes "join" ∷ codes "--token" ∷ codes "ab.cd" ∷ codes "-v" ∷ [])
    ≡ sanitize_command
        (codes "node" ∷ codes "join" ∷ codes "--token" ∷ codes "ef.gh" ∷ codes "-v" ∷ [])
sanitize_command_hides_value_example =
    sanitize_command_hides_value (codes "node" ∷ codes "join" ∷ []) (codes "-v" ∷ [])
      (codes "--token") (codes "ab.cd") (codes "ef.gh") join_idle token_flag-IsSecretFlag

abbrev token_flag : Str
token_flag = 45 ∷ 116 ∷ 111 ∷ 107 ∷ 101 ∷ 110 ∷ []

token_sensitive : is_sensitive_flag (45 ∷ token_flag) ≡ true
unfolding is_sensitive_flag codes contains has_prefix to_lower
token_sensitive = refl

token_plain : Without b'=' (45 ∷ token_flag)
token_plain = ground arith

nothing_pending : pending no_transform [] ≡ no_transform
unfolding pending
nothing_pending = refl

sanitize_command_hides_assignment_example :
    sanitize_command ((45 ∷ token_flag ++ b'=' ∷ 1 ∷ []) ∷ [])
    ≡ sanitize_command ((45 ∷ token_flag ++ b'=' ∷ 2 ∷ []) ∷ [])
sanitize_command_hides_assignment_example =
    sanitize_command_hides_assignment [] [] 45 token_flag (1 ∷ []) (2 ∷ []) nothing_pending
      token_plain token_sensitive

abbrev token_env : Dict Str
token_env = (codes "API_TOKEN", 1 ∷ []) ∷ []

abbrev oken : Str
oken = 111 ∷ 107 ∷ 101 ∷ 110 ∷ []

token_known : any (str_eq (to_lower (84 ∷ oken))) pattern_words ≡ true
unfolding any str_eq to_lower pattern_words codes
token_known = refl

dashes_plain : Without b'=' (codes "--")
unfolding codes
dashes_plain = (λ h. cc h, (λ h. cc h, tt))

-- "--" in front of the word, and "a=b " in front of that.
sanitize_text_redacts_example :
    let text = codes "--" ++ assigned 84 oken ((97 ∷ 98 ∷ []) ++ b' ' ∷ 99 ∷ []) in
    let logged =
      codes "--" ++ assigned 84 oken (redaction_placeholder ++ sanitize_text (b' ' ∷ 99 ∷ [])) in
    (sanitize_text text ≡ logged)
    × (sanitize_text (codes "a=b" ++ b' ' ∷ text) ≡ sanitize_text (codes "a=b") ++ b' ' ∷ logged)
sanitize_text_redacts_example =
    sanitize_text_redacts (codes "a=b") (codes "--") b' ' 84 97 oken (98 ∷ []) (b' ' ∷ 99 ∷ []) refl
      dashes_plain token_known (refl, (refl, tt)) refl (omega arith)

abbrev repeated : ℕ → Str
repeated zero = []
repeated (suc n) = 97 ∷ repeated n

repeated-IsAscii : (n : ℕ) → IsAscii (repeated n)
repeated-IsAscii zero = tt
repeated-IsAscii (suc n) = ((refl, omega arith), repeated-IsAscii n)

repeated-Without : (n : ℕ) → Without b'=' (repeated n)
repeated-Without zero = tt
repeated-Without (suc n) = (λ h. omega arith, repeated-Without n)

length-repeated : (n : ℕ) → length (repeated n) ≡ n
length-repeated zero = refl
length-repeated (suc n) = omega (arith, length-repeated n)

sanitize_text_leaks_long_value_example :
    sanitize_text ((84 ∷ oken) ++ b'=' ∷ (repeated 128 ++ repeated 3))
    ≡ (84 ∷ oken) ++ b'=' ∷ (redaction_placeholder ++ repeated 3)
sanitize_text_leaks_long_value_example =
    sanitize_text_leaks_long_value 84 oken (repeated 128) (repeated 3) token_known
      (repeated-IsAscii 128) (length-repeated 128) (repeated-Without 3)

-- A release `r` in the namespace `n`.
abbrev upgrade_of : Str → Str → Profile
upgrade_of values passphrase = record {
  mode = bootstrap;
  cluster_endpoint = [];
  airgapped = false;
  bundle_path = [];
  encrypted_file = values;
  passphrase = passphrase;
  k3s_version = [];
  helm_release = 114 ∷ [];
  helm_namespace = 110 ∷ [];
}

letters-IsPlain : IsPlain (114 ∷ []) × IsPlain (110 ∷ []) × IsPlain (codes "v.enc")
unfolding IsPlain sanitize_step sanitize_inline_assignment codes str_eq to_lower cut contains
    has_prefix next_for_set_style_flag is_sensitive_flag
letters-IsPlain = (refl, refl, refl)

upgrade-HasPlainArgs : HasPlainArgs (upgrade_of (codes "v.enc") [])
upgrade-HasPlainArgs = record {
  release = letters-IsPlain.0;
  namespace = letters-IsPlain.1;
  values = letters-IsPlain.2;
}

abbrev silent : Executor
silent = λ p b. none

logged_upgrade_hides_passphrase_example :
    logged_upgrade silent (upgrade_of (codes "v.enc") (1 ∷ [])) none []
    ≡ logged_upgrade silent (upgrade_of (codes "v.enc") (2 ∷ [])) none []
logged_upgrade_hides_passphrase_example =
    logged_upgrade_hides_passphrase silent (upgrade_of (codes "v.enc") []) (1 ∷ []) (2 ∷ []) none []
      upgrade-HasPlainArgs refl refl refl

secrets_file-IsSecretFlag : IsSecretFlag (codes "secrets.yaml")
unfolding codes str_eq to_lower cut contains has_prefix next_for_set_style_flag is_sensitive_flag
secrets_file-IsSecretFlag = record { not_set_style = refl; no_assignment = refl; sensitive = refl }

secrets_file_given : is_empty (codes "secrets.yaml") ≡ false
unfolding codes
secrets_file_given = refl

passphrase_shown : sanitize_step no_transform (112 ∷ 119 ∷ []) ≡ (112 ∷ 119 ∷ [], no_transform)
unfolding sanitize_step sanitize_inline_assignment codes str_eq to_lower cut contains has_prefix
    next_for_set_style_flag is_sensitive_flag
passphrase_shown = refl

abbrev leaking : Profile
leaking = upgrade_of (codes "secrets.yaml") (112 ∷ 119 ∷ [])

sensitive_values_path_leaks_passphrase_example :
    sanitize_args no_transform (build_helm_args leaking)
    ≡ sanitized no_transform (front leaking)
      ++ codes "--values"
        ∷ codes "secrets.yaml"
        ∷ redaction_placeholder
        ∷ (112 ∷ 119 ∷ [])
        ∷ sanitize_args no_transform (after leaking)
sensitive_values_path_leaks_passphrase_example =
    sensitive_values_path_leaks_passphrase leaking letters-IsPlain.0 letters-IsPlain.1
      secrets_file-IsSecretFlag secrets_file_given refl passphrase_shown

abbrev chart_options : ResolveOptions
chart_options = record { oci_reference = codes "OCI://c"; bundle_path = []; bundle_cache_dir = [] }

abbrev pulling : Resolver
pulling = record {
  puller = some (λ reference. ok (record { chart_path = 1 ∷ []; digest = 2 ∷ [] }));
  bundle_loader = none;
}

abbrev nothing_resolved : ResolveResult
nothing_resolved = record {
  source = record { type_of = []; reference = []; digest = [] };
  chart_path = [];
  bundle = none;
}

resolve_iff_example :
    (resolve pulling chart_options ≡ ok nothing_resolved)
    ↔ Resolves pulling chart_options nothing_resolved
resolve_iff_example = resolve_iff pulling chart_options nothing_resolved

abbrev writing : Emitter
writing = record { accepts = λ out line. true; has_logger = true }

abbrev failing_work : Work ℕ
failing_work = λ out calls. (some (1 ∷ []), out, suc calls)

abbrev one_second : Clock
one_second = record { duration = 1_000_000_000; text = codes "1s" }

emit_phase-brackets_example : emit_phase writing helm_phase [] one_second failing_work [] 0 ≡ (
  returned (some (1 ∷ [])),
  ([] ++ before_work writing helm_phase [])
      ++ behind_work writing helm_phase [] one_second (some (1 ∷ [])),
  1,
)
emit_phase-brackets_example =
    emit_phase-brackets writing helm_phase [] one_second failing_work [] 0 (λ out line. refl)
