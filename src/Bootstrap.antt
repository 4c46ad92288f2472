-- ===== src/Bootstrap.antt =====
-- pkg/bootstrap: the orchestrator of the k3s installation (bootstrap.go) and the runner that logs
-- (runner.go). A command runs in a world of its own type.
pub mod Commands
use chainctl.Prelude.{
  ℕ, zero, suc, ◌+◌, ◌-◌, ◌*◌, ◌/◌, ◌%◌, ◌≤◌, ◌<◌, String, ◌≡◌, refl, sym, ap, ◌∙◌, subst, ◌≢◌, ◌↔◌,
  ◌⊎◌, inl, inr, Bool, true, false, not, ◌&&◌, ◌||◌, Option, none, some, List, [], ◌∷◌, ◌++◌, map,
  append-nil, append_assoc, arith, ltb, leb, ◌==◌, if◌then◌else◌, ==_iff, leb→le, Bool-cases,
  Option-cases, not-true, length, is_empty, take, drop, length-append, take_append, drop_append,
  any, all, All, All-append,
}
use chainctl.Text.{
  Str, codes, str_eq, has_prefix, contains, is_space, trim_left, trim_right, trim_space, is_blank,
  lower, upper, to_lower, to_upper, cons_head, split, cut, cut_last, join,
}
use chainctl.Dict.{
  Dict, lookup, insert, lookup-insert, lookup-insert_self, Distinct, remove, lookup-remove,
}
use chainctl.Profile.{
  Profile, Mode, bootstrap, reuse, LoadOptions, mode_text, default_string, parse_mode, is_reuse,
  base_profile, validate, profile_string, unknown_mode, cluster_endpoint_required,
  encrypted_file_required, bundle_path_required,
}
use chainctl.Sanitizer.{
  sanitize_command, sanitize_env, sanitize_text, Transform, redaction_placeholder,
  allowlisted_env_keys, is_sensitive_flag, is_sensitive_key, sanitize_pair,
  sanitize_set_expressions, next_for_set_style_flag, sanitize_inline_assignment,
  sanitize_command_arg, sanitize_step, sanitize_args, sanitize_env_value, pattern_words,
  is_regexp_space, value_length, match_word, match_at, replace_all, no_transform, set_transform,
  redact_transform,
}
use chainctl.Logger.{
  Severity, Category, Entry, Payload, Phase, Outcome, Event, Line, payload_of, phase_text,
  severity_unset, severity_info, severity_warn, severity_error, category_workflow, category_command,
  category_diagnostic, category_config, preflight_phase, bootstrap_phase, helm_phase, upgrade_phase,
  join_phase, verify_phase, outcome_start, outcome_success, outcome_failure, entry_line, event_line,
}

pub data Error : Type 0 where
  checksum_missing invalid_path source_missing : Error
  command_failed wait_failed : Str → Error
  exited : Error

-- A process's exit code; `below_zero` is one below 0, as after a signal.
pub data ExitCode : Type 0 where
  code : ℕ → ExitCode
  below_zero : ℕ → ExitCode

-- `failure` is the text of the result's error.
pub record CommandResult : Type 0 where
  pub exit_code : ExitCode
  pub stderr : Str
  pub failure : Option Str

-- The variables that the orchestrator reads and whether os.Stat finds a path.
pub record Host : Type 0 where
  pub install_sha256 : Str
  pub install_path : Str
  pub install_url : Str
  pub exists : Str → Bool

-- `fmt.Sprintf` of the command that installs from a file.
unfoldable pub path_command : Str → Str → Str
path_command sha path =
    codes "set -euo pipefail; printf '%s  %s\\n' '"
    ++ (sha ++ (codes "' '" ++ path ++ codes "' | sha256sum -c -; sh '" ++ path ++ codes "'"))

-- `fmt.Sprintf` of the command that downloads the script first.
unfoldable pub url_command : Str → Str → Str
url_command sha url =
    (codes "set -euo pipefail; tmp=$(mktemp); trap 'rm -f $tmp' EXIT; curl -sfL '"
      ++ url
      ++ codes "' -o \"$tmp\"; printf '%s  %s\\n' '")
    ++ (sha ++ codes "' \"$tmp\" | sha256sum -c -; sh \"$tmp\"")

unfoldable pub bootstrap_env : Profile → Dict Str
bootstrap_env p =
    (codes "INSTALL_K3S_CHANNEL", p.k3s_version)
    ∷ (codes "INSTALL_K3S_EXEC", codes "server --write-kubeconfig-mode=644 --disable traefik")
    ∷ []

-- `Runner.Run` and `Waiter.Wait`, `none` for a nil error.
abbrev pub Run : Type 0 → Type 0
Run World = List Str → Dict Str → World → Option Str × World

abbrev pub Wait : Type 0 → Type 0
Wait World = World → Option Str × World

module _ {World : Type 0} where
  waited : Option Str × World → Option Error × World
  waited (none, w) = (none, w)
  waited (some text, w) = (some (wait_failed text), w)

  wait_behind : Wait World → Option Str × World → Option Error × World
  unfolding waited
  wait_behind wait (none, w) = waited (wait w)
  wait_behind wait (some text, w) = (some (command_failed text), w)

  unfoldable pub run_and_wait :
      Run World → Wait World → Str → Profile → World → Option Error × World
  unfolding wait_behind
  run_and_wait run wait command p w =
      wait_behind wait (run (codes "sh" ∷ codes "-c" ∷ command ∷ []) (bootstrap_env p) w)

  unfoldable pub bootstrap_cluster :
      Host → Run World → Wait World → Profile → World → Option Error × World
  bootstrap_cluster host run wait p w = elim p.mode [
    | reuse ↦ (none, w)
    | bootstrap ↦
        if is_empty host.install_sha256
        then (some checksum_missing, w)
        else if not (is_empty host.install_path)
        then (if not (host.exists host.install_path)
            then (some invalid_path, w)
            else run_and_wait run wait (path_command host.install_sha256 host.install_path) p w)
        else if is_empty host.install_url
        then (some source_missing, w)
        else run_and_wait run wait (url_command host.install_sha256 host.install_url) p w
  ]

-- `envMetadata`
unfoldable pub env_metadata : Dict Str → Dict Str
env_metadata [] = []
env_metadata ((key, value) ∷ env) = insert (codes "env." ++ to_lower key) value (env_metadata env)

abbrev exit_zero : ExitCode → Bool
exit_zero (code zero) = true
exit_zero (code (suc n)) = false
exit_zero (below_zero n) = false

-- The exit code that is reported.
unfoldable pub reported_code : CommandResult → ExitCode
reported_code r = elim r.failure [
  | none ↦ r.exit_code
  | some _ ↦ if exit_zero r.exit_code then code 1 else r.exit_code
]

unfoldable pub severity_of : CommandResult → Severity
unfolding reported_code
severity_of r = elim r.failure [
  | none ↦ if exit_zero (reported_code r) then severity_info else severity_error
  | some _ ↦ severity_error
]

unfoldable pub run_error : CommandResult → Option Error
unfolding reported_code
run_error r = elim r.failure [
  | none ↦ if exit_zero (reported_code r) then none else some exited
  | some text ↦ some (command_failed text)
]

-- The text that is logged of the standard error.
unfoldable pub stderr_excerpt_of : ℕ → Str → Str
stderr_excerpt_of limit stderr =
    sanitize_text
      (if not (limit == 0) && ltb limit (length stderr) then take limit stderr else stderr)

unfoldable pub start_entry : List Str → Dict Str → Entry
start_entry cmd env = record {
  category = category_command;
  message = codes "bootstrap command start";
  severity = severity_info;
  step = [];
  command = sanitize_command cmd;
  stderr_excerpt = [];
  metadata = env_metadata (sanitize_env env);
  error = none;
}

-- `itoa` stands for strconv.Itoa.
unfoldable pub complete_entry : (ExitCode → Str) → ℕ → List Str → Dict Str → CommandResult → Entry
unfolding severity_of stderr_excerpt_of
complete_entry itoa limit cmd env r = record {
  category = category_command;
  message = codes "bootstrap command complete";
  severity = severity_of r;
  step = [];
  command = sanitize_command cmd;
  stderr_excerpt = stderr_excerpt_of limit r.stderr;
  metadata = insert (codes "exitCode") (itoa (reported_code r)) (env_metadata (sanitize_env env));
  error = r.failure;
}

-- `LoggingRunner.Run` over a log; `exec` runs the command.
unfoldable pub run_logged :
    (ExitCode → Str)
    → ℕ
    → (List Str → Dict Str → CommandResult)
    → List Str
    → Dict Str
    → List Entry
    → Option Error × List Entry
unfolding run_error start_entry complete_entry
run_logged itoa limit exec cmd env log =
    let r = exec cmd env in
    (run_error r, log ++ start_entry cmd env ∷ complete_entry itoa limit cmd env r ∷ [])
