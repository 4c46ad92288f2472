-- ===== src/Logger.antt =====
-- pkg/telemetry: log entries (logger.go), events and phases (emitter.go).
pub mod Phases
pub mod Brackets
use chainctl.Prelude.{
  ℕ, zero, suc, ◌+◌, ◌-◌, ◌*◌, ◌/◌, ◌%◌, ◌≤◌, ◌<◌, String, ◌≡◌, refl, sym, ap, ◌∙◌, subst, ◌≢◌, ◌↔◌,
  ◌⊎◌, inl, inr, Bool, true, false, not, ◌&&◌, ◌||◌, Option, none, some, List, [], ◌∷◌, ◌++◌, map,
  append-nil, append_assoc, arith, ltb, leb, ◌==◌, if◌then◌else◌, ==_iff, leb→le, Bool-cases,
  Option-cases, length, is_empty, take, drop, length-append, any, all, All, All-append,
}
use chainctl.Result.{
  ok, Result, ◌>>=◌, ◌>>◌, guard, map_err, of_error, >>=-eq-ok, Result-cases, err,
}
use chainctl.Text.{
  Str, codes, str_eq, has_prefix, contains, is_space, trim_left, trim_right, trim_space, is_blank,
  lower, upper, to_lower, to_upper, cons_head, split, cut, cut_last, join,
}
use chainctl.Dict.{
  Dict, insert, lookup, lookup-insert, lookup-insert_self, Distinct, remove, lookup-remove,
}

-- `severity_unset` is the empty text.
pub data Severity : Type 0 where
  severity_unset severity_info severity_warn severity_error : Severity

pub data Category : Type 0 where
  category_workflow category_command category_diagnostic category_config : Category

-- An error is the text that its `Error` method gives.
pub record Entry : Type 0 where
  pub category : Category
  pub message : Str
  pub severity : Severity
  pub step : Str
  pub command : Str
  pub stderr_excerpt : Str
  pub metadata : Dict Str
  pub error : Option Str

-- What `Logger.Emit` encodes, besides the timestamp and the workflow's id.
pub record Payload : Type 0 where
  pub category : Category
  pub message : Str
  pub severity : Severity
  pub step : Option Str
  pub command : Option Str
  pub stderr_excerpt : Option Str
  pub metadata : Dict Str

abbrev non_empty : Str → Option Str
non_empty [] = none
non_empty (c ∷ s) = some (c ∷ s)

abbrev or_info : Severity → Severity
or_info severity_unset = severity_info
or_info severity_info = severity_info
or_info severity_warn = severity_warn
or_info severity_error = severity_error

unfoldable pub payload_of : Entry → Payload
payload_of e = record {
  category = e.category;
  message = e.message;
  severity = elim e.error [ none ↦ or_info e.severity | some _ ↦ severity_error ];
  step = non_empty e.step;
  command = non_empty e.command;
  stderr_excerpt = non_empty e.stderr_excerpt;
  metadata = elim e.error [
    | none ↦ e.metadata
    | some text ↦ insert (codes "error") text e.metadata
  ];
}

pub data Phase : Type 0 where
  preflight_phase bootstrap_phase helm_phase upgrade_phase join_phase verify_phase : Phase

unfoldable pub phase_text : Phase → Str
unfolding codes
phase_text preflight_phase = codes "preflight"
phase_text bootstrap_phase = codes "bootstrap"
phase_text helm_phase = codes "helm"
phase_text upgrade_phase = codes "upgrade"
phase_text join_phase = codes "join"
phase_text verify_phase = codes "verify"

pub data Outcome : Type 0 where
  outcome_start outcome_success outcome_failure : Outcome

pub record Event : Type 0 where
  pub phase : Phase
  pub outcome : Outcome
  pub duration : ℕ
  pub metadata : Dict Str

-- One thing written: an entry of the logger or an event of the emitter.
pub data Line : Type 0 where
  entry_line : Entry → Line
  event_line : Event → Line
