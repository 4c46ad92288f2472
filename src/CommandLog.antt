-- ===== src/CommandLog.antt =====
-- The log entries of the commands: cmd/chainctl/app/logging.go, of which the logging.go of the
-- other commands are copies with other names of steps, and `EmitTelemetry` of
-- cmd/chainctl/declarative/binder.go. The map of an entry is a value here, so it needs no clone.
use chainctl.Prelude.{true, false, Option, none, some, List, [], ◌∷◌, ◌++◌, if◌then◌else◌, is_empty}
use chainctl.Text.{Str, codes, join}
use chainctl.Dict.{Dict, insert}
use chainctl.Sanitizer.{sanitize_command, sanitize_text}
use chainctl.Config.{
  Value, ResolvedInvocation, source_text, FlagSet, bool_value, string_value, list_value,
}
use chainctl.Logger.{
  Severity, Entry, severity_info, severity_error, category_workflow, category_command,
  category_config,
}

unfoldable pub workflow_entry : Str → Str → Severity → Dict Str → Option Str → Entry
workflow_entry step message severity metadata error = record {
  category = category_workflow;
  message = message;
  severity = severity;
  step = step;
  command = [];
  stderr_excerpt = [];
  metadata = metadata;
  error = error;
}

unfoldable pub workflow_start : Str → Dict Str → Entry
workflow_start step metadata =
    workflow_entry step (step ++ codes " workflow started") severity_info metadata none

unfoldable pub workflow_success : Str → Dict Str → Entry
workflow_success step metadata =
    workflow_entry step (step ++ codes " workflow completed") severity_info metadata none

unfoldable pub workflow_failure : Str → Dict Str → Str → Entry
workflow_failure step metadata error =
    workflow_entry step (step ++ codes " workflow failed") severity_error metadata (some error)

-- `error` is the text of the command's error, which is also its stderr, as every caller has it; the
-- severity is that of an error exactly if there is one.
unfoldable pub command_entry : Str → List Str → Dict Str → Option Str → Entry
command_entry step args metadata error = record {
  category = category_command;
  message = step ++ codes " command";
  severity = elim error [ none ↦ severity_info | some _ ↦ severity_error ];
  step = step;
  command = sanitize_command args;
  stderr_excerpt = elim error [ none ↦ sanitize_text [] | some text ↦ sanitize_text text ];
  metadata = metadata;
  error = error;
}

-- `if len(values) > 0 { metadata[key] = strings.Join(values, ",") }`
abbrev pub note_list : Str → List Str → Dict Str → Dict Str
note_list key [] metadata = metadata
note_list key (v ∷ vs) metadata = insert key (join (codes ",") (v ∷ vs)) metadata

-- fmt.Sprint of a flag's value
unfoldable pub sprint : Value → Str
sprint (bool_value true) = codes "true"
sprint (bool_value false) = codes "false"
sprint (string_value s) = s
sprint (list_value vs) = codes "[" ++ (join (codes " ") vs ++ codes "]")

unfoldable pub flag_metadata : FlagSet → Dict Str → Dict Str
flag_metadata [] metadata = metadata
flag_metadata ((name, flag) ∷ flags) metadata =
    let key = codes "flag." ++ name in
    flag_metadata flags (
      insert (key ++ codes ".source") (source_text flag.source)
        (insert key (sprint flag.value) metadata))

unfoldable pub telemetry_entry : ResolvedInvocation → Entry
telemetry_entry r =
    let located =
      if is_empty r.source_path
      then (codes "command", r.command_path) ∷ []
      else (codes "command", r.command_path) ∷ (codes "sourcePath", r.source_path) ∷ [] in
    record {
      category = category_config;
      message = codes "declarative configuration resolved";
      severity = severity_info;
      step = [];
      command = [];
      stderr_excerpt = [];
      metadata = flag_metadata r.flags (
          note_list (codes "overrides") r.overrides
            (note_list (codes "profiles") r.profiles located));
      error = none;
    }
