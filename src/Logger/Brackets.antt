-- ===== src/Logger/Brackets.antt =====
-- `EmitPhase` of pkg/telemetry/emitter.go: the lines around the work of a phase, written out.
use chainctl.Prelude.{◌≡◌, Option, none, some, List, [], ◌∷◌, ◌++◌, if◌then◌else◌}
use chainctl.Text.{Str, codes}
use chainctl.Dict.{Dict, insert}
use chainctl.Logger.{
  Phase, phase_text, Outcome, outcome_start, outcome_success, outcome_failure, Severity,
  severity_info, severity_error, Line, entry_line, event_line, category_workflow,
}
use chainctl.Logger.Phases.{
  Emitter, Work, Clock, Error, emit_phase, emit_phase_lines, closing, failed_work, Accepting,
  started_entry, completed_entry, phase_event, outcome_text, work_failed,
}

-- The line of a logger, if there is one.
abbrev logger_line : Emitter → Phase → Str → Severity → Dict Str → Option Str → List Line
logger_line e phase message severity metadata error =
    if e.has_logger
    then entry_line (record {
      category = category_workflow;
      message = message;
      severity = severity;
      step = phase_text phase;
      command = [];
      stderr_excerpt = [];
      metadata = metadata;
      error = error;
    })
      ∷ []
    else []

abbrev event : Phase → Outcome → Clock → Dict Str → Line
event phase outcome clock metadata =
    event_line
      (record { phase = phase; outcome = outcome; duration = clock.duration; metadata = metadata })

abbrev no_time : Clock
no_time = record { duration = 0; text = [] }

-- In front of the work.
abbrev pub before_work : Emitter → Phase → Dict Str → List Line
before_work e phase metadata =
    logger_line e phase (phase_text phase ++ codes " phase started") severity_info metadata none
    ++ event phase outcome_start no_time metadata ∷ []

-- Behind work without an error, and behind work with one.
abbrev pub behind_work : Emitter → Phase → Dict Str → Clock → Option Str → List Line
behind_work e phase metadata clock none =
    event phase outcome_success clock metadata
    ∷ logger_line e phase (phase_text phase ++ codes " phase " ++ codes "success") severity_info
        (insert (codes "duration") clock.text metadata) none
behind_work e phase metadata clock (some text) =
    event phase outcome_failure clock metadata
    ∷ logger_line e phase (phase_text phase ++ codes " phase " ++ codes "failure") severity_error
        (insert (codes "duration") clock.text metadata) (some text)

abbrev pub returned : Option Str → Option Error
returned none = none
returned (some text) = some (work_failed text)

lines_told :
    {S : Type 0} (e : Emitter) (phase : Phase) (metadata : Dict Str) (clock : Clock)
    (done : Option Str × List Line × S) (result : Option Error × List Line × S)
    → result ≡ (failed_work done.0, done.1 ++ closing e phase metadata clock done.0, done.2)
    → result ≡ (returned done.0, done.1 ++ behind_work e phase metadata clock done.0, done.2)
unfolding completed_entry phase_event outcome_text
lines_told e phase metadata clock (none, lines, after) result h = h
lines_told e phase metadata clock (some text, lines, after) result h = h

-- A phase whose lines are all written puts a start event in front of the lines of its work and one
-- completion event behind them, each with the line of the logger, where there is one: they tell of
-- success if the work had no error, and of failure with the error's severity and the error if it
-- had one. The phase returns the work's error.
pub emit_phase-brackets :
    {S : Type 0} (e : Emitter) (phase : Phase) (metadata : Dict Str) (clock : Clock) (work : Work S)
    (out : List Line) (s : S)
    → Accepting e
    → let (error, lines, after) = work (out ++ before_work e phase metadata) s in
      emit_phase e phase metadata clock work out s
      ≡ (returned error, lines ++ behind_work e phase metadata clock error, after)
unfolding started_entry phase_event
emit_phase-brackets e phase metadata clock work out s accepting =
    lines_told e phase metadata clock (work (out ++ before_work e phase metadata) s) _
      (emit_phase_lines e phase metadata clock work out s accepting)
