-- ===== src/Logger/Phases.antt =====
-- pkg/telemetry/emitter.go: `Emitter.EmitPhase`, around a function that may write lines itself.
use chainctl.Prelude.{
  arith, ◌⊎◌, Option-cases, ℕ, ◌≡◌, refl, inl, inr, Bool, true, false, Option, none, some, List, [],
  ◌∷◌, ◌++◌, append-nil, append_assoc, if◌then◌else◌, Bool-cases,
}
use chainctl.Text.{Str, codes}
use chainctl.Dict.{Dict, insert}
use chainctl.Logger.{
  Severity, Entry, Phase, Outcome, Event, Line, phase_text, severity_info, severity_error,
  category_workflow, outcome_start, outcome_success, outcome_failure, entry_line, event_line,
}

-- The writer behind the encoder and the logger. `accepts` tells of the lines written so far and a
-- next one whether it is written.
abbrev pub Writer : Type 0
Writer = List Line → Line → Bool

abbrev pub append : Writer → Line → List Line → List Line
append accepts line out = if accepts out line then out ++ line ∷ [] else out

-- `has_logger` is false for an emitter whose logger is nil.
pub record Emitter : Type 0 where
  pub accepts : Writer
  pub has_logger : Bool

-- `Emitter.Emit`: whether the event was written, and the output.
unfoldable pub emit : Emitter → Event → List Line → Bool × List Line
emit e ev out = (e.accepts out (event_line ev), append e.accepts (event_line ev) out)

-- An entry for the logger, whose error is dropped.
unfoldable pub log : Emitter → Entry → List Line → List Line
log e entry out = if e.has_logger then append e.accepts (entry_line entry) out else out

-- The function that a phase runs: its error's text, if it has one, the output, and what else it
-- changes.
abbrev pub Work : Type 0 → Type 0
Work S = List Line → S → Option Str × List Line × S

pub data Error : Type 0 where
  emit_start emit_completion : Error
  work_failed : Str → Error

abbrev pub failed_work : Option Str → Option Error
failed_work none = none
failed_work (some text) = some (work_failed text)

abbrev pub outcome_of : Option Str → Outcome
outcome_of none = outcome_success
outcome_of (some _) = outcome_failure

abbrev severity_of : Option Str → Severity
severity_of none = severity_info
severity_of (some _) = severity_error

unfoldable pub outcome_text : Outcome → Str
unfolding codes
outcome_text outcome_start = codes "start"
outcome_text outcome_success = codes "success"
outcome_text outcome_failure = codes "failure"

unfoldable pub started_entry : Phase → Dict Str → Entry
started_entry phase metadata = record {
  category = category_workflow;
  message = phase_text phase ++ codes " phase started";
  severity = severity_info;
  step = phase_text phase;
  command = [];
  stderr_excerpt = [];
  metadata = metadata;
  error = none;
}

unfoldable pub completed_entry : Phase → Dict Str → Str → Option Str → Entry
completed_entry phase metadata duration error = record {
  category = category_workflow;
  message = phase_text phase ++ codes " phase " ++ outcome_text (outcome_of error);
  severity = severity_of error;
  step = phase_text phase;
  command = [];
  stderr_excerpt = [];
  metadata = insert (codes "duration") duration metadata;
  error = error;
}

unfoldable pub phase_event : Phase → Outcome → ℕ → Dict Str → Event
phase_event phase outcome duration metadata = record {
  phase = phase;
  outcome = outcome;
  duration = duration;
  metadata = metadata;
}

-- `duration` is the time since the start at the event, `text` the one of the entry as a text.
pub record Clock : Type 0 where
  pub duration : ℕ
  pub text : Str

-- The end of `EmitPhase`, behind the call of the function, whose error is `error`.
unfoldable pub finish_phase :
    Emitter → Phase → Dict Str → Clock → Option Str → List Line → Option Error × List Line
finish_phase e phase metadata clock error out =
    let (written, out') =
      emit e (phase_event phase (outcome_of error) clock.duration metadata) out in
    let out'' = log e (completed_entry phase metadata clock.text error) out' in
    if written then (failed_work error, out'') else (some emit_completion, out'')

unfoldable pub emit_phase :
    {S : Type 0}
    → Emitter
    → Phase
    → Dict Str
    → Clock
    → Work S
    → List Line
    → S
    → Option Error × List Line × S
emit_phase e phase metadata clock work out s =
    let (written, out') =
      emit e (phase_event phase outcome_start 0 metadata)
        (log e (started_entry phase metadata) out) in
    let (error, out'', s') = work out' s in
    let (failure, closed) = finish_phase e phase metadata clock error out'' in
    if written then (failure, closed, s') else (some emit_start, out', s)

-- A writer that takes every line.
abbrev pub Accepting : Emitter → Type 0
Accepting e = (out : List Line) (line : Line) → e.accepts out line ≡ true

abbrev pub logged : Emitter → Entry → List Line
logged e entry = if e.has_logger then entry_line entry ∷ [] else []

-- The lines in front of the work.
abbrev pub opening : Emitter → Phase → Dict Str → List Line
opening e phase metadata =
    logged e (started_entry phase metadata)
    ++ event_line (phase_event phase outcome_start 0 metadata) ∷ []

-- The lines behind the work.
abbrev pub closing : Emitter → Phase → Dict Str → Clock → Option Str → List Line
closing e phase metadata clock error =
    event_line (phase_event phase (outcome_of error) clock.duration metadata)
    ∷ logged e (completed_entry phase metadata clock.text error)

emit-Accepting :
    (e : Emitter) (ev : Event) (out : List Line)
    → Accepting e
    → emit e ev out ≡ (true, out ++ event_line ev ∷ [])
unfolding emit
emit-Accepting e ev out accepting = rw accepting refl

log-Accepting :
    (e : Emitter) (entry : Entry) (out : List Line)
    → Accepting e
    → log e entry out ≡ out ++ logged e entry
unfolding log
log-Accepting e entry out accepting = elim (Bool-cases e.has_logger) [
  | inl has ↦ rw (has, accepting) refl
  | inr lacks ↦ rw (lacks, append-nil out) refl
]

finish_phase-Accepting :
    (e : Emitter) (phase : Phase) (metadata : Dict Str) (clock : Clock) (error : Option Str)
    (out : List Line)
    → Accepting e
    → finish_phase e phase metadata clock error out
      ≡ (failed_work error, out ++ closing e phase metadata clock error)
unfolding finish_phase
finish_phase-Accepting e phase metadata clock error out accepting =
    let ev = phase_event phase (outcome_of error) clock.duration metadata in
    let entry = completed_entry phase metadata clock.text error in
    rw
      (
        emit-Accepting e ev out accepting,
        log-Accepting e entry (out ++ event_line ev ∷ []) accepting,
        append_assoc out (event_line ev ∷ []) (logged e entry),
      )
      refl

-- The run of a phase whose lines are all written.
pub emit_phase_lines :
    {S : Type 0} (e : Emitter) (phase : Phase) (metadata : Dict Str) (clock : Clock) (work : Work S)
    (out : List Line) (s : S)
    → Accepting e
    → let (error, lines, after) = work (out ++ opening e phase metadata) s in
      emit_phase e phase metadata clock work out s
      ≡ (failed_work error, lines ++ closing e phase metadata clock error, after)
unfolding emit_phase
emit_phase_lines e phase metadata clock work out s accepting =
    let entry = started_entry phase metadata in
    let ev = phase_event phase outcome_start 0 metadata in
    let (error, lines, after) = work (out ++ opening e phase metadata) s in
    rw
      (
        log-Accepting e entry out accepting,
        emit-Accepting e ev (out ++ logged e entry) accepting,
        append_assoc out (logged e entry) (event_line ev ∷ []),
        finish_phase-Accepting e phase metadata clock error lines accepting,
      )
      refl

-- The work of a phase does not run where its start event cannot be written: the phase then returns
-- an error of its own, whatever the work is, and changes nothing but the output.
pub emit_phase-skips_work :
    {S : Type 0} (e : Emitter) (phase : Phase) (metadata : Dict Str) (clock : Clock) (work : Work S)
    (out : List Line) (s : S)
    → e.accepts
        (log e (started_entry phase metadata) out)
        (event_line (phase_event phase outcome_start 0 metadata))
      ≡ false
    → emit_phase e phase metadata clock work out s
      ≡ (some emit_start, log e (started_entry phase metadata) out, s)
unfolding emit_phase emit
emit_phase-skips_work e phase metadata clock work out s refused = rw refused refl

failed_work-none : (error : Option Str) → failed_work error ≡ none → error ≡ none
failed_work-none none h = refl
failed_work-none (some text) h = cc

finish_phase-none :
    (e : Emitter) (phase : Phase) (metadata : Dict Str) (clock : Clock) (error : Option Str)
    (out : List Line)
    → (finish_phase e phase metadata clock error out).0 ≡ none
    → error ≡ none
unfolding finish_phase
finish_phase-none e phase metadata clock error out h = ground (arith, failed_work-none error)

abbrev pub IsFailure : Option Error → Type 0
IsFailure error = (e : Error) × (error ≡ some e)

-- A phase that returns no error ran its work, which had none. One that returns an error ran its
-- work or did nothing else.
pub emit_phase-cases :
    {S : Type 0} (e : Emitter) (phase : Phase) (metadata : Dict Str) (clock : Clock) (work : Work S)
    (out : List Line) (s : S)
    → let (error, lines, after) = emit_phase e phase metadata clock work out s in
      ((before : List Line) × (error ≡ none)
        × ((work before s).0 ≡ none)
        × (after ≡ (work before s).2))
      ⊎ (IsFailure error × ((before : List Line) × ((after ≡ s) ⊎ (after ≡ (work before s).2))))
unfolding emit_phase
emit_phase-cases e phase metadata clock work out s =
    let started = log e (started_entry phase metadata) out in
    let (written, out') = emit e (phase_event phase outcome_start 0 metadata) started in
    let (error, out'', s') = work out' s in
    elim (Bool-cases written) [
      | inr refused ↦ rw refused (inr ((emit_start, refl), (out', inl refl)))
      | inl accepted ↦ elim (Option-cases (finish_phase e phase metadata clock error out'').0) [
        | inl none_left ↦
            rw (accepted, none_left)
              (inl
                (out', refl, finish_phase-none e phase metadata clock error out'' none_left, refl))
        | inr (failure, some_left) ↦
            rw (accepted, some_left) (inr ((failure, refl), (out', inr refl)))
      ]
    ]
