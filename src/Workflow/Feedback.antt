-- ===== src/Workflow/Feedback.antt =====
-- The best-effort calls of crates/remtene-application/src/transcription_orchestrator.rs, whose
-- failure is only recorded, and the reads of the runtime state. Decision traces
-- (`crate::trace`) only log and are left out.
pub mod Calm
use rem_tene_public.Base.{ℕ, Bool, true, Option, none, some, String, Result, ok, err}
use rem_tene_public.Session.{TerminalOutcome}
use rem_tene_public.Routes.{PortError}
use rem_tene_public.Fence
use rem_tene_public.Ports.{
  Fallible, DiagnosticEvent, RecordingCue, RecordingHudState, UserNotificationKind, hud_update,
  hud_publish_terminal, hud_hide, cue_play, notify, diagnostics_record, deadline_cancel,
}
use rem_tene_public.Workflow.State.{World, RuntimeState, ActiveContext, RuntimeStage}
use rem_tene_public.Workflow.Program.{M, pure, ◌>>=◌, perform, section, on_runtime}
use rem_tene_public.Workflow.Sections.{
  active_context, is_current_stage, expects_asr, expects_llm, expects_delivery,
  expects_finalization,
}

abbrev pub event_of : Option ℕ → String → String → Option String → DiagnosticEvent
event_of id phase state code = record {
  session_id = id;
  phase = phase;
  state = state;
  duration_ms = none;
  error_code = code;
  detail = none;
}

unfoldable pub record_port_error : Option ℕ → String → PortError → M Unit
record_port_error id phase error =
    perform (diagnostics_record (event_of id phase "failed" (some error.code)))

unfoldable pub record_no_speech : ℕ → String → M Unit
record_no_speech id phase = perform (diagnostics_record (event_of (some id) phase "no_speech" none))

unfoldable pub record_late_response : ℕ → String → M Unit
record_late_response id phase =
    perform (
      diagnostics_record
        (event_of (some id) phase "discarded" (some "late_or_mismatched_response")))

-- `if let Err(error) = result { self.record_port_error(…) }`
unfoldable pub note_error : ℕ → String → Fallible Unit → M Unit
note_error id phase (ok _) = pure tt
note_error id phase (err error) = record_port_error (some id) phase error

unfoldable pub raise_user_notification : ℕ → UserNotificationKind → M Unit
raise_user_notification id kind = do
  reply ← perform (notify id kind)
  note_error id "user_notification" reply

unfoldable pub update_recording_hud : ℕ → RecordingHudState → M Unit
update_recording_hud id state = do
  reply ← perform (hud_update id state)
  note_error id "recording_hud_update" reply

unfoldable pub publish_recording_hud_terminal : ℕ → TerminalOutcome → M Unit
publish_recording_hud_terminal id outcome = do
  reply ← perform (hud_publish_terminal id outcome)
  note_error id "recording_hud_publish_terminal" reply

unfoldable pub hide_recording_hud : ℕ → M Unit
hide_recording_hud id = do reply ← perform (hud_hide id); note_error id "recording_hud_hide" reply

unfoldable pub play_recording_cue : ℕ → RecordingCue → M Unit
play_recording_cue id cue = do reply ← perform (cue_play cue); note_error id "recording_cue" reply

-- Dropping a `RecordingDeadlineGuard` cancels its task.
unfoldable pub drop_deadline : Option ℕ → M Unit
drop_deadline none = pure tt
drop_deadline (some guard) = perform (deadline_cancel guard)

unfoldable pub read_runtime : {A : Type 0} → (RuntimeState → A) → M A
read_runtime f = on_runtime (λ r. (r, f r))

unfoldable pub context : ℕ → M (Option ActiveContext)
context id = read_runtime (active_context id)

unfoldable pub in_stage : ℕ → (RuntimeStage → Bool) → M Bool
in_stage id fits = read_runtime (is_current_stage id fits)

abbrev pub is_expected_asr : ℕ → ℕ → M Bool
is_expected_asr id request = in_stage id (expects_asr request)

abbrev pub is_expected_llm : ℕ → ℕ → M Bool
is_expected_llm id request = in_stage id (expects_llm request)

abbrev pub is_expected_delivery : ℕ → ℕ → M Bool
is_expected_delivery id delivery = in_stage id (expects_delivery delivery)

abbrev pub is_expected_finalization : ℕ → ℕ → M Bool
is_expected_finalization id delivery = in_stage id (expects_finalization delivery)
