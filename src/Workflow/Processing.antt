-- ===== src/Workflow/Processing.antt =====
-- `process_with_llm` of crates/remtene-application/src/transcription_orchestrator.rs: the provider
-- rewrites the transcript, and any failure of its delivers the transcript itself.
pub mod Protocol
pub mod Provenance
use rem_tene_public.Base.{
  ℕ, Bool, not, ◌&&◌, Option, none, some, String, ok, err, ◌==◌, if◌then◌else◌,
}
use rem_tene_public.Base.Text.{Text, trim, is_empty}
use rem_tene_public.Settings.{ProcessingMode, raw, faithful, structured}
use rem_tene_public.Session.{begin_processing}
use rem_tene_public.Routes.{ResolvedLlmRoute}
use rem_tene_public.Ports.{
  Fallible, TextProcessingResult, llm_fallback, RecordingHudState, llm_process, diagnostics_record,
  elapsed_ms, new_request_id,
}
use rem_tene_public.Workflow.State.{ActiveContext, RuntimeStage, FinishOutcome, discarded}
use rem_tene_public.Workflow.Program.{M, pure, ◌>>=◌, ◌>>◌, perform}
use rem_tene_public.Workflow.Feedback.{
  record_port_error, record_late_response, update_recording_hud, context, is_expected_llm,
}
use rem_tene_public.Workflow.Ending.{set_stage_if_current, apply_if_current}
use rem_tene_public.Workflow.Finalization.{deliver}

unfoldable pub is_blank : Text → Bool
is_blank text = is_empty (trim text)

mode_name : ProcessingMode → String
mode_name raw = "mode=Raw"
mode_name faithful = "mode=Faithful"
mode_name structured = "mode=Structured"

error_code_of : {A : Type 0} → Fallible A → Option String
error_code_of (ok _) = none
error_code_of (err error) = some error.code

response_state : {A : Type 0} → Fallible A → String
response_state (ok _) = "received"
response_state (err _) = "failed"

unfoldable pub valid_llm_result : TextProcessingResult → ℕ → ℕ → Bool
valid_llm_result result id request = result.session_id == id && result.request_id == request

-- The `match result` of `process_with_llm`.
after_llm : ℕ → ℕ → Text → Fallible TextProcessingResult → M FinishOutcome
after_llm id request raw_transcript (ok result) =
    if not (valid_llm_result result id request)
    then record_late_response id "llm_correlation_mismatch"
      >> deliver id raw_transcript none (some llm_fallback)
    else if is_blank result.final_text
    then record_late_response id "llm_empty_response"
      >> deliver id raw_transcript none (some llm_fallback)
    else deliver id result.final_text none none
after_llm id request raw_transcript (err error) =
    record_port_error (some id) "llm" error >> deliver id raw_transcript none (some llm_fallback)

ask_llm : ℕ → ℕ → ResolvedLlmRoute → Text → ActiveContext → M FinishOutcome
unfolding after_llm mode_name error_code_of response_state
ask_llm id request route raw_transcript c = do
  perform (
      diagnostics_record (record {
        session_id = some id;
        phase = "llm.request";
        state = "sent";
        duration_ms = none;
        error_code = none;
        detail = some (mode_name c.settings.processing_mode);
      }))
  result ← perform (
      llm_process route (record {
        session_id = id;
        request_id = request;
        processing_mode = c.settings.processing_mode;
        raw_transcript = raw_transcript;
        selected_text = c.selected_text;
      }))
  elapsed ← perform elapsed_ms
  perform (
      diagnostics_record (record {
        session_id = some id;
        phase = "llm.response";
        state = response_state result;
        duration_ms = some elapsed;
        error_code = error_code_of result;
        detail = none;
      }))
  expected ← is_expected_llm id request
  if not expected
      then record_late_response id "llm_late" >> pure discarded
      else after_llm id request raw_transcript result

unfoldable pub process_with_llm : ℕ → ResolvedLlmRoute → Text → M FinishOutcome
unfolding ask_llm
process_with_llm id route raw_transcript = context id >>= elim [
  | none ↦ pure discarded
  | some c ↦ do
    applied ← apply_if_current id begin_processing
    if not applied then pure discarded else do
      request ← perform new_request_id
      staged ← set_stage_if_current id (RuntimeStage.processing request)
      if not staged then pure discarded else do
        update_recording_hud id RecordingHudState.processing
        ask_llm id request route raw_transcript c
]
