-- ===== src/Workflow/Finish.antt =====
-- `finish_recording` of crates/remtene-application/src/transcription_orchestrator.rs: from the end
-- of the capture to the recognised text. Each helper is the rest of the function after one of its
-- awaits.
use text.Mathlib.Text.{◌==◌ as str_eq}
use rem_tene_public.Base.{
  ℕ, Bool, true, false, not, ◌&&◌, Option, none, some, String, ok, err, ◌==◌, if◌then◌else◌,
}
use rem_tene_public.Base.Text.{Text}
use rem_tene_public.Settings.{AsrEngine, qwen, whisper}
use rem_tene_public.Session.{FailureCategory, SessionEvent}
use rem_tene_public.Routes.{
  PortError, ResolvedAsrRoute, TextProcessingRoute, direct_asr, llm_route, DirectDeliveryReason,
  llm_unavailable,
}
use rem_tene_public.Ports.{
  Fallible, FinalizedAudio, AsrResult, TemporaryTextStatus, llm_fallback, RecordingHudState,
  RecordingCue, audio_finish, asr_transcribe, new_request_id, audio_empty_capture_code,
  asr_no_speech_code,
}
use rem_tene_public.Workflow.State.{
  RuntimeState, ActiveContext, RuntimeStage, CaptureCleanupCompletion, FinishOutcome, discarded,
  not_recording, no_speech,
}
use rem_tene_public.Workflow.Program.{M, pure, ◌>>=◌, ◌>>◌, perform, on_runtime}
use rem_tene_public.Workflow.Sections.{
  active_of, is_finishing_audio, begin_recognizing_audio_cleanup,
  complete_recognizing_audio_cleanup,
}
use rem_tene_public.Workflow.Feedback.{
  record_port_error, record_no_speech, record_late_response, update_recording_hud,
  play_recording_cue, drop_deadline, context, in_stage, is_expected_asr,
}
use rem_tene_public.Workflow.Audio.{cancel_capture, cleanup_audio, or_release}
use rem_tene_public.Workflow.Ending.{
  set_stage_if_current, apply_if_current, fail_current, complete_no_speech_current,
}
use rem_tene_public.Workflow.Finalization.{deliver}
use rem_tene_public.Workflow.Cancel.{guarded, finish_capture_cancellation, active_target}
use rem_tene_public.Workflow.Processing.{is_blank, process_with_llm}

abbrev pub unbounded_m0_deadline_ms : ℕ
unbounded_m0_deadline_ms = 18446744073709551615

unfoldable pub same_engine : AsrEngine → AsrEngine → Bool
same_engine qwen qwen = true
same_engine whisper whisper = true
same_engine _ _ = false

unfoldable pub valid_asr_result : AsrResult → ℕ → ℕ → ResolvedAsrRoute → Bool
unfolding same_engine
valid_asr_result result id request route =
    result.session_id == id
    && (result.request_id == request && same_engine result.engine route.engine)

fail_with : ℕ → FailureCategory → M FinishOutcome
fail_with id category = do
  current ← fail_current id category
  pure (if current then FinishOutcome.failed category else discarded)

end_without_speech : ℕ → M FinishOutcome
end_without_speech id = do
  record_no_speech id "asr"
  current ← complete_no_speech_current id
  pure (if current then no_speech else discarded)

forced_status : DirectDeliveryReason → Option TemporaryTextStatus
forced_status llm_unavailable = some llm_fallback
forced_status _ = none

-- The `match context.processing_route` of `finish_recording`.
route_text : ℕ → TextProcessingRoute → Text → M FinishOutcome
unfolding forced_status
route_text id (direct_asr reason) text = deliver id text (some reason) (forced_status reason)
route_text id (llm_route route) text = process_with_llm id route text

after_asr : ℕ → ℕ → ActiveContext → Fallible AsrResult → M FinishOutcome
unfolding fail_with end_without_speech route_text
after_asr id request c (ok result) =
    if not (valid_asr_result result id request c.asr_route)
    then record_late_response id "asr_correlation_mismatch" >> fail_with id FailureCategory.asr
    else if is_blank result.final_text
    then end_without_speech id
    else route_text id c.processing_route result.final_text
after_asr id request c (err error) =
    if str_eq error.code asr_no_speech_code
    then end_without_speech id
    else record_port_error (some id) "asr" error >> fail_with id FailureCategory.asr

-- The removal of the recording that follows the recognition; `false` is the early return.
remove_recording : ℕ → ℕ → M Bool
remove_recording id request = on_runtime (begin_recognizing_audio_cleanup id request) >>= elim [
  | none ↦ pure true
  | some audio ↦ do
    or_release id (cleanup_audio id audio)
    on_runtime (complete_recognizing_audio_cleanup id request audio)
]

recognize : ℕ → ℕ → ActiveContext → FinalizedAudio → M FinishOutcome
unfolding remove_recording after_asr
recognize id request c audio = do
  update_recording_hud id RecordingHudState.recognizing
  result ← perform (
      asr_transcribe (record {
        session_id = id;
        request_id = request;
        engine = c.asr_route.engine;
        audio = audio;
        language_hint = none;
        deadline_ms = unbounded_m0_deadline_ms;
      }))
  removed ← remove_recording id request
  if not removed then pure discarded else do
    expected ← is_expected_asr id request
    if not expected
        then record_late_response id "asr_late" >> pure discarded
        else after_asr id request c result

discard_recording : ℕ → FinalizedAudio → M FinishOutcome
discard_recording id audio = cleanup_audio id audio.audio_ref >> pure discarded

start_recognizing : ℕ → FinalizedAudio → ActiveContext → M FinishOutcome
unfolding discard_recording recognize
start_recognizing id audio c = do
  applied ← apply_if_current id SessionEvent.finish_recording
  if not applied then discard_recording id audio else do
    request ← perform new_request_id
    staged ← set_stage_if_current id (RuntimeStage.recognizing request (some audio.audio_ref))
    if not staged then discard_recording id audio else recognize id request c audio

after_capture : ℕ → FinalizedAudio → M FinishOutcome
unfolding start_recognizing
after_capture id audio = do
  play_recording_cue id RecordingCue.finish
  current ← in_stage id is_finishing_audio
  if not current
      then discard_recording id audio
      else context id
        >>= elim [ none ↦ discard_recording id audio | some c ↦ start_recognizing id audio c ]

-- A finish that found no audio ends like a cancelled recording.
no_audio : ℕ → String → M FinishOutcome
no_audio id held = do
  record_no_speech id "audio_finish"
  current ← in_stage id is_finishing_audio
  if not current then pure discarded else do
    staged ←
        set_stage_if_current id
          (RuntimeStage.cancelling held CaptureCleanupCompletion.cancelled true)
    if not staged then pure discarded else do
      finish_capture_cancellation id held (active_target CaptureCleanupCompletion.cancelled)
      pure no_speech

-- Any other failed finish closes the capture and fails the session.
failed_capture : ℕ → String → PortError → M FinishOutcome
unfolding fail_with
failed_capture id held error = do
  record_port_error (some id) "audio_finish" error
  current ← in_stage id is_finishing_audio
  if not current then pure discarded else do
    staged ←
        set_stage_if_current id
          (RuntimeStage.cancelling held CaptureCleanupCompletion.fail_audio true)
    if not staged
        then pure discarded
        else do or_release id (cancel_capture id held); fail_with id FailureCategory.audio

after_finish : ℕ → String → Fallible FinalizedAudio → M FinishOutcome
unfolding after_capture no_audio failed_capture
after_finish id held (ok audio) = after_capture id audio
after_finish id held (err error) =
    if str_eq error.code audio_empty_capture_code
    then no_audio id held
    else failed_capture id held error

-- The section that claims the recording: its capture and its deadline, if it is being recorded.
unfoldable pub claim_recording : ℕ → RuntimeState → RuntimeState × Option (String × Option ℕ)
unfolding active_of
claim_recording id r = elim (active_of r id) [
  | none ↦ (r, none)
  | some a ↦ elim a.stage [
    | RuntimeStage.recording held ↦ (
      record r {
        active =
            some
              (record a { recording_deadline = none; stage = RuntimeStage.finishing_audio held });
      },
      some (held, a.recording_deadline),
    )
    | _ ↦ (r, none)
  ]
]

finish_body : ℕ → M FinishOutcome
unfolding after_finish
finish_body id = on_runtime (claim_recording id) >>= elim [
  | none ↦ pure not_recording
  | some (held, deadline) ↦ do
    drop_deadline deadline
    reply ← perform (audio_finish held)
    after_finish id held reply
]

unfoldable pub finish_recording : ℕ → M FinishOutcome
unfolding finish_body
finish_recording id = guarded discarded (finish_body id)
