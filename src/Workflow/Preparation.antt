-- ===== src/Workflow/Preparation.antt =====
-- `prepare_recording`, `resolve_route` and `resolve_text_processing_route` of
-- crates/remtene-application/src/transcription_orchestrator.rs: what `start` does while the session
-- is being prepared.
use rem_tene_public.Base.{
  ℕ, Bool, true, false, not, Option, none, some, String, Result, ok, err, if◌then◌else◌,
}
use rem_tene_public.Settings.{
  SettingsSnapshot, LlmNonSecretSettings, AsrPreference, prefer_qwen, prefer_whisper, AsrEngine,
  qwen, whisper, ProcessingMode, raw,
}
use rem_tene_public.Routes.{
  EngineHealth, ResolvedAsrRoute, AsrRouteError, LlmRouteCandidate, LlmRouteResolution, unavailable,
  TextProcessingRoute, direct_asr, raw_mode, resolve_asr_route, text_processing_route,
}
use rem_tene_public.Ports.{
  Fallible, TargetDisplayHint, RecordingCue, RecordingHudState, audio_start, deadline_schedule,
  hud_show, asr_health, llm_resolve_route,
}
use rem_tene_public.Workflow.Program.{M, pure, ◌>>=◌, ◌>>◌, perform, on_runtime}
use rem_tene_public.Workflow.Sections.{
  start_reservation_is_current, is_current_preparing_start, is_current_preparing_capture,
  set_preparing_capture, set_preparing_deadline, claim_preparing_capture,
}
use rem_tene_public.Workflow.Feedback.{
  record_port_error, read_runtime, drop_deadline, hide_recording_hud, play_recording_cue,
}
use rem_tene_public.Workflow.Audio.{cancel_capture, or_release}
use rem_tene_public.Workflow.Ending.{remove_preparing_if_current}

pub data RecordingPreparation : Type 0 where
  ready : String → RecordingPreparation
  failed_audio failed_lifecycle rejected_hud aborted : RecordingPreparation

unfoldable pub reserved : ℕ → M Bool
reserved id = read_runtime (start_reservation_is_current id)

unfoldable pub still_capturing : ℕ → String → M Bool
still_capturing id held = read_runtime (is_current_preparing_capture id held)

unfoldable pub claim_capture : ℕ → String → M Bool
claim_capture id held = on_runtime (claim_preparing_capture id held)

unfoldable pub cancel_claimed_preparing_capture : ℕ → String → M Unit
cancel_claimed_preparing_capture id held = do
  or_release id (cancel_capture id held)
  remove_preparing_if_current id
  hide_recording_hud id

-- Hides the HUD and gives the preparation up.
give_up : ℕ → M RecordingPreparation
give_up id = hide_recording_hud id >> pure aborted

-- Closes the capture if the session still holds it, with this result; else gives up.
close_capture : ℕ → String → RecordingPreparation → M RecordingPreparation
unfolding give_up
close_capture id held result = do
  was_claimed ← claim_capture id held
  if not was_claimed then give_up id else do cancel_claimed_preparing_capture id held; pure result

after_hud : ℕ → String → Fallible Unit → M RecordingPreparation
unfolding close_capture
after_hud id held (ok _) = do
  current ← still_capturing id held
  if not current then give_up id else pure (ready held)
after_hud id held (err error) = do
  record_port_error (some id) "recording_hud_show" error
  close_capture id held rejected_hud

after_schedule : ℕ → Option TargetDisplayHint → ℕ → String → Fallible ℕ → M RecordingPreparation
unfolding after_hud
after_schedule id hint limit held (ok deadline) = do
  stored ← on_runtime (set_preparing_deadline id held deadline)
  if not stored then drop_deadline (some deadline) >> give_up id else do
    reply ← perform (hud_show id RecordingHudState.preparing hint limit)
    after_hud id held reply
after_schedule id hint limit held (err error) = do
  record_port_error (some id) "recording_deadline" error
  close_capture id held failed_lifecycle

after_audio_start : ℕ → Option TargetDisplayHint → ℕ → Fallible String → M RecordingPreparation
unfolding after_schedule
after_audio_start id hint limit (ok held) = do
  stored ← on_runtime (set_preparing_capture id held)
  if not stored
      then cancel_capture id held >> give_up id
      else do reply ← perform (deadline_schedule limit id); after_schedule id hint limit held reply
after_audio_start id hint limit (err error) = do
  record_port_error (some id) "audio_start" error
  removed ← remove_preparing_if_current id
  pure (if removed then failed_audio else aborted)

unfoldable pub prepare_recording : ℕ → Option TargetDisplayHint → ℕ → M RecordingPreparation
unfolding after_audio_start
prepare_recording id hint limit = do
  play_recording_cue id RecordingCue.start
  current ← read_runtime (is_current_preparing_start id)
  if not current
      then pure aborted
      else do reply ← perform (audio_start id); after_audio_start id hint limit reply

health_or_unhealthy : ℕ → Fallible EngineHealth → M EngineHealth
health_or_unhealthy id (ok health) = pure health
health_or_unhealthy id (err error) =
    record_port_error (some id) "asr_health" error >> pure EngineHealth.unhealthy

unfoldable pub engine_health : ℕ → AsrEngine → M EngineHealth
unfolding health_or_unhealthy
engine_health id engine = do reply ← perform (asr_health engine); health_or_unhealthy id reply

-- The health of Qwen and of Whisper, as far as the preference asks for it.
healths : ℕ → AsrPreference → M (EngineHealth × EngineHealth)
healths id prefer_qwen = do health ← engine_health id qwen; pure (health, EngineHealth.missing)
healths id prefer_whisper = do
  health ← engine_health id whisper
  pure (EngineHealth.missing, health)

-- `Result::ok`
route_or_none : Result AsrRouteError ResolvedAsrRoute → Option ResolvedAsrRoute
route_or_none (ok route) = some route
route_or_none (err _) = none

unfoldable pub resolve_route : ℕ → SettingsSnapshot → M (Option ResolvedAsrRoute)
unfolding healths route_or_none
resolve_route id settings = do
  (qwen_health, whisper_health) ← healths id settings.asr_preference
  current ← reserved id
  if not current
      then pure none
      else pure
          (route_or_none (resolve_asr_route settings.asr_preference qwen_health whisper_health))

unfoldable pub candidate_of : Option LlmNonSecretSettings → Option LlmRouteCandidate
candidate_of none = none
candidate_of (some llm) = some (record { base_url = llm.base_url; model = llm.model })

note_resolution : ℕ → LlmRouteResolution → M Unit
note_resolution id (unavailable _ error) = record_port_error (some id) "llm_route" error
note_resolution id _ = pure tt

abbrev pub is_raw : ProcessingMode → Bool
is_raw mode = elim mode [ raw ↦ true | _ ↦ false ]

unfoldable pub resolve_text_processing_route : ℕ → SettingsSnapshot → M TextProcessingRoute
unfolding note_resolution
resolve_text_processing_route id settings =
    if is_raw settings.processing_mode then pure (direct_asr raw_mode) else do
      resolution ← perform (llm_resolve_route (candidate_of settings.llm))
      note_resolution id resolution
      pure (text_processing_route settings.processing_mode resolution)
