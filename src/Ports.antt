-- ===== src/Ports.antt =====
-- crates/remtene-application/src/ports.rs: what the workflow asks of the outside, as one data type
-- of calls with the type of each reply. The adapters behind the calls are not modelled: a reply is
-- any value of its type.
use rem_tene_public.Base.{ℕ, Bool, Option, String, Result}
use rem_tene_public.Base.Text.{Text}
use rem_tene_public.Settings.{SettingsSnapshot, ProcessingMode, AsrEngine}
use rem_tene_public.Session.{TerminalOutcome}
use rem_tene_public.Routes.{
  PortError, EngineHealth, LlmRouteCandidate, LlmRouteResolution, ResolvedLlmRoute,
}

abbrev pub audio_empty_capture_code : String
audio_empty_capture_code = "audio.empty_capture"

abbrev pub asr_no_speech_code : String
asr_no_speech_code = "asr.no_speech"

pub data TargetSecurity : Type 0 where
  safe secure_input unknown : TargetSecurity

-- The two coordinates are the bit patterns of an `i32`; they are only passed on.
pub record TargetDisplayHint : Type 0 where
  pub x : ℕ
  pub y : ℕ

-- The opaque references (`AudioCaptureRef`, `AudioRef`, `TargetSnapshotRef`, `ValidatedTargetRef`)
-- are the texts that they wrap.
pub record CapturedTarget : Type 0 where
  pub target_ref : String
  pub security : TargetSecurity
  pub has_selection : Bool
  pub display_hint : Option TargetDisplayHint

pub record SelectionSnapshot : Type 0 where
  pub text : Option Text
  pub anchor_normalized_to_end : Bool
  pub exceeded_limit : Bool

pub data TargetRevalidation : Type 0 where
  valid : String → TargetRevalidation
  invalid indeterminate : TargetRevalidation

pub record FinalizedAudio : Type 0 where
  pub audio_ref : String
  pub sample_rate_hz : ℕ
  pub channels : ℕ
  pub bits_per_sample : ℕ
  pub duration_ms : ℕ

pub data MicrophoneAccess : Type 0 where
  granted denied restricted unavailable : MicrophoneAccess

pub data RecordingCue : Type 0 where
  start finish cancel : RecordingCue

pub data RecordingHudState : Type 0 where
  preparing recording recognizing processing delivering finalizing completed : RecordingHudState

pub data UserNotificationKind : Type 0 where
  microphone_permission asr llm delivery : UserNotificationKind

pub record AsrRequest : Type 0 where
  pub session_id : ℕ
  pub request_id : ℕ
  pub engine : AsrEngine
  pub audio : FinalizedAudio
  pub language_hint : Option Text
  pub deadline_ms : ℕ

pub record AsrResult : Type 0 where
  pub session_id : ℕ
  pub request_id : ℕ
  pub engine : AsrEngine
  pub final_text : Text
  pub detected_language : Option Text
  pub inference_duration_ms : ℕ

pub record TextProcessingRequest : Type 0 where
  pub session_id : ℕ
  pub request_id : ℕ
  pub processing_mode : ProcessingMode
  pub raw_transcript : Text
  pub selected_text : Option Text

pub data IntentDecision : Type 0 where
  dictation text_command : IntentDecision

pub record TextProcessingResult : Type 0 where
  pub session_id : ℕ
  pub request_id : ℕ
  pub intent : IntentDecision
  pub final_text : Text

pub data InsertOutcome : Type 0 where
  inserted not_inserted indeterminate : InsertOutcome

pub data UserDirectedPasteOutcome : Type 0 where
  dispatched not_dispatched indeterminate : UserDirectedPasteOutcome

pub data TemporaryTextStatus : Type 0 where
  not_inserted indeterminate llm_fallback : TemporaryTextStatus

pub record HistoryRecord : Type 0 where
  pub delivery_id : ℕ
  pub final_text : Text
  pub created_at : ℕ

pub record DiagnosticEvent : Type 0 where
  pub session_id : Option ℕ
  pub phase : String
  pub state : String
  pub duration_ms : Option ℕ
  pub error_code : Option String
  pub detail : Option String

-- A call of a port. A lifecycle fence is passed by the number under which the workflow keeps it.
pub data Call : Type 0 where
  settings_load targets_capture : Call
  targets_read_selected_text targets_revalidate : String → Call
  request_recording_access : Call
  audio_start : ℕ → Call
  audio_finish audio_cancel audio_cleanup : String → Call
  cue_play : RecordingCue → Call
  deadline_schedule : ℕ → ℕ → Call
  deadline_cancel : ℕ → Call
  hud_show : ℕ → RecordingHudState → Option TargetDisplayHint → ℕ → Call
  hud_update : ℕ → RecordingHudState → Call
  hud_publish_terminal : ℕ → TerminalOutcome → Call
  hud_hide : ℕ → Call
  notify : ℕ → UserNotificationKind → Call
  asr_health : AsrEngine → Call
  asr_transcribe : AsrRequest → Call
  asr_cancel : ℕ → Call
  llm_resolve_route : Option LlmRouteCandidate → Call
  llm_process : ResolvedLlmRoute → TextProcessingRequest → Call
  llm_cancel : ℕ → Call
  output_insert : String → Text → ℕ → ℕ → Call
  clipboard_read_selected_text : String → Call
  clipboard_insert_and_restore : String → Text → ℕ → ℕ → Call
  clipboard_insert_at_current_focus : Text → ℕ → ℕ → Call
  clipboard_write_text : Text → Call
  temporary_text_show : ℕ → ℕ → Text → TemporaryTextStatus → ℕ → Call
  history_save : HistoryRecord → SettingsSnapshot → ℕ → Call
  diagnostics_record : DiagnosticEvent → Call
  clock_now elapsed_ms new_session_id new_request_id new_delivery_id : Call
  -- Which of two joined futures goes on.
  poll_first : Call

abbrev pub Fallible : Type 0 → Type 0
Fallible = Result PortError

abbrev pub Reply : Call → Type 0
Reply settings_load = Fallible SettingsSnapshot
Reply targets_capture = Fallible CapturedTarget
Reply (targets_read_selected_text _) = Fallible SelectionSnapshot
Reply (targets_revalidate _) = Fallible TargetRevalidation
Reply request_recording_access = Fallible MicrophoneAccess
Reply (audio_start _) = Fallible String
Reply (audio_finish _) = Fallible FinalizedAudio
Reply (audio_cancel _) = Fallible Unit
Reply (audio_cleanup _) = Fallible Unit
Reply (cue_play _) = Fallible Unit
Reply (deadline_schedule _ _) = Fallible ℕ
Reply (deadline_cancel _) = Unit
Reply (hud_show _ _ _ _) = Fallible Unit
Reply (hud_update _ _) = Fallible Unit
Reply (hud_publish_terminal _ _) = Fallible Unit
Reply (hud_hide _) = Fallible Unit
Reply (notify _ _) = Fallible Unit
Reply (asr_health _) = Fallible EngineHealth
Reply (asr_transcribe _) = Fallible AsrResult
Reply (asr_cancel _) = Fallible Unit
Reply (llm_resolve_route _) = LlmRouteResolution
Reply (llm_process _ _) = Fallible TextProcessingResult
Reply (llm_cancel _) = Fallible Unit
Reply (output_insert _ _ _ _) = Fallible InsertOutcome
Reply (clipboard_read_selected_text _) = Fallible SelectionSnapshot
Reply (clipboard_insert_and_restore _ _ _ _) = Fallible InsertOutcome
Reply (clipboard_insert_at_current_focus _ _ _) = Fallible UserDirectedPasteOutcome
Reply (clipboard_write_text _) = Fallible Unit
Reply (temporary_text_show _ _ _ _ _) = Fallible Unit
Reply (history_save _ _ _) = Fallible Unit
Reply (diagnostics_record _) = Unit
Reply clock_now = ℕ
Reply elapsed_ms = ℕ
Reply new_session_id = ℕ
Reply new_request_id = ℕ
Reply new_delivery_id = ℕ
Reply poll_first = Bool
