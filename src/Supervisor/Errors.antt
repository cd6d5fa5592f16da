-- ===== src/Supervisor/Errors.antt =====
-- The errors of crates/remtene-adapters/src/asr_worker.rs.
use text.Mathlib.Text.{◌==◌ as str_eq}
use rem_tene_public.Base.{Bool, true, false, ◌||◌, String, if◌then◌else◌}
use rem_tene_public.Routes.{PortError}
use rem_tene_public.Ports.{asr_no_speech_code}
use rem_tene_public.Contract.Messages.{
  WorkerErrorCode, protocol_incompatible, invalid_request, engine_unavailable, model_missing,
  model_incompatible, inference_failed, cancellation_failed, internal, WorkerError,
}

abbrev pub port_error : String → String → Bool → PortError
port_error code key retryable = record {
  code = code;
  safe_message_key = key;
  retryable = retryable;
}

unfoldable pub worker_busy_error : PortError
worker_busy_error = port_error "asr.worker.busy" "errors.asr.worker_busy" true

unfoldable pub worker_spawn_error : PortError
worker_spawn_error = port_error "asr.worker.spawn_failed" "errors.asr.worker_unavailable" true

unfoldable pub worker_crashed_error : PortError
worker_crashed_error = port_error "asr.worker.crashed" "errors.asr.worker_crashed" true

unfoldable pub handshake_error : PortError
handshake_error = port_error "asr.worker.handshake_failed" "errors.asr.worker_incompatible" true

unfoldable pub protocol_error : PortError
protocol_error = port_error "asr.worker.protocol_rejected" "errors.asr.worker_incompatible" false

unfoldable pub timeout_error : PortError
timeout_error = port_error "asr.worker.timeout" "errors.asr.timeout" true

unfoldable pub cancelled_error : PortError
cancelled_error = port_error "asr.cancelled" "errors.asr.cancelled" false

unfoldable pub supervisor_closed_error : PortError
supervisor_closed_error =
    port_error "asr.worker.supervisor_closed" "errors.asr.worker_unavailable" true

unfoldable pub artifact_cleanup_error : PortError
artifact_cleanup_error =
    port_error "asr.audio_grant_cleanup_failed" "errors.asr.audio_cleanup_failed" true

-- The error of `validate_ready_engines`.
unfoldable pub incompatible_error : PortError
incompatible_error = port_error "asr.worker.incompatible" "errors.asr.worker_incompatible" false

-- The error of a resolver that has no file.
unfoldable pub artifact_missing_error : PortError
artifact_missing_error =
    port_error "asr.audio_artifact_missing" "errors.asr.audio_artifact_missing" false

unfoldable pub cancel_pending_error : PortError
cancel_pending_error = port_error "asr.cancel_already_pending" "errors.asr.cancel_pending" true

code_text : WorkerErrorCode → String
code_text protocol_incompatible = "asr.worker.incompatible"
code_text invalid_request = "asr.worker.invalid_request"
code_text engine_unavailable = "asr.engine_unavailable"
code_text model_missing = "asr.model_missing"
code_text model_incompatible = "asr.model_incompatible"
code_text inference_failed = "asr.transcription_failed"
code_text cancellation_failed = "asr.cancel_failed"
code_text internal = "asr.worker.internal"

-- The test on the code and the key of an empty transcript.
is_no_speech : WorkerErrorCode → String → Bool
is_no_speech inference_failed key =
    str_eq key "worker.qwen.empty_transcript" || str_eq key "worker.whisper.empty_transcript"
is_no_speech _ key = false

unfoldable pub map_worker_error : WorkerError → PortError
unfolding is_no_speech code_text
map_worker_error error =
    if str_eq error.safe_message_key "worker.error.deadline_exceeded"
    then timeout_error
    else if is_no_speech error.code error.safe_message_key
    then port_error asr_no_speech_code error.safe_message_key false
    else port_error (code_text error.code) error.safe_message_key error.retryable
