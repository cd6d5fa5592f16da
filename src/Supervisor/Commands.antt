-- ===== src/Supervisor/Commands.antt =====
-- `SupervisorActor::handle_command` (crates/remtene-adapters/src/asr_worker.rs): health checks,
-- transcriptions, cancellations and shutdowns.
use rem_tene_public.Base.{
  ℕ, Bool, not, ◌||◌, Option, none, some, String, Result, ok, err, ◌==◌, is_some, if◌then◌else◌,
}
use rem_tene_public.Base.Text.{Text}
use rem_tene_public.Settings.{AsrEngine, qwen, whisper}
use rem_tene_public.Routes.{PortError}
use rem_tene_public.Ports.{AsrRequest}
use rem_tene_public.Contract.Messages.{
  WorkerEngineId, CoreToWorkerMessage, CoreToWorkerEnvelope, TranscribeRequest,
}
use rem_tene_public.Supervisor.{
  model_id, Outside, PendingTranscription, health_answer, transcript_answer, plain_answer, granted,
  revoked, SupervisorActor,
}
use rem_tene_public.Supervisor.Errors.{
  worker_busy_error, cancelled_error, supervisor_closed_error, artifact_missing_error,
  cancel_pending_error,
}
use rem_tene_public.Supervisor.Process.{
  emit, core_envelope, send_to_worker, ensure_worker, cleanup_error, unwrap_or, fail_process,
}

unfoldable pub worker_engine : AsrEngine → WorkerEngineId
worker_engine qwen = WorkerEngineId.qwen
worker_engine whisper = WorkerEngineId.whisper

-- `core_envelope` with the id and the time of this step.
abbrev pub envelope_of : Outside → Option ℕ → Option ℕ → CoreToWorkerMessage → CoreToWorkerEnvelope
envelope_of outside = core_envelope outside.message_id outside.sent_at

-- Where the new health check was sent, or could not be.
unfoldable pub sent_health :
    Outside → AsrEngine → ℕ → SupervisorActor × Result PortError (Unit {0}) → SupervisorActor
unfolding emit
sent_health outside engine response (s, err error) =
    fail_process outside error (emit (health_answer response (err error)) s)
sent_health outside engine response (s, ok _) = record s {
  pending_health = some record {
    request_id = outside.new_id;
    engine = engine;
    model_id = model_id s.config engine;
    deadline = outside.deadline_after s.config.health_timeout;
    response = response;
  };
}

unfoldable pub health_with_worker :
    Outside → AsrEngine → ℕ → SupervisorActor × Result PortError (Unit {0}) → SupervisorActor
unfolding emit sent_health worker_engine
health_with_worker outside engine response (s, err error) =
    emit (health_answer response (err error)) s
health_with_worker outside engine response (s, ok _) = sent_health outside engine response (
    send_to_worker outside
      (envelope_of outside none (some outside.new_id) (
        CoreToWorkerMessage.health_check
          record { engine_id = worker_engine engine; model_id = model_id s.config engine }))
      s)

unfoldable pub is_busy : SupervisorActor → Bool
is_busy s = is_some s.pending_health || is_some s.pending_transcription

unfoldable pub start_health : Outside → AsrEngine → ℕ → SupervisorActor → SupervisorActor
unfolding emit health_with_worker is_busy
start_health outside engine response s =
    if is_some s.pending_shutdown
    then emit (health_answer response (err supervisor_closed_error)) s
    else if is_busy s
    then emit (health_answer response (err worker_busy_error)) s
    else health_with_worker outside engine response (ensure_worker outside s)

unfoldable pub transcribe_request : AsrRequest → Text → ℕ → TranscribeRequest
unfolding worker_engine
transcribe_request request model grant = record {
  session_id = request.session_id;
  request_id = request.request_id;
  engine_id = worker_engine request.engine;
  model_id = model;
  audio_artifact_id = grant;
  audio_format = record {
    sample_rate_hz = request.audio.sample_rate_hz;
    channels = request.audio.channels;
    bits_per_sample = request.audio.bits_per_sample;
  };
  language_hint = request.language_hint;
  deadline_ms = request.deadline_ms;
}

-- Where the new transcription was sent, or could not be.
unfoldable pub sent_transcription :
    Outside → AsrRequest → ℕ → ℕ → SupervisorActor × Result PortError (Unit {0}) → SupervisorActor
unfolding emit cleanup_error unwrap_or
sent_transcription outside request grant response (s, err error) = fail_process outside error (
    emit (transcript_answer response (err (unwrap_or (cleanup_error outside) error)))
      (emit (revoked grant) s))
sent_transcription outside request grant response (s, ok _) = record s {
  pending_transcription = some record {
    request = request;
    model_id = model_id s.config request.engine;
    grant = grant;
    deadline = outside.deadline_after request.deadline_ms;
    cancel_deadline = none;
    terminal_error = none;
    cancel_response = none;
    response = response;
  };
}

unfoldable pub with_grant :
    Outside → AsrRequest → ℕ → SupervisorActor → Result PortError ℕ → SupervisorActor
unfolding emit sent_transcription transcribe_request
with_grant outside request response s (err error) = emit (transcript_answer response (err error)) s
with_grant outside request response s (ok grant) =
    sent_transcription outside request grant response (
      send_to_worker outside
        (envelope_of outside (some request.session_id) (some request.request_id) (
          CoreToWorkerMessage.transcribe
            (transcribe_request request (model_id s.config request.engine) grant)))
        (emit (granted grant) s))

unfoldable pub with_source :
    Outside → AsrRequest → ℕ → SupervisorActor → Result PortError (Option String) → SupervisorActor
unfolding emit with_grant
with_source outside request response s (err error) = emit (transcript_answer response (err error)) s
with_source outside request response s (ok none) =
    emit (transcript_answer response (err artifact_missing_error)) s
with_source outside request response s (ok (some source)) =
    with_grant outside request response s outside.granted

unfoldable pub transcription_with_worker :
    Outside → AsrRequest → ℕ → SupervisorActor × Result PortError (Unit {0}) → SupervisorActor
unfolding emit with_source
transcription_with_worker outside request response (s, err error) =
    emit (transcript_answer response (err error)) s
transcription_with_worker outside request response (s, ok _) =
    with_source outside request response s outside.source

unfoldable pub start_transcription : Outside → AsrRequest → ℕ → SupervisorActor → SupervisorActor
unfolding emit transcription_with_worker is_busy
start_transcription outside request response s =
    if is_some s.pending_shutdown
    then emit (transcript_answer response (err supervisor_closed_error)) s
    else if is_busy s
    then emit (transcript_answer response (err worker_busy_error)) s
    else transcription_with_worker outside request response (ensure_worker outside s)

abbrev pub cancel_envelope : Outside → AsrRequest → CoreToWorkerEnvelope
cancel_envelope outside request =
    envelope_of outside (some request.session_id) (some request.request_id) (
      CoreToWorkerMessage.cancel
        record { session_id = request.session_id; request_id = request.request_id })

-- Where the cancellation of this transcription was sent, or could not be.
unfoldable pub sent_cancel :
    Outside
    → ℕ
    → PendingTranscription
    → SupervisorActor × Result PortError (Unit {0})
    → SupervisorActor
unfolding emit
sent_cancel outside response pending (s, err error) =
    fail_process outside error (emit (plain_answer response (err error)) s)
sent_cancel outside response pending (s, ok _) = record s {
  pending_transcription = some (record pending {
    cancel_deadline = some (outside.deadline_after s.config.cancel_timeout);
    terminal_error = some cancelled_error;
    cancel_response = some response;
  });
}

unfoldable pub cancel_pending :
    Outside → ℕ → ℕ → Option PendingTranscription → SupervisorActor → SupervisorActor
unfolding emit sent_cancel
cancel_pending outside request_id response none s = emit (plain_answer response (ok tt)) s
cancel_pending outside request_id response (some pending) s =
    if not (pending.request.request_id == request_id)
    then emit (plain_answer response (ok tt)) s
    else if is_some pending.cancel_response
    then emit (plain_answer response (err cancel_pending_error)) s
    else sent_cancel outside response pending
        (send_to_worker outside (cancel_envelope outside pending.request) s)

unfoldable pub cancel_transcription : Outside → ℕ → ℕ → SupervisorActor → SupervisorActor
unfolding cancel_pending
cancel_transcription outside request_id response s =
    cancel_pending outside request_id response s.pending_transcription s
