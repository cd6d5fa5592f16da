-- ===== src/Supervisor/Answers.antt =====
-- `SupervisorActor::handle_worker_envelope` (crates/remtene-adapters/src/asr_worker.rs): what the
-- worker's messages do to what waits for them.
use rem_tene_public.Base.{
  ℕ, Bool, not, ◌&&◌, ◌||◌, Option, none, some, Result, ok, err, ◌==◌, is_some, is_some_and,
  if◌then◌else◌,
}
use rem_tene_public.Base.Sets.{◌=?◌, nat_eq, list_eq}
use rem_tene_public.Routes.{PortError, EngineHealth}
use rem_tene_public.Ports.{AsrRequest, AsrResult}
use rem_tene_public.Contract.Messages.{
  HealthStatus, HealthResult, TranscriptResult, WorkerError, WorkerToCoreMessage,
  WorkerToCoreEnvelope, engine_eq,
}
use rem_tene_public.Contract.State.{WorkerProtocolState, Observed, observe_worker}
use rem_tene_public.Supervisor.{
  Outside, PendingHealth, PendingTranscription, PendingShutdown, health_answer, transcript_answer,
  plain_answer, revoked, SupervisorActor,
}
use rem_tene_public.Supervisor.Errors.{
  protocol_error, cancelled_error, supervisor_closed_error, map_worker_error,
}
use rem_tene_public.Supervisor.Process.{
  emit, terminate_process, cleanup_error, unwrap_or, answer_cancel, fail_process,
}
use rem_tene_public.Supervisor.Commands.{worker_engine}

unfoldable pub engine_health : HealthStatus → EngineHealth
engine_health HealthStatus.healthy = EngineHealth.healthy
engine_health HealthStatus.unhealthy = EngineHealth.unhealthy
engine_health HealthStatus.missing = EngineHealth.missing
engine_health HealthStatus.incompatible = EngineHealth.incompatible

-- `Some(id) == value`
abbrev pub is_id : Option ℕ → ℕ → Bool
is_id value id = is_some_and value (λ v. v == id)

unfoldable pub is_answer_to : Option ℕ → HealthResult → PendingHealth → Bool
unfolding worker_engine
is_answer_to request_id result pending =
    is_id request_id pending.request_id
    && (result.engine_id =? worker_engine pending.engine && result.model_id =? pending.model_id)

unfoldable pub complete_health_of :
    Outside → Option ℕ → HealthResult → Option PendingHealth → SupervisorActor → SupervisorActor
unfolding emit is_answer_to engine_health
complete_health_of outside request_id result none s = fail_process outside protocol_error s
complete_health_of outside request_id result (some pending) s =
    let taken = record s { pending_health = none } in
    if not (is_answer_to request_id result pending)
    then fail_process outside protocol_error
        (emit (health_answer pending.response (err protocol_error)) taken)
    else emit (health_answer pending.response (ok (engine_health result.status))) taken

unfoldable pub complete_health :
    Outside → Option ℕ → HealthResult → SupervisorActor → SupervisorActor
unfolding complete_health_of
complete_health outside request_id result s =
    complete_health_of outside request_id result s.pending_health s

-- `cleanup_error.map_or(Ok(()), Err)`
unfoldable pub or_ok : Option PortError → Result PortError (Unit {0})
or_ok none = ok tt
or_ok (some error) = err error

-- The transcription is over: its grant was revoked, its request and then its cancellation answered.
unfoldable pub settle :
    PendingTranscription
    → Result PortError AsrResult
    → Result PortError (Unit {0})
    → SupervisorActor
    → SupervisorActor
unfolding emit answer_cancel
settle pending result cancelled s = answer_cancel pending.cancel_response cancelled (
    emit (transcript_answer pending.response result)
      (emit (revoked pending.grant) (record s { pending_transcription = none })))

-- The branch of an answer that does not fit.
unfoldable pub reject_answer : Outside → PendingTranscription → SupervisorActor → SupervisorActor
unfolding settle cleanup_error unwrap_or
reject_answer outside pending s =
    let error = unwrap_or (cleanup_error outside) protocol_error in
    fail_process outside protocol_error (settle pending (err error) (err error) s)

unfoldable pub is_transcript_of : TranscriptResult → PendingTranscription → Bool
unfolding worker_engine
is_transcript_of result pending =
    result.session_id == pending.request.session_id
    && (result.request_id == pending.request.request_id
        && (result.engine_id =? worker_engine pending.request.engine
            && result.model_id =? pending.model_id))

-- `cleanup.map(|()| AsrResult { … })`
unfoldable pub transcribed :
    TranscriptResult → AsrRequest → Option PortError → Result PortError AsrResult
transcribed result request (some error) = err error
transcribed result request none = ok record {
  session_id = request.session_id;
  request_id = request.request_id;
  engine = request.engine;
  final_text = result.final_text;
  detected_language = result.detected_language;
  inference_duration_ms = result.inference_duration_ms;
}

unfoldable pub complete_transcription_of :
    Outside → TranscriptResult → Option PendingTranscription → SupervisorActor → SupervisorActor
unfolding settle reject_answer is_transcript_of transcribed cleanup_error
complete_transcription_of outside result none s = fail_process outside protocol_error s
complete_transcription_of outside result (some pending) s =
    if is_some pending.cancel_response || not (is_transcript_of result pending)
    then reject_answer outside pending s
    else settle pending (transcribed result pending.request (cleanup_error outside)) (ok tt) s

unfoldable pub complete_transcription :
    Outside → TranscriptResult → SupervisorActor → SupervisorActor
unfolding complete_transcription_of
complete_transcription outside result s =
    complete_transcription_of outside result s.pending_transcription s

unfoldable pub complete_cancelled_of :
    Outside → ℕ → ℕ → Option PendingTranscription → SupervisorActor → SupervisorActor
unfolding settle reject_answer cleanup_error unwrap_or or_ok
complete_cancelled_of outside session_id request_id none s = fail_process outside protocol_error s
complete_cancelled_of outside session_id request_id (some pending) s =
    if not (session_id == pending.request.session_id && request_id == pending.request.request_id)
    then reject_answer outside pending s
    else settle pending
        (err (unwrap_or (cleanup_error outside) (unwrap_or pending.terminal_error cancelled_error)))
        (or_ok (cleanup_error outside)) s

unfoldable pub complete_cancelled : Outside → ℕ → ℕ → SupervisorActor → SupervisorActor
unfolding complete_cancelled_of
complete_cancelled outside session_id request_id s =
    complete_cancelled_of outside session_id request_id s.pending_transcription s

-- `self.pending_transcription.take_if(…)`
unfoldable pub is_failure_of : Option ℕ → Option ℕ → PendingTranscription → Bool
is_failure_of session_id request_id pending =
    is_id session_id pending.request.session_id && is_id request_id pending.request.request_id

unfoldable pub is_health_failure_of : Option ℕ → Option ℕ → PendingHealth → Bool
is_health_failure_of session_id request_id pending =
    not (is_some session_id) && is_id request_id pending.request_id

unfoldable pub if_fatal : Outside → WorkerError → SupervisorActor → SupervisorActor
if_fatal outside error s =
    if error.fatal then fail_process outside (map_worker_error error) s else s

unfoldable pub fail_health_of :
    Outside
    → Option ℕ
    → Option ℕ
    → WorkerError
    → Option PendingHealth
    → SupervisorActor
    → SupervisorActor
unfolding emit is_health_failure_of if_fatal
fail_health_of outside session_id request_id error none s = fail_process outside protocol_error s
fail_health_of outside session_id request_id error (some pending) s =
    if is_health_failure_of session_id request_id pending
    then if_fatal outside error (
        emit (health_answer pending.response (err (map_worker_error error)))
          (record s { pending_health = none }))
    else fail_process outside protocol_error s

unfoldable pub fail_transcription_of :
    Outside
    → Option ℕ
    → Option ℕ
    → WorkerError
    → Option PendingTranscription
    → SupervisorActor
    → SupervisorActor
unfolding is_failure_of settle if_fatal fail_health_of cleanup_error unwrap_or
fail_transcription_of outside session_id request_id error none s =
    fail_health_of outside session_id request_id error s.pending_health s
fail_transcription_of outside session_id request_id error (some pending) s =
    let mapped = map_worker_error error in
    if is_failure_of session_id request_id pending
    then if_fatal outside error (
        settle pending
          (err (unwrap_or (cleanup_error outside) (unwrap_or pending.terminal_error mapped)))
          (err (unwrap_or (cleanup_error outside) mapped)) s)
    else fail_health_of outside session_id request_id error s.pending_health s

unfoldable pub complete_worker_error :
    Outside → Option ℕ → Option ℕ → WorkerError → SupervisorActor → SupervisorActor
unfolding fail_transcription_of
complete_worker_error outside session_id request_id error s =
    fail_transcription_of outside session_id request_id error s.pending_transcription s

-- `if let Some(pending) = self.pending_transcription.take()`
unfoldable pub settle_closed :
    Outside → Option PendingTranscription → SupervisorActor → SupervisorActor
unfolding settle cleanup_error unwrap_or or_ok
settle_closed outside none s = s
settle_closed outside (some pending) s =
    settle pending (err (unwrap_or (cleanup_error outside) supervisor_closed_error))
      (or_ok (cleanup_error outside)) s

unfoldable pub complete_shutdown_of :
    Outside → Option PendingShutdown → SupervisorActor → SupervisorActor
unfolding emit settle_closed terminate_process
complete_shutdown_of outside none s = fail_process outside protocol_error s
complete_shutdown_of outside (some shutdown) s =
    record (terminate_process (
      emit (plain_answer shutdown.response (ok tt))
        (settle_closed outside s.pending_transcription (record s { pending_shutdown = none })))) {
          closed = shutdown.close_supervisor;
        }

unfoldable pub complete_shutdown : Outside → SupervisorActor → SupervisorActor
unfolding complete_shutdown_of
complete_shutdown outside s = complete_shutdown_of outside s.pending_shutdown s

-- The `match envelope.message`.
unfoldable pub dispatch :
    Outside → WorkerToCoreEnvelope → WorkerToCoreMessage → SupervisorActor → SupervisorActor
dispatch outside e (WorkerToCoreMessage.health_result result) s =
    complete_health outside e.request_id result s
dispatch outside e (WorkerToCoreMessage.transcript result) s =
    complete_transcription outside result s
dispatch outside e (WorkerToCoreMessage.cancelled result) s =
    complete_cancelled outside result.session_id result.request_id s
dispatch outside e (WorkerToCoreMessage.error error) s =
    complete_worker_error outside e.session_id e.request_id error s
dispatch outside e (WorkerToCoreMessage.shutdown_complete _) s = complete_shutdown outside s
dispatch outside e (WorkerToCoreMessage.ready _) s = fail_process outside protocol_error s

unfoldable pub after_observing :
    Outside → WorkerToCoreEnvelope → Observed → SupervisorActor → SupervisorActor
unfolding dispatch
after_observing outside e (protocol, err _) s =
    fail_process outside protocol_error (record s { process = some protocol })
after_observing outside e (protocol, ok _) s =
    dispatch outside e e.message (record s { process = some protocol })

unfoldable pub handle_with :
    Outside → WorkerToCoreEnvelope → Option WorkerProtocolState → SupervisorActor → SupervisorActor
unfolding after_observing
handle_with outside e none s = s
handle_with outside e (some protocol) s = after_observing outside e (observe_worker protocol e) s

unfoldable pub handle_worker_envelope :
    Outside → WorkerToCoreEnvelope → SupervisorActor → SupervisorActor
unfolding handle_with
handle_worker_envelope outside e s = handle_with outside e s.process s
