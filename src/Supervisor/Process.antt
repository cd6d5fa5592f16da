-- ===== src/Supervisor/Process.antt =====
-- The worker process of `SupervisorActor` (crates/remtene-adapters/src/asr_worker.rs): starting it,
-- writing to it, and failing everything that waits for it.
use rem_tene_public.Base.{
  ℕ, Bool, true, false, ◌&&◌, Option, none, some, List, [], ◌∷◌, Result, ok, err, is_some_and,
  if◌then◌else◌,
}
use rem_tene_public.Base.Sets.{contains}
use rem_tene_public.Routes.{PortError}
use rem_tene_public.Contract.Messages.{
  WorkerCapability, WorkerEngineId, WorkerReady, CoreToWorkerMessage, WorkerToCoreMessage,
  CoreToWorkerEnvelope, engine_eq,
}
use rem_tene_public.Contract.Validation.{contract_version}
use rem_tene_public.Contract.State.{WorkerProtocolState, Observed, observe_core, observe_worker}
use rem_tene_public.Contract.State as Protocol
use rem_tene_public.Supervisor.{
  WorkerLaunchConfig, Launch, not_spawned, unreadable, answers, Outside, PendingHealth,
  PendingTranscription, PendingShutdown, Event, health_answer, transcript_answer, plain_answer,
  revoked, SupervisorActor,
}
use rem_tene_public.Supervisor.Errors.{
  worker_spawn_error, worker_crashed_error, handshake_error, protocol_error,
  supervisor_closed_error, incompatible_error, artifact_cleanup_error,
}

unfoldable pub emit : Event → SupervisorActor → SupervisorActor
emit event s = record s { log = event ∷ s.log }

unfoldable pub core_envelope :
    ℕ → List ℕ → Option ℕ → Option ℕ → CoreToWorkerMessage → CoreToWorkerEnvelope
core_envelope message_id sent_at session_id request_id message = record {
  contract_version = contract_version;
  message_id = message_id;
  session_id = session_id;
  request_id = request_id;
  sent_at = sent_at;
  message = message;
}

abbrev pub required_capabilities : List WorkerCapability
required_capabilities =
    WorkerCapability.health_check ∷ WorkerCapability.final_transcript
    ∷ WorkerCapability.cancellation ∷ WorkerCapability.graceful_shutdown ∷ []

-- The result of `WorkerProcess::send` after the protocol has observed the envelope.
unfoldable pub write : Bool → Observed → WorkerProtocolState × Result PortError (Unit {0})
write written (protocol, err _) = (protocol, err protocol_error)
write true (protocol, ok _) = (protocol, ok tt)
write false (protocol, ok _) = (protocol, err worker_crashed_error)

-- `WorkerProcess::send`; the process has its `stdin` until it is terminated.
unfoldable pub send :
    Bool
    → WorkerProtocolState
    → CoreToWorkerEnvelope
    → WorkerProtocolState × Result PortError (Unit {0})
unfolding write
send written protocol envelope = write written (observe_core protocol envelope)

unfoldable pub send_with :
    Outside
    → CoreToWorkerEnvelope
    → Option WorkerProtocolState
    → SupervisorActor
    → SupervisorActor × Result PortError (Unit {0})
send_with outside envelope none s = (s, err supervisor_closed_error)
send_with outside envelope (some protocol) s =
    let (protocol', result) = send outside.written protocol envelope in
    (record s { process = some protocol' }, result)

unfoldable pub send_to_worker :
    Outside → CoreToWorkerEnvelope → SupervisorActor → SupervisorActor × Result PortError (Unit {0})
unfolding send_with
send_to_worker outside envelope s = send_with outside envelope s.process s

unfoldable pub validate_ready_engines : WorkerReady → Bool
validate_ready_engines ready =
    contains ready.supported_engines WorkerEngineId.qwen
    && contains ready.supported_engines WorkerEngineId.whisper

-- The first message of the worker after it was observed.
unfoldable pub greeted : WorkerToCoreMessage → Observed → Result PortError WorkerProtocolState
unfolding validate_ready_engines
greeted message (protocol, err _) = err protocol_error
greeted (WorkerToCoreMessage.ready ready) (protocol, ok _) =
    if validate_ready_engines ready then ok protocol else err incompatible_error
greeted _ (protocol, ok _) = err protocol_error

-- What follows the hello: `recv_timeout`, the check of the envelope, and its reading.
unfoldable pub receive :
    Launch
    → WorkerProtocolState × Result PortError (Unit {0})
    → Result PortError WorkerProtocolState
unfolding greeted
receive launch (protocol, err e) = err e
receive (answers envelope) (protocol, ok _) =
    greeted envelope.message (observe_worker protocol envelope)
receive unreadable (protocol, ok _) = err protocol_error
receive _ (protocol, ok _) = err handshake_error

-- A process that cannot be used is dropped, which terminates it.
unfoldable pub start_process :
    WorkerLaunchConfig → Outside → Launch → Result PortError WorkerProtocolState
unfolding receive
start_process config outside not_spawned = err worker_spawn_error
start_process config outside launch = receive launch (
    send outside.hello_written Protocol.new (
      core_envelope outside.hello_id outside.sent_at none none (
        CoreToWorkerMessage.hello record {
          supported_protocol_versions = contract_version ∷ [];
          core_version = config.core_version;
          required_capabilities = required_capabilities;
        })))

unfoldable pub keep_process :
    SupervisorActor
    → Result PortError WorkerProtocolState
    → SupervisorActor × Result PortError (Unit {0})
keep_process s (err e) = (s, err e)
keep_process s (ok protocol) = (record s { process = some protocol }, ok tt)

unfoldable pub ensure_with :
    Outside
    → Option WorkerProtocolState
    → SupervisorActor
    → SupervisorActor × Result PortError (Unit {0})
unfolding keep_process start_process
ensure_with outside (some _) s = (s, ok tt)
ensure_with outside none s = keep_process s (start_process s.config outside outside.launch)

unfoldable pub ensure_worker :
    Outside → SupervisorActor → SupervisorActor × Result PortError (Unit {0})
unfolding ensure_with
ensure_worker outside s = ensure_with outside s.process s

unfoldable pub terminate_process : SupervisorActor → SupervisorActor
terminate_process s = record s { process = none }

-- The error of revoking a grant, if it fails.
unfoldable pub cleanup_error : Outside → Option PortError
cleanup_error outside = if outside.revoked then none else some artifact_cleanup_error

unfoldable pub unwrap_or : Option PortError → PortError → PortError
unwrap_or (some e) other = e
unwrap_or none other = other

-- `if let Some(cancel) = pending.cancel_response { cancel.complete(…) }`
unfoldable pub answer_cancel :
    Option ℕ → Result PortError (Unit {0}) → SupervisorActor → SupervisorActor
unfolding emit
answer_cancel none result s = s
answer_cancel (some response) result s = emit (plain_answer response result) s

unfoldable pub fail_health : PortError → Option PendingHealth → SupervisorActor → SupervisorActor
unfolding emit
fail_health error none s = s
fail_health error (some pending) s =
    emit (health_answer pending.response (err error)) (record s { pending_health = none })

unfoldable pub fail_transcription :
    Outside → PortError → Option PendingTranscription → SupervisorActor → SupervisorActor
unfolding emit unwrap_or cleanup_error answer_cancel
fail_transcription outside error none s = s
fail_transcription outside error (some pending) s =
    let terminal_error = unwrap_or (cleanup_error outside) error in
    emit (transcript_answer pending.response (err terminal_error)) (
      answer_cancel pending.cancel_response (err terminal_error)
        (emit (revoked pending.grant) (record s { pending_transcription = none })))

unfoldable pub fail_shutdown :
    PortError → Option PendingShutdown → SupervisorActor → SupervisorActor
unfolding emit
fail_shutdown error none s = s
fail_shutdown error (some pending) s =
    emit (plain_answer pending.response (err error)) (record s { pending_shutdown = none })

unfoldable pub fail_all : Outside → PortError → SupervisorActor → SupervisorActor
unfolding fail_health fail_transcription fail_shutdown
fail_all outside error s = fail_shutdown error s.pending_shutdown (
    fail_transcription outside error s.pending_transcription (fail_health error s.pending_health s))

unfoldable pub fail_process : Outside → PortError → SupervisorActor → SupervisorActor
unfolding terminate_process
fail_process outside error s =
    let failed = terminate_process (fail_all outside error s) in
    if is_some_and s.pending_shutdown (λ pending. pending.close_supervisor)
    then record failed { closed = true }
    else failed
