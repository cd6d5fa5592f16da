-- ===== src/Supervisor/Deadlines.antt =====
-- `SupervisorActor::enforce_deadlines` and the loop of `SupervisorActor::run`
-- (crates/remtene-adapters/src/asr_worker.rs).
use rem_tene_public.Base.{
  Bool, not, ◌&&◌, Option, none, some, Result, ok, err, leb, is_some, is_some_and, if◌then◌else◌,
}
use rem_tene_public.Routes.{PortError}
use rem_tene_public.Contract.Messages.{WorkerToCoreEnvelope}
use rem_tene_public.Contract.State.{WorkerProtocolState}
use rem_tene_public.Supervisor.{
  Outside, PendingHealth, PendingTranscription, health_answer, SupervisorActor,
}
use rem_tene_public.Supervisor.Errors.{protocol_error, timeout_error, supervisor_closed_error}
use rem_tene_public.Supervisor.Process.{
  emit, send_to_worker, terminate_process, fail_all, fail_process,
}
use rem_tene_public.Supervisor.Commands.{cancel_envelope}
use rem_tene_public.Supervisor.Answers.{handle_worker_envelope}

-- Where the cancellation of this expired transcription was sent, or could not be.
unfoldable pub expired :
    Outside → PendingTranscription → SupervisorActor × Result PortError (Unit {0}) → SupervisorActor
expired outside pending (s, err error) = fail_process outside error s
expired outside pending (s, ok _) = record s {
  pending_transcription = some (record pending {
    terminal_error = some timeout_error;
    cancel_deadline = some (outside.deadline_after s.config.cancel_timeout);
  });
}

-- The test of `request_expired`.
unfoldable pub is_expired : Outside → PendingTranscription → Bool
is_expired outside pending =
    leb pending.deadline outside.now && not (is_some pending.cancel_deadline)

-- `if request_expired { self.cancel_for_deadline() }`
unfoldable pub cancel_for_deadline :
    Outside → Option PendingTranscription → SupervisorActor → SupervisorActor
unfolding expired is_expired
cancel_for_deadline outside none s = s
cancel_for_deadline outside (some pending) s =
    if is_expired outside pending
    then expired outside pending
        (send_to_worker outside (cancel_envelope outside pending.request) s)
    else s

-- The two tests after the cancellation.
unfoldable pub enforce_cancel_and_shutdown : Outside → SupervisorActor → SupervisorActor
enforce_cancel_and_shutdown outside s =
    if is_some_and s.pending_transcription
      (λ pending. is_some_and pending.cancel_deadline (λ deadline. leb deadline outside.now))
    then fail_process outside timeout_error s
    else if is_some_and s.pending_shutdown (λ pending. leb pending.deadline outside.now)
    then fail_process outside timeout_error s
    else s

-- What follows the test of the health check.
unfoldable pub enforce_requests : Outside → SupervisorActor → SupervisorActor
unfolding cancel_for_deadline enforce_cancel_and_shutdown
enforce_requests outside s =
    enforce_cancel_and_shutdown outside (cancel_for_deadline outside s.pending_transcription s)

unfoldable pub enforce_health : Outside → Option PendingHealth → SupervisorActor → SupervisorActor
unfolding emit enforce_requests
enforce_health outside none s = enforce_requests outside s
enforce_health outside (some pending) s =
    if leb pending.deadline outside.now
    then fail_process outside timeout_error (
        emit (health_answer pending.response (err timeout_error))
          (record s { pending_health = none }))
    else enforce_requests outside s

unfoldable pub enforce_deadlines : Outside → SupervisorActor → SupervisorActor
unfolding enforce_health
enforce_deadlines outside s = enforce_health outside s.pending_health s

-- What the reader of the worker's output put into the queue; nothing is read without a process.
unfoldable pub read_with :
    Outside
    → Result (Unit {0}) WorkerToCoreEnvelope
    → Option WorkerProtocolState
    → SupervisorActor
    → SupervisorActor
read_with outside event none s = s
read_with outside (ok envelope) (some _) s = handle_worker_envelope outside envelope s
read_with outside (err _) (some _) s = fail_process outside protocol_error s

unfoldable pub read_output :
    Outside → Result (Unit {0}) WorkerToCoreEnvelope → SupervisorActor → SupervisorActor
unfolding read_with
read_output outside event s = read_with outside event s.process s

-- The end of the channel of commands.
unfoldable pub disconnect : Outside → SupervisorActor → SupervisorActor
disconnect outside s = terminate_process (fail_all outside supervisor_closed_error s)
