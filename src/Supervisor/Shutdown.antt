-- ===== src/Supervisor/Shutdown.antt =====
-- `SupervisorActor::start_shutdown` (crates/remtene-adapters/src/asr_worker.rs), and the dispatch of
-- the commands. The second component of a result is whether the actor stops.
use rem_tene_public.Base.{
  ℕ, Bool, false, not, ◌&&◌, Option, none, some, Result, ok, err, is_some, if◌then◌else◌,
}
use rem_tene_public.Routes.{PortError}
use rem_tene_public.Contract.Messages.{CoreToWorkerMessage}
use rem_tene_public.Supervisor.{
  Outside, PendingHealth, PendingTranscription, health_answer, plain_answer, SupervisorCommand,
  health, transcribe, cancel, shutdown, SupervisorActor,
}
use rem_tene_public.Supervisor.Errors.{worker_busy_error, supervisor_closed_error}
use rem_tene_public.Supervisor.Process.{emit, send_to_worker, fail_process}
use rem_tene_public.Supervisor.Commands.{
  envelope_of, is_busy, start_health, start_transcription, cancel_transcription,
}

-- `if let Some(health) = self.pending_health.take()`
unfoldable pub close_health : Option PendingHealth → SupervisorActor → SupervisorActor
unfolding emit
close_health none s = s
close_health (some pending) s =
    emit (health_answer pending.response (err supervisor_closed_error))
      (record s { pending_health = none })

-- `if let Some(pending) = self.pending_transcription.as_mut()`
unfoldable pub close_transcription :
    Outside → Option PendingTranscription → SupervisorActor → SupervisorActor
close_transcription outside none s = s
close_transcription outside (some pending) s = record s {
  pending_transcription = some (record pending {
    terminal_error = some supervisor_closed_error;
    cancel_deadline = some (outside.deadline_after s.config.shutdown_timeout);
  });
}

-- Where the shutdown was sent, or could not be.
unfoldable pub sent_shutdown :
    Outside → Bool → ℕ → SupervisorActor × Result PortError (Unit {0}) → SupervisorActor × Bool
unfolding emit close_transcription
sent_shutdown outside close_supervisor response (s, err error) =
    (fail_process outside error (emit (plain_answer response (err error)) s), close_supervisor)
sent_shutdown outside close_supervisor response (s, ok _) = (
  record (close_transcription outside s.pending_transcription s) {
    pending_shutdown = some record {
      deadline = outside.deadline_after s.config.shutdown_timeout;
      close_supervisor = close_supervisor;
      response = response;
    };
  },
  false,
)

unfoldable pub start_shutdown : Outside → Bool → ℕ → SupervisorActor → SupervisorActor × Bool
unfolding emit close_health sent_shutdown is_busy
start_shutdown outside close_supervisor response s =
    if is_some s.pending_shutdown
    then (emit (plain_answer response (err supervisor_closed_error)) s, false)
    else if not close_supervisor && is_busy s
    then (emit (plain_answer response (err worker_busy_error)) s, false)
    else if not (is_some s.process)
    then (emit (plain_answer response (ok tt)) s, close_supervisor)
    else sent_shutdown outside close_supervisor response (
        send_to_worker outside
          (envelope_of outside none none
            (CoreToWorkerMessage.shutdown record { grace_period_ms = s.config.shutdown_timeout }))
          (close_health s.pending_health s))

unfoldable pub handle_command :
    Outside → SupervisorCommand → SupervisorActor → SupervisorActor × Bool
handle_command outside (health engine response) s = (start_health outside engine response s, false)
handle_command outside (transcribe request response) s =
    (start_transcription outside request response s, false)
handle_command outside (cancel request_id response) s =
    (cancel_transcription outside request_id response s, false)
handle_command outside (shutdown close_supervisor response) s =
    start_shutdown outside close_supervisor response s
