-- ===== src/Supervisor/Sound.antt =====
-- What is pending in the supervisor at any one time.
pub mod Deadlines
pub mod Commands
pub mod Runs
use rem_tene_public.Base.{
  ◌≡◌, ◌≢◌, refl, sym, ap, ◌∙◌, ℕ, ◌+◌, Bool, true, false, not, Option, none, some, List, [], ◌∷◌,
  Result, ok, err, arith, if◌then◌else◌, is_some,
}
use rem_tene_public.Routes.{PortError}
use rem_tene_public.Ports.{AsrResult}
use rem_tene_public.Contract.Messages.{
  HealthResult, TranscriptResult, WorkerError, WorkerToCoreMessage, WorkerToCoreEnvelope,
}
use rem_tene_public.Contract.State.{WorkerProtocolState, Observed, observe_worker}
use rem_tene_public.Supervisor.{
  Outside, PendingHealth, PendingTranscription, PendingShutdown, Event, SupervisorActor,
}
use rem_tene_public.Supervisor.Errors.{timeout_error}
use rem_tene_public.Supervisor.Process.{emit, answer_cancel, fail_process, terminate_process}
use rem_tene_public.Supervisor.Answers.{
  complete_health_of, complete_health, settle, reject_answer, complete_transcription_of,
  complete_transcription, complete_cancelled_of, complete_cancelled, if_fatal, fail_health_of,
  fail_transcription_of, complete_worker_error, settle_closed, complete_shutdown_of,
  complete_shutdown, dispatch, after_observing, handle_with, handle_worker_envelope,
}
use rem_tene_public.Supervisor.Deadlines.{read_with, read_output}
use rem_tene_public.Supervisor.Ledger.Failures.{IsIdle, fail_process_lem}

-- Without a process nothing is pending; a shutdown leaves no health check pending; a health check
-- and a transcription are not pending together; a closed supervisor has nothing pending.
unfoldable pub IsSound : SupervisorActor → Type 0
IsSound s =
    (s.process ≡ none → IsIdle s)
    × (s.pending_shutdown ≢ none → s.pending_health ≡ none)
    × (s.pending_health ≢ none → s.pending_transcription ≡ none)
    × (s.closed ≡ true → IsIdle s)

pub idle-IsSound : (s : SupervisorActor) → IsIdle s → IsSound s
unfolding IsSound
idle-IsSound s (a, b, c) = (λ _. (a, b, c), λ _. a, λ _. b, λ _. (a, b, c))

pub fail_process-IsSound :
    (outside : Outside) (e : PortError) (s : SupervisorActor) → IsSound (fail_process outside e s)
fail_process-IsSound outside e s =
    idle-IsSound (fail_process outside e s) (fail_process_lem 0 outside e s).1

pub if-IsSound :
    (b : Bool) (x y : SupervisorActor) → IsSound x → IsSound y → IsSound (if b then x else y)
if-IsSound true x y h k = h
if-IsSound false x y h k = k

pub take_health-IsSound :
    (e : Event) (s : SupervisorActor)
    → IsSound s
    → IsSound (emit e (record s { pending_health = none }))
unfolding emit IsSound
take_health-IsSound e s h = ground arith

settle-IsSound :
    (pending : PendingTranscription) (r : Result PortError AsrResult)
    (c : Result PortError (Unit {0})) (s : SupervisorActor)
    → IsSound s
    → IsSound (settle pending r c s)
unfolding settle answer_cancel emit IsSound
settle-IsSound pending r c s h = ground arith

complete_health-IsSound :
    (outside : Outside) (request_id : Option ℕ) (result : HealthResult) (o : Option PendingHealth)
    (s : SupervisorActor)
    → IsSound s
    → IsSound (complete_health_of outside request_id result o s)
unfolding complete_health_of
complete_health-IsSound outside request_id result none s h = fail_process-IsSound outside _ s
complete_health-IsSound outside request_id result (some pending) s h =
    if-IsSound _ _ _ (fail_process-IsSound outside _ _) (take_health-IsSound _ s h)

complete_transcription-IsSound :
    (outside : Outside) (result : TranscriptResult) (o : Option PendingTranscription)
    (s : SupervisorActor)
    → IsSound s
    → IsSound (complete_transcription_of outside result o s)
unfolding complete_transcription_of reject_answer
complete_transcription-IsSound outside result none s h = fail_process-IsSound outside _ s
complete_transcription-IsSound outside result (some pending) s h =
    if-IsSound _ _ _ (fail_process-IsSound outside _ _) (settle-IsSound pending _ _ s h)

complete_cancelled-IsSound :
    (outside : Outside) (session request : ℕ) (o : Option PendingTranscription)
    (s : SupervisorActor)
    → IsSound s
    → IsSound (complete_cancelled_of outside session request o s)
unfolding complete_cancelled_of reject_answer
complete_cancelled-IsSound outside session request none s h = fail_process-IsSound outside _ s
complete_cancelled-IsSound outside session request (some pending) s h =
    if-IsSound _ _ _ (fail_process-IsSound outside _ _) (settle-IsSound pending _ _ s h)

if_fatal-IsSound :
    (outside : Outside) (error : WorkerError) (s : SupervisorActor)
    → IsSound s
    → IsSound (if_fatal outside error s)
unfolding if_fatal
if_fatal-IsSound outside error s h = if-IsSound error.fatal _ s (fail_process-IsSound outside _ s) h

fail_health-IsSound :
    (outside : Outside) (session request : Option ℕ) (error : WorkerError)
    (o : Option PendingHealth) (s : SupervisorActor)
    → IsSound s
    → IsSound (fail_health_of outside session request error o s)
unfolding fail_health_of
fail_health-IsSound outside session request error none s h = fail_process-IsSound outside _ s
fail_health-IsSound outside session request error (some pending) s h =
    if-IsSound _ _ _ (if_fatal-IsSound outside error _ (take_health-IsSound _ s h))
      (fail_process-IsSound outside _ s)

fail_transcription-IsSound :
    (outside : Outside) (session request : Option ℕ) (error : WorkerError)
    (o : Option PendingTranscription) (s : SupervisorActor)
    → IsSound s
    → IsSound (fail_transcription_of outside session request error o s)
unfolding fail_transcription_of
fail_transcription-IsSound outside session request error none s h =
    fail_health-IsSound outside session request error s.pending_health s h
fail_transcription-IsSound outside session request error (some pending) s h =
    if-IsSound _ _ _ (if_fatal-IsSound outside error _ (settle-IsSound pending _ _ s h))
      (fail_health-IsSound outside session request error s.pending_health s h)

settle_closed_lem :
    (outside : Outside) (o : Option PendingTranscription) (s : SupervisorActor)
    → s.pending_transcription ≡ o
    → ((settle_closed outside o s).pending_transcription ≡ none)
      × ((settle_closed outside o s).pending_health ≡ s.pending_health)
      × ((settle_closed outside o s).pending_shutdown ≡ s.pending_shutdown)
unfolding settle_closed settle answer_cancel emit
settle_closed_lem outside o s h = ground arith

-- The shutdown is complete: nothing is pending.
complete_shutdown-IsSound :
    (outside : Outside) (o : Option PendingShutdown) (s : SupervisorActor)
    → s.pending_shutdown ≡ o
    → IsSound s
    → IsSound (complete_shutdown_of outside o s)
unfolding complete_shutdown_of IsSound emit terminate_process
complete_shutdown-IsSound outside none s h k = fail_process-IsSound outside _ s
complete_shutdown-IsSound outside (some p) s h (_, closing, _, _) =
    let (a, b, c) =
      settle_closed_lem outside s.pending_transcription (record s { pending_shutdown = none })
        refl in
    let none_left = b ∙ closing (λ e. cc) in
    (λ _. (none_left, a, c), λ _. none_left, λ _. a, λ _. (none_left, a, c))

dispatch-IsSound :
    (outside : Outside) (e : WorkerToCoreEnvelope) (m : WorkerToCoreMessage) (s : SupervisorActor)
    → IsSound s
    → IsSound (dispatch outside e m s)
unfolding dispatch complete_health complete_transcription complete_cancelled complete_worker_error
    complete_shutdown
dispatch-IsSound outside e (WorkerToCoreMessage.health_result result) s h =
    complete_health-IsSound outside e.request_id result s.pending_health s h
dispatch-IsSound outside e (WorkerToCoreMessage.transcript result) s h =
    complete_transcription-IsSound outside result s.pending_transcription s h
dispatch-IsSound outside e (WorkerToCoreMessage.cancelled result) s h =
    complete_cancelled-IsSound outside result.session_id result.request_id s.pending_transcription s
      h
dispatch-IsSound outside e (WorkerToCoreMessage.error error) s h =
    fail_transcription-IsSound outside e.session_id e.request_id error s.pending_transcription s h
dispatch-IsSound outside e (WorkerToCoreMessage.shutdown_complete _) s h =
    complete_shutdown-IsSound outside s.pending_shutdown s refl h
dispatch-IsSound outside e (WorkerToCoreMessage.ready _) s h = fail_process-IsSound outside _ s

set_process-IsSound :
    (p : WorkerProtocolState) (s : SupervisorActor)
    → IsSound s
    → IsSound (record s { process = some p })
unfolding IsSound
set_process-IsSound p s h = ground arith

after_observing-IsSound :
    (outside : Outside) (e : WorkerToCoreEnvelope) (o : Observed) (s : SupervisorActor)
    → IsSound s
    → IsSound (after_observing outside e o s)
unfolding after_observing
after_observing-IsSound outside e (protocol, err _) s h = fail_process-IsSound outside _ _
after_observing-IsSound outside e (protocol, ok _) s h =
    dispatch-IsSound outside e e.message _ (set_process-IsSound protocol s h)

handle_with-IsSound :
    (outside : Outside) (e : WorkerToCoreEnvelope) (o : Option WorkerProtocolState)
    (s : SupervisorActor)
    → IsSound s
    → IsSound (handle_with outside e o s)
unfolding handle_with
handle_with-IsSound outside e none s h = h
handle_with-IsSound outside e (some protocol) s h =
    after_observing-IsSound outside e (observe_worker protocol e) s h

read_with-IsSound :
    (outside : Outside) (event : Result (Unit {0}) WorkerToCoreEnvelope)
    (o : Option WorkerProtocolState) (s : SupervisorActor)
    → IsSound s
    → IsSound (read_with outside event o s)
unfolding read_with handle_worker_envelope
read_with-IsSound outside event none s h = h
read_with-IsSound outside (ok e) (some _) s h = handle_with-IsSound outside e s.process s h
read_with-IsSound outside (err _) (some _) s h = fail_process-IsSound outside _ s

pub read_output-IsSound :
    (outside : Outside) (event : Result (Unit {0}) WorkerToCoreEnvelope) (s : SupervisorActor)
    → IsSound s
    → IsSound (read_output outside event s)
unfolding read_output
read_output-IsSound outside event s h = read_with-IsSound outside event s.process s h
