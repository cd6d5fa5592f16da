-- ===== src/Supervisor/Ledger/Answers.antt =====
-- The worker's messages, and the deadlines, answer what they take away.
use rem_tene_public.Base.{
  ◌≡◌, refl, sym, ap, ◌∙◌, ℕ, ◌+◌, Bool, true, false, Option, none, some, Result, ok, err, arith,
  one, ◌==◌, if◌then◌else◌,
}
use rem_tene_public.Routes.{PortError, EngineHealth}
use rem_tene_public.Ports.{AsrResult}
use rem_tene_public.Contract.Messages.{
  HealthResult, TranscriptResult, WorkerError, WorkerToCoreMessage, WorkerToCoreEnvelope,
}
use rem_tene_public.Contract.State.{WorkerProtocolState, Observed, observe_worker}
use rem_tene_public.Supervisor.{
  Outside, PendingHealth, PendingTranscription, PendingShutdown, health_answer, plain_answer,
  SupervisorActor,
}
use rem_tene_public.Supervisor.Process.{emit, answer_cancel, fail_process, terminate_process}
use rem_tene_public.Supervisor.Answers.{
  complete_health_of, complete_health, settle, reject_answer, complete_transcription_of,
  complete_transcription, complete_cancelled_of, complete_cancelled, if_fatal, fail_health_of,
  fail_transcription_of, complete_worker_error, settle_closed, complete_shutdown_of,
  complete_shutdown, dispatch, after_observing, handle_with, handle_worker_envelope,
}
use rem_tene_public.Supervisor.Deadlines.{read_with, read_output}
use rem_tene_public.Supervisor.Ledger.{answered, waiting}
use rem_tene_public.Supervisor.Ledger.Failures.{owed, fail_process_lem}

-- A step answers what it takes away.
abbrev pub Keeps : ℕ → SupervisorActor → SupervisorActor → Type 0
Keeps i s s' = owed i s' ≡ owed i s

pub fail_process-Keeps :
    (i : ℕ) (outside : Outside) (e : PortError) (s : SupervisorActor)
    → Keeps i s (fail_process outside e s)
fail_process-Keeps i outside e s = (fail_process_lem i outside e s).0

pub if-Keeps :
    (i : ℕ) (b : Bool) (s x y : SupervisorActor)
    → Keeps i s x
    → Keeps i s y
    → Keeps i s (if b then x else y)
if-Keeps i true s x y h k = h
if-Keeps i false s x y h k = k

-- The health check is answered.
pub answer_health-Keeps :
    (i : ℕ) (pending : PendingHealth) (r : Result PortError EngineHealth) (s : SupervisorActor)
    → s.pending_health ≡ some pending
    → Keeps i s (emit (health_answer pending.response r) (record s { pending_health = none }))
unfolding emit answered waiting
answer_health-Keeps i pending r s h = ground arith

complete_health-Keeps :
    (i : ℕ) (outside : Outside) (request_id : Option ℕ) (result : HealthResult)
    (o : Option PendingHealth) (s : SupervisorActor)
    → s.pending_health ≡ o
    → Keeps i s (complete_health_of outside request_id result o s)
unfolding complete_health_of
complete_health-Keeps i outside request_id result none s h = fail_process-Keeps i outside _ s
complete_health-Keeps i outside request_id result (some pending) s h =
    if-Keeps i _ s _ _ (fail_process-Keeps i outside _ _ ∙ answer_health-Keeps i pending _ s h)
      (answer_health-Keeps i pending _ s h)

settle-Keeps :
    (i : ℕ) (pending : PendingTranscription) (r : Result PortError AsrResult)
    (c : Result PortError (Unit {0})) (s : SupervisorActor)
    → s.pending_transcription ≡ some pending
    → Keeps i s (settle pending r c s)
unfolding settle answer_cancel emit answered waiting
settle-Keeps i pending r c s h = ground arith

reject_answer-Keeps :
    (i : ℕ) (outside : Outside) (pending : PendingTranscription) (s : SupervisorActor)
    → s.pending_transcription ≡ some pending
    → Keeps i s (reject_answer outside pending s)
unfolding reject_answer
reject_answer-Keeps i outside pending s h =
    fail_process-Keeps i outside _ _ ∙ settle-Keeps i pending _ _ s h

complete_transcription-Keeps :
    (i : ℕ) (outside : Outside) (result : TranscriptResult) (o : Option PendingTranscription)
    (s : SupervisorActor)
    → s.pending_transcription ≡ o
    → Keeps i s (complete_transcription_of outside result o s)
unfolding complete_transcription_of
complete_transcription-Keeps i outside result none s h = fail_process-Keeps i outside _ s
complete_transcription-Keeps i outside result (some pending) s h =
    if-Keeps i _ s _ _ (reject_answer-Keeps i outside pending s h) (settle-Keeps i pending _ _ s h)

complete_cancelled-Keeps :
    (i : ℕ) (outside : Outside) (session request : ℕ) (o : Option PendingTranscription)
    (s : SupervisorActor)
    → s.pending_transcription ≡ o
    → Keeps i s (complete_cancelled_of outside session request o s)
unfolding complete_cancelled_of
complete_cancelled-Keeps i outside session request none s h = fail_process-Keeps i outside _ s
complete_cancelled-Keeps i outside session request (some pending) s h =
    if-Keeps i _ s _ _ (reject_answer-Keeps i outside pending s h) (settle-Keeps i pending _ _ s h)

if_fatal-Keeps :
    (i : ℕ) (outside : Outside) (error : WorkerError) (s : SupervisorActor)
    → Keeps i s (if_fatal outside error s)
unfolding if_fatal
if_fatal-Keeps i outside error s =
    if-Keeps i error.fatal s _ _ (fail_process-Keeps i outside _ s) refl

fail_health-Keeps :
    (i : ℕ) (outside : Outside) (session request : Option ℕ) (error : WorkerError)
    (o : Option PendingHealth) (s : SupervisorActor)
    → s.pending_health ≡ o
    → Keeps i s (fail_health_of outside session request error o s)
unfolding fail_health_of
fail_health-Keeps i outside session request error none s h = fail_process-Keeps i outside _ s
fail_health-Keeps i outside session request error (some pending) s h =
    if-Keeps i _ s _ _ (if_fatal-Keeps i outside error _ ∙ answer_health-Keeps i pending _ s h)
      (fail_process-Keeps i outside _ s)

fail_transcription-Keeps :
    (i : ℕ) (outside : Outside) (session request : Option ℕ) (error : WorkerError)
    (o : Option PendingTranscription) (s : SupervisorActor)
    → s.pending_transcription ≡ o
    → Keeps i s (fail_transcription_of outside session request error o s)
unfolding fail_transcription_of
fail_transcription-Keeps i outside session request error none s h =
    fail_health-Keeps i outside session request error s.pending_health s refl
fail_transcription-Keeps i outside session request error (some pending) s h =
    if-Keeps i _ s _ _ (if_fatal-Keeps i outside error _ ∙ settle-Keeps i pending _ _ s h)
      (fail_health-Keeps i outside session request error s.pending_health s refl)

settle_closed-Keeps :
    (i : ℕ) (outside : Outside) (o : Option PendingTranscription) (s : SupervisorActor)
    → s.pending_transcription ≡ o
    → Keeps i s (settle_closed outside o s)
unfolding settle_closed
settle_closed-Keeps i outside none s h = refl
settle_closed-Keeps i outside (some pending) s h = settle-Keeps i pending _ _ s h

-- An answer, or the end of the process, on top.
emit_plain-owed :
    (i response : ℕ) (r : Result PortError (Unit {0})) (b : Bool) (s : SupervisorActor)
    → owed i (record (terminate_process (emit (plain_answer response r) s)) { closed = b })
      ≡ one (response == i) + owed i s
unfolding answered waiting emit terminate_process
emit_plain-owed i response r b s = ground arith

take_shutdown-owed :
    (i : ℕ) (p : PendingShutdown) (s : SupervisorActor)
    → s.pending_shutdown ≡ some p
    → owed i s ≡ one (p.response == i) + owed i (record s { pending_shutdown = none })
unfolding answered waiting
take_shutdown-owed i p s h = ground arith

complete_shutdown-Keeps :
    (i : ℕ) (outside : Outside) (o : Option PendingShutdown) (s : SupervisorActor)
    → s.pending_shutdown ≡ o
    → Keeps i s (complete_shutdown_of outside o s)
unfolding complete_shutdown_of
complete_shutdown-Keeps i outside none s h = fail_process-Keeps i outside _ s
complete_shutdown-Keeps i outside (some p) s h =
    emit_plain-owed i p.response _ _ _
    ∙ ap (λ n. one (p.response == i) + n)
        (settle_closed-Keeps i outside s.pending_transcription _ refl)
    ∙ sym (take_shutdown-owed i p s h)

dispatch-Keeps :
    (i : ℕ) (outside : Outside) (e : WorkerToCoreEnvelope) (m : WorkerToCoreMessage)
    (s : SupervisorActor)
    → Keeps i s (dispatch outside e m s)
unfolding dispatch complete_health complete_transcription complete_cancelled complete_worker_error
    complete_shutdown
dispatch-Keeps i outside e (WorkerToCoreMessage.health_result result) s =
    complete_health-Keeps i outside _ result _ s refl
dispatch-Keeps i outside e (WorkerToCoreMessage.transcript result) s =
    complete_transcription-Keeps i outside result _ s refl
dispatch-Keeps i outside e (WorkerToCoreMessage.cancelled result) s =
    complete_cancelled-Keeps i outside _ _ _ s refl
dispatch-Keeps i outside e (WorkerToCoreMessage.error error) s =
    fail_transcription-Keeps i outside _ _ error _ s refl
dispatch-Keeps i outside e (WorkerToCoreMessage.shutdown_complete _) s =
    complete_shutdown-Keeps i outside _ s refl
dispatch-Keeps i outside e (WorkerToCoreMessage.ready _) s = fail_process-Keeps i outside _ s

set_process-Keeps :
    (i : ℕ) (p : Option WorkerProtocolState) (s : SupervisorActor)
    → Keeps i s (record s { process = p })
unfolding answered waiting
set_process-Keeps i p s = refl

after_observing-Keeps :
    (i : ℕ) (outside : Outside) (e : WorkerToCoreEnvelope) (o : Observed) (s : SupervisorActor)
    → Keeps i s (after_observing outside e o s)
unfolding after_observing
after_observing-Keeps i outside e (protocol, err _) s =
    fail_process-Keeps i outside _ _ ∙ set_process-Keeps i (some protocol) s
after_observing-Keeps i outside e (protocol, ok _) s =
    dispatch-Keeps i outside e e.message _ ∙ set_process-Keeps i (some protocol) s

handle_with-Keeps :
    (i : ℕ) (outside : Outside) (e : WorkerToCoreEnvelope) (o : Option WorkerProtocolState)
    (s : SupervisorActor)
    → Keeps i s (handle_with outside e o s)
unfolding handle_with
handle_with-Keeps i outside e none s = refl
handle_with-Keeps i outside e (some protocol) s =
    after_observing-Keeps i outside e (observe_worker protocol e) s

read_with-Keeps :
    (i : ℕ) (outside : Outside) (event : Result (Unit {0}) WorkerToCoreEnvelope)
    (o : Option WorkerProtocolState) (s : SupervisorActor)
    → Keeps i s (read_with outside event o s)
unfolding read_with handle_worker_envelope
read_with-Keeps i outside event none s = refl
read_with-Keeps i outside (ok e) (some _) s = handle_with-Keeps i outside e s.process s
read_with-Keeps i outside (err _) (some _) s = fail_process-Keeps i outside _ s

pub read_output-Keeps :
    (i : ℕ) (outside : Outside) (event : Result (Unit {0}) WorkerToCoreEnvelope)
    (s : SupervisorActor)
    → Keeps i s (read_output outside event s)
unfolding read_output
read_output-Keeps i outside event s = read_with-Keeps i outside event s.process s
