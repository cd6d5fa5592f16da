-- ===== src/Supervisor/Ledger/Deadlines.antt =====
-- The deadlines answer what they take away.
use rem_tene_public.Base.{◌≡◌, refl, ap, ◌∙◌, ℕ, Option, none, some, Result, ok, err, arith}
use rem_tene_public.Routes.{PortError}
use rem_tene_public.Contract.Messages.{CoreToWorkerEnvelope}
use rem_tene_public.Contract.State.{WorkerProtocolState}
use rem_tene_public.Supervisor.{Outside, PendingHealth, PendingTranscription, SupervisorActor}
use rem_tene_public.Supervisor.Errors.{timeout_error}
use rem_tene_public.Supervisor.Process.{send_with, send_to_worker}
use rem_tene_public.Supervisor.Commands.{cancel_envelope}
use rem_tene_public.Supervisor.Deadlines.{
  expired, cancel_for_deadline, enforce_cancel_and_shutdown, enforce_requests, enforce_health,
  enforce_deadlines,
}
use rem_tene_public.Supervisor.Ledger.{answered, waiting}
use rem_tene_public.Supervisor.Ledger.Failures.{owed}
use rem_tene_public.Supervisor.Ledger.Answers.{
  Keeps, fail_process-Keeps, if-Keeps, answer_health-Keeps,
}

send_with-Same :
    (outside : Outside) (e : CoreToWorkerEnvelope) (o : Option WorkerProtocolState)
    (s : SupervisorActor)
    → (p : Option WorkerProtocolState) × ((send_with outside e o s).0 ≡ record s { process = p })
unfolding send_with
send_with-Same outside e none s = (s.process, refl)
send_with-Same outside e (some protocol) s = (_, refl)

-- Sending changes the process only.
pub send_to_worker-Same :
    (outside : Outside) (e : CoreToWorkerEnvelope) (s : SupervisorActor)
    → (p : Option WorkerProtocolState) × ((send_to_worker outside e s).0 ≡ record s { process = p })
unfolding send_to_worker
send_to_worker-Same outside e s = send_with-Same outside e s.process s

set_process-Keeps :
    (i : ℕ) (p : Option WorkerProtocolState) (s s' : SupervisorActor)
    → s' ≡ record s { process = p }
    → Keeps i s s'
unfolding answered waiting
set_process-Keeps i p s s' h = ap (owed i) h

pub send_to_worker-Keeps :
    (i : ℕ) (outside : Outside) (e : CoreToWorkerEnvelope) (s : SupervisorActor)
    → Keeps i s (send_to_worker outside e s).0
send_to_worker-Keeps i outside e s =
    let (p, same) = send_to_worker-Same outside e s in set_process-Keeps i p s _ same

pub send_to_worker-transcription :
    (outside : Outside) (e : CoreToWorkerEnvelope) (s : SupervisorActor)
    → (send_to_worker outside e s).0.pending_transcription ≡ s.pending_transcription
send_to_worker-transcription outside e s =
    let (p, same) = send_to_worker-Same outside e s in ap (λ a. a.pending_transcription) same

expired-Keeps :
    (i : ℕ) (outside : Outside) (pending : PendingTranscription)
    (sent : SupervisorActor × Result PortError (Unit {0}))
    → sent.0.pending_transcription ≡ some pending
    → Keeps i sent.0 (expired outside pending sent)
unfolding expired answered waiting
expired-Keeps i outside pending (s, err e) h = fail_process-Keeps i outside e s
expired-Keeps i outside pending (s, ok _) h = ground arith

cancel_for_deadline-Keeps :
    (i : ℕ) (outside : Outside) (o : Option PendingTranscription) (s : SupervisorActor)
    → s.pending_transcription ≡ o
    → Keeps i s (cancel_for_deadline outside o s)
unfolding cancel_for_deadline
cancel_for_deadline-Keeps i outside none s h = refl
cancel_for_deadline-Keeps i outside (some pending) s h =
    let e = cancel_envelope outside pending.request in
    if-Keeps i _ s _ _
      (expired-Keeps i outside pending _ (send_to_worker-transcription outside e s ∙ h)
        ∙ send_to_worker-Keeps i outside e s)
      refl

enforce_requests-Keeps :
    (i : ℕ) (outside : Outside) (s : SupervisorActor) → Keeps i s (enforce_requests outside s)
unfolding enforce_requests enforce_cancel_and_shutdown
enforce_requests-Keeps i outside s =
    let cancelled = cancel_for_deadline outside s.pending_transcription s in
    let fails = fail_process-Keeps i outside timeout_error cancelled in
    if-Keeps i _ cancelled _ _ fails (if-Keeps i _ cancelled _ _ fails refl)
    ∙ cancel_for_deadline-Keeps i outside s.pending_transcription s refl

enforce_health-Keeps :
    (i : ℕ) (outside : Outside) (o : Option PendingHealth) (s : SupervisorActor)
    → s.pending_health ≡ o
    → Keeps i s (enforce_health outside o s)
unfolding enforce_health
enforce_health-Keeps i outside none s h = enforce_requests-Keeps i outside s
enforce_health-Keeps i outside (some pending) s h =
    if-Keeps i _ s _ _ (fail_process-Keeps i outside _ _ ∙ answer_health-Keeps i pending _ s h)
      (enforce_requests-Keeps i outside s)

pub enforce_deadlines-Keeps :
    (i : ℕ) (outside : Outside) (s : SupervisorActor) → Keeps i s (enforce_deadlines outside s)
unfolding enforce_deadlines
enforce_deadlines-Keeps i outside s = enforce_health-Keeps i outside s.pending_health s refl
