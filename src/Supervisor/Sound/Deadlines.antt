-- ===== src/Supervisor/Sound/Deadlines.antt =====
-- Sending to the worker, and the deadlines, keep the supervisor sound.
use rem_tene_public.Base.{◌≡◌, ◌≢◌, refl, ◌∙◌, Option, none, some, Result, ok, err, arith}
use rem_tene_public.Routes.{PortError}
use rem_tene_public.Contract.Messages.{CoreToWorkerEnvelope}
use rem_tene_public.Contract.State.{WorkerProtocolState}
use rem_tene_public.Supervisor.{Outside, PendingHealth, PendingTranscription, SupervisorActor}
use rem_tene_public.Supervisor.Errors.{timeout_error}
use rem_tene_public.Supervisor.Process.{send_with, send_to_worker}
use rem_tene_public.Supervisor.Commands.{cancel_envelope}
use rem_tene_public.Supervisor.Deadlines.{
  expired, cancel_for_deadline, enforce_cancel_and_shutdown, enforce_requests, enforce_health,
  enforce_deadlines,
}
use rem_tene_public.Supervisor.Sound.{IsSound, fail_process-IsSound, if-IsSound}

-- What a step that may fail before anything is pending keeps; a success leaves a process.
abbrev pub Prepares : SupervisorActor → SupervisorActor × Result PortError (Unit {0}) → Type 0
Prepares s r =
    IsSound r.0
    × (r.0.pending_health ≡ s.pending_health)
    × (r.0.pending_transcription ≡ s.pending_transcription)
    × (r.0.pending_shutdown ≡ s.pending_shutdown)
    × (r.0.closed ≡ s.closed)
    × (r.1 ≡ ok tt → r.0.process ≢ none)

send_with-Prepares :
    (outside : Outside) (e : CoreToWorkerEnvelope) (o : Option WorkerProtocolState)
    (s : SupervisorActor)
    → s.process ≡ o
    → IsSound s
    → Prepares s (send_with outside e o s)
unfolding send_with IsSound
send_with-Prepares outside e none s h k = (k, refl, refl, refl, refl, λ x. cc)
send_with-Prepares outside e (some protocol) s h k = ground arith

pub send_to_worker-Prepares :
    (outside : Outside) (e : CoreToWorkerEnvelope) (s : SupervisorActor)
    → IsSound s
    → Prepares s (send_to_worker outside e s)
unfolding send_to_worker
send_to_worker-Prepares outside e s h = send_with-Prepares outside e s.process s refl h

expired-IsSound :
    (outside : Outside) (pending : PendingTranscription)
    (sent : SupervisorActor × Result PortError (Unit {0}))
    → sent.0.pending_transcription ≡ some pending
    → IsSound sent.0
    → IsSound (expired outside pending sent)
unfolding expired IsSound
expired-IsSound outside pending (s, err e) h k = fail_process-IsSound outside e s
expired-IsSound outside pending (s, ok _) h k = ground arith

cancel_for_deadline-IsSound :
    (outside : Outside) (o : Option PendingTranscription) (s : SupervisorActor)
    → s.pending_transcription ≡ o
    → IsSound s
    → IsSound (cancel_for_deadline outside o s)
unfolding cancel_for_deadline
cancel_for_deadline-IsSound outside none s h k = k
cancel_for_deadline-IsSound outside (some pending) s h k =
    let e = cancel_envelope outside pending.request in
    let (sound, _, kept, _, _, _) = send_to_worker-Prepares outside e s k in
    if-IsSound _ _ s (expired-IsSound outside pending (send_to_worker outside e s) (kept ∙ h) sound)
      k

enforce_requests-IsSound :
    (outside : Outside) (s : SupervisorActor) → IsSound s → IsSound (enforce_requests outside s)
unfolding enforce_requests enforce_cancel_and_shutdown
enforce_requests-IsSound outside s k =
    let cancelled = cancel_for_deadline outside s.pending_transcription s in
    let fails = fail_process-IsSound outside timeout_error cancelled in
    if-IsSound _ _ _ fails (
      if-IsSound _ _ cancelled fails
        (cancel_for_deadline-IsSound outside s.pending_transcription s refl k))

enforce_health-IsSound :
    (outside : Outside) (o : Option PendingHealth) (s : SupervisorActor)
    → IsSound s
    → IsSound (enforce_health outside o s)
unfolding enforce_health
enforce_health-IsSound outside none s k = enforce_requests-IsSound outside s k
enforce_health-IsSound outside (some pending) s k =
    if-IsSound _ _ _ (fail_process-IsSound outside _ _) (enforce_requests-IsSound outside s k)

pub enforce_deadlines-IsSound :
    (outside : Outside) (s : SupervisorActor) → IsSound s → IsSound (enforce_deadlines outside s)
unfolding enforce_deadlines
enforce_deadlines-IsSound outside s k = enforce_health-IsSound outside s.pending_health s k
