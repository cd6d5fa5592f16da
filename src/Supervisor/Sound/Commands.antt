-- ===== src/Supervisor/Sound/Commands.antt =====
-- A command that reaches a supervisor that is not closed keeps it sound.
use rem_tene_public.Base.{
  ◌≡◌, ◌≢◌, refl, ◌∙◌, ℕ, Bool, true, false, not, ◌&&◌, Option, none, some, String, Result, ok, err,
  arith, ◌==◌, if◌then◌else◌, is_some,
}
use rem_tene_public.Settings.{AsrEngine}
use rem_tene_public.Routes.{PortError}
use rem_tene_public.Ports.{AsrRequest}
use rem_tene_public.Contract.Messages.{CoreToWorkerMessage}
use rem_tene_public.Contract.State.{WorkerProtocolState}
use rem_tene_public.Supervisor.{
  Outside, PendingHealth, PendingTranscription, health_answer, transcript_answer, plain_answer,
  granted, Event, SupervisorActor, SupervisorCommand, health, transcribe, cancel, shutdown,
}
use rem_tene_public.Supervisor.Errors.{
  worker_busy_error, supervisor_closed_error, cancel_pending_error,
}
use rem_tene_public.Supervisor.Process.{
  emit, keep_process, ensure_with, ensure_worker, send_to_worker,
}
use rem_tene_public.Supervisor.Commands.{
  is_busy, sent_health, health_with_worker, start_health, sent_transcription, with_grant,
  with_source, transcription_with_worker, start_transcription, envelope_of, cancel_envelope,
  sent_cancel, cancel_pending, cancel_transcription,
}
use rem_tene_public.Supervisor.Shutdown.{
  close_health, close_transcription, sent_shutdown, start_shutdown, handle_command,
}
use rem_tene_public.Supervisor.Sound.{IsSound, fail_process-IsSound, if-IsSound}
use rem_tene_public.Supervisor.Sound.Deadlines.{Prepares, send_to_worker-Prepares}

emit-IsSound : (e : Event) (s : SupervisorActor) → IsSound s → IsSound (emit e s)
unfolding emit IsSound
emit-IsSound e s h = h

-- Neither closed, nor shutting down, nor busy.
abbrev IsFree : SupervisorActor → Type 0
IsFree s =
    (s.closed ≡ false)
    × (s.pending_shutdown ≡ none)
    × (s.pending_health ≡ none)
    × (s.pending_transcription ≡ none)

Prepares-IsFree :
    (s : SupervisorActor) (r : SupervisorActor × Result PortError (Unit {0}))
    → Prepares s r
    → IsFree s
    → IsFree r.0
Prepares-IsFree s r (_, h, t, c, o, _) (a, b, d, e) = (o ∙ a, c ∙ b, h ∙ d, t ∙ e)

ensure_with-Prepares :
    (outside : Outside) (o : Option WorkerProtocolState) (s : SupervisorActor)
    → s.process ≡ o
    → IsSound s
    → Prepares s (ensure_with outside o s)
unfolding ensure_with keep_process IsSound
ensure_with-Prepares outside o s h k = ground arith

ensure_worker-Prepares :
    (outside : Outside) (s : SupervisorActor) → IsSound s → Prepares s (ensure_worker outside s)
unfolding ensure_worker
ensure_worker-Prepares outside s h = ensure_with-Prepares outside s.process s refl h

sent_health-IsSound :
    (outside : Outside) (engine : AsrEngine) (r : ℕ)
    (sent : SupervisorActor × Result PortError (Unit {0}))
    → (sent.1 ≡ ok tt → sent.0.process ≢ none)
    → IsFree sent.0
    → IsSound (sent_health outside engine r sent)
unfolding sent_health IsSound
sent_health-IsSound outside engine r (s, err error) h k = fail_process-IsSound outside error _
sent_health-IsSound outside engine r (s, ok _) h k = ground arith

health_with_worker-IsSound :
    (outside : Outside) (engine : AsrEngine) (r : ℕ)
    (ensured : SupervisorActor × Result PortError (Unit {0}))
    → IsSound ensured.0
    → IsFree ensured.0
    → IsSound (health_with_worker outside engine r ensured)
unfolding health_with_worker
health_with_worker-IsSound outside engine r (s, err error) h k = emit-IsSound _ s h
health_with_worker-IsSound outside engine r (s, ok _) h k =
    let prepared = send_to_worker-Prepares outside _ s h in
    let (_, _, _, _, _, running) = prepared in
    sent_health-IsSound outside engine r (send_to_worker outside _ s) running
      (Prepares-IsFree s (send_to_worker outside _ s) prepared k)

is_busy-IsFree :
    (s : SupervisorActor)
    → s.closed ≡ false
    → is_some s.pending_shutdown ≡ false
    → is_busy s ≡ false
    → IsFree s
unfolding is_busy
is_busy-IsFree s h k l = ground arith

if_free-IsSound :
    (b : Bool) (x y : SupervisorActor)
    → IsSound x
    → (b ≡ false → IsSound y)
    → IsSound (if b then x else y)
if_free-IsSound true x y h k = h
if_free-IsSound false x y h k = k refl

refuse_or-IsSound :
    (s : SupervisorActor) (closing busy : Event) (go : SupervisorActor)
    → s.closed ≡ false
    → IsSound s
    → (IsFree s → IsSound go)
    → IsSound (
        if is_some s.pending_shutdown
        then emit closing s
        else if is_busy s
        then emit busy s
        else go)
refuse_or-IsSound s closing busy go o h k =
    if_free-IsSound (is_some s.pending_shutdown) (emit closing s)
      (if is_busy s then emit busy s else go) (emit-IsSound closing s h)
      (λ a.
        if_free-IsSound (is_busy s) (emit busy s) go (emit-IsSound busy s h)
          (λ b. k (is_busy-IsFree s o a b)))

start_health-IsSound :
    (outside : Outside) (engine : AsrEngine) (r : ℕ) (s : SupervisorActor)
    → s.closed ≡ false
    → IsSound s
    → IsSound (start_health outside engine r s)
unfolding start_health
start_health-IsSound outside engine r s o h =
    refuse_or-IsSound s (health_answer r (err supervisor_closed_error))
      (health_answer r (err worker_busy_error)) _ o h
      (λ free.
        let prepared = ensure_worker-Prepares outside s h in
        health_with_worker-IsSound outside engine r (ensure_worker outside s) prepared.0
          (Prepares-IsFree s (ensure_worker outside s) prepared free))

sent_transcription-IsSound :
    (outside : Outside) (request : AsrRequest) (grant r : ℕ)
    (sent : SupervisorActor × Result PortError (Unit {0}))
    → (sent.1 ≡ ok tt → sent.0.process ≢ none)
    → IsFree sent.0
    → IsSound (sent_transcription outside request grant r sent)
unfolding sent_transcription IsSound
sent_transcription-IsSound outside request grant r (s, err error) h k =
    fail_process-IsSound outside error _
sent_transcription-IsSound outside request grant r (s, ok _) h k = ground arith

with_grant-IsSound :
    (outside : Outside) (request : AsrRequest) (r : ℕ) (s : SupervisorActor)
    (g : Result PortError ℕ)
    → IsSound s
    → IsFree s
    → IsSound (with_grant outside request r s g)
unfolding with_grant emit
with_grant-IsSound outside request r s (err error) h k = emit-IsSound _ s h
with_grant-IsSound outside request r s (ok grant) h k =
    let owner = emit (granted grant) s in
    let prepared = send_to_worker-Prepares outside _ owner (emit-IsSound (granted grant) s h) in
    let (_, _, _, _, _, running) = prepared in
    sent_transcription-IsSound outside request grant r (send_to_worker outside _ owner) running
      (Prepares-IsFree owner (send_to_worker outside _ owner) prepared k)

with_source-IsSound :
    (outside : Outside) (request : AsrRequest) (r : ℕ) (s : SupervisorActor)
    (source : Result PortError (Option String))
    → IsSound s
    → IsFree s
    → IsSound (with_source outside request r s source)
unfolding with_source
with_source-IsSound outside request r s (err error) h k = emit-IsSound _ s h
with_source-IsSound outside request r s (ok none) h k = emit-IsSound _ s h
with_source-IsSound outside request r s (ok (some source)) h k =
    with_grant-IsSound outside request r s outside.granted h k

transcription_with_worker-IsSound :
    (outside : Outside) (request : AsrRequest) (r : ℕ)
    (ensured : SupervisorActor × Result PortError (Unit {0}))
    → IsSound ensured.0
    → IsFree ensured.0
    → IsSound (transcription_with_worker outside request r ensured)
unfolding transcription_with_worker
transcription_with_worker-IsSound outside request r (s, err error) h k = emit-IsSound _ s h
transcription_with_worker-IsSound outside request r (s, ok _) h k =
    with_source-IsSound outside request r s outside.source h k

start_transcription-IsSound :
    (outside : Outside) (request : AsrRequest) (r : ℕ) (s : SupervisorActor)
    → s.closed ≡ false
    → IsSound s
    → IsSound (start_transcription outside request r s)
unfolding start_transcription
start_transcription-IsSound outside request r s o h =
    refuse_or-IsSound s (transcript_answer r (err supervisor_closed_error))
      (transcript_answer r (err worker_busy_error)) _ o h
      (λ free.
        let prepared = ensure_worker-Prepares outside s h in
        transcription_with_worker-IsSound outside request r (ensure_worker outside s) prepared.0
          (Prepares-IsFree s (ensure_worker outside s) prepared free))

sent_cancel-IsSound :
    (outside : Outside) (r : ℕ) (pending : PendingTranscription)
    (sent : SupervisorActor × Result PortError (Unit {0}))
    → sent.0.pending_transcription ≡ some pending
    → IsSound sent.0
    → IsSound (sent_cancel outside r pending sent)
unfolding sent_cancel IsSound
sent_cancel-IsSound outside r pending (s, err error) h k = fail_process-IsSound outside error _
sent_cancel-IsSound outside r pending (s, ok _) h k = ground arith

cancel_pending-IsSound :
    (outside : Outside) (request r : ℕ) (o : Option PendingTranscription) (s : SupervisorActor)
    → s.pending_transcription ≡ o
    → IsSound s
    → IsSound (cancel_pending outside request r o s)
unfolding cancel_pending
cancel_pending-IsSound outside request r none s h k = emit-IsSound _ s k
cancel_pending-IsSound outside request r (some pending) s h k =
    let e = cancel_envelope outside pending.request in
    let (sound, _, kept, _, _, _) = send_to_worker-Prepares outside e s k in
    let sent = sent_cancel outside r pending (send_to_worker outside e s) in
    let pends = emit (plain_answer r (err cancel_pending_error)) s in
    if-IsSound (not (pending.request.request_id == request)) (emit (plain_answer r (ok tt)) s)
      (if is_some pending.cancel_response then pends else sent) (emit-IsSound _ s k)
      (if-IsSound (is_some pending.cancel_response) pends sent (emit-IsSound _ s k)
        (sent_cancel-IsSound outside r pending (send_to_worker outside e s) (kept ∙ h) sound))

close_health-IsSound :
    (o : Option PendingHealth) (s : SupervisorActor)
    → s.pending_health ≡ o
    → IsSound s
    → IsSound (close_health o s)
      × ((close_health o s).pending_health ≡ none)
      × ((close_health o s).closed ≡ s.closed)
unfolding close_health emit IsSound
close_health-IsSound o s h k = ground arith

sent_shutdown-IsSound :
    (outside : Outside) (close : Bool) (r : ℕ)
    (sent : SupervisorActor × Result PortError (Unit {0}))
    → (sent.1 ≡ ok tt → sent.0.process ≢ none)
    → sent.0.pending_health ≡ none
    → sent.0.closed ≡ false
    → IsSound (sent_shutdown outside close r sent).0
unfolding sent_shutdown close_transcription IsSound
sent_shutdown-IsSound outside close r (s, err error) h k o = fail_process-IsSound outside error _
sent_shutdown-IsSound outside close r (s, ok _) h k o = ground arith

if_stop-IsSound :
    (b : Bool) (x y : SupervisorActor × Bool)
    → IsSound x.0
    → IsSound y.0
    → IsSound (if b then x else y).0
if_stop-IsSound true x y h k = h
if_stop-IsSound false x y h k = k

start_shutdown-IsSound :
    (outside : Outside) (close : Bool) (r : ℕ) (s : SupervisorActor)
    → s.closed ≡ false
    → IsSound s
    → IsSound (start_shutdown outside close r s).0
unfolding start_shutdown
start_shutdown-IsSound outside close r s o h =
    let quiet = close_health s.pending_health s in
    let (sound, cleared, still) = close_health-IsSound s.pending_health s refl h in
    let e =
      envelope_of outside none none
        (CoreToWorkerMessage.shutdown record { grace_period_ms = s.config.shutdown_timeout }) in
    let (_, kept, _, _, as_before, running) = send_to_worker-Prepares outside e quiet sound in
    let sent =
      sent_shutdown-IsSound outside close r (send_to_worker outside e quiet) running
        (kept ∙ cleared) (as_before ∙ still ∙ o) in
    let down = sent_shutdown outside close r (send_to_worker outside e quiet) in
    let stop : SupervisorActor × Bool = (emit (plain_answer r (ok tt)) s, close) in
    let busy : SupervisorActor × Bool = (emit (plain_answer r (err worker_busy_error)) s, false) in
    if_stop-IsSound (is_some s.pending_shutdown)
      (emit (plain_answer r (err supervisor_closed_error)) s, false)
      (if not close && is_busy s then busy else if not (is_some s.process) then stop else down)
      (emit-IsSound _ s h)
      (if_stop-IsSound (not close && is_busy s) busy
        (if not (is_some s.process) then stop else down) (emit-IsSound _ s h)
        (if_stop-IsSound (not (is_some s.process)) stop down (emit-IsSound _ s h) sent))

-- A command to a supervisor that is not closed keeps it sound.
pub handle_command-IsSound :
    (outside : Outside) (c : SupervisorCommand) (s : SupervisorActor)
    → s.closed ≡ false
    → IsSound s
    → IsSound (handle_command outside c s).0
unfolding handle_command cancel_transcription
handle_command-IsSound outside (health engine r) s o h = start_health-IsSound outside engine r s o h
handle_command-IsSound outside (transcribe request r) s o h =
    start_transcription-IsSound outside request r s o h
handle_command-IsSound outside (cancel request r) s o h =
    cancel_pending-IsSound outside request r s.pending_transcription s refl h
handle_command-IsSound outside (shutdown close r) s o h =
    start_shutdown-IsSound outside close r s o h
