-- ===== src/Supervisor/Ledger/Commands.antt =====
-- A command is answered, or waits for its answer.
use rem_tene_public.Base.{
  ◌≡◌, refl, ap, ◌∙◌, ℕ, ◌+◌, Bool, true, false, not, ◌&&◌, Option, none, some, String, Result, ok,
  err, arith, one, ◌==◌, if◌then◌else◌, is_some,
}
use rem_tene_public.Settings.{AsrEngine}
use rem_tene_public.Routes.{PortError}
use rem_tene_public.Ports.{AsrRequest}
use rem_tene_public.Contract.Messages.{CoreToWorkerEnvelope}
use rem_tene_public.Contract.State.{WorkerProtocolState}
use rem_tene_public.Supervisor.{
  Outside, PendingHealth, PendingTranscription, PendingShutdown, health_answer, transcript_answer,
  plain_answer, granted, revoked, Event, SupervisorActor, SupervisorCommand, health, transcribe,
  cancel, shutdown,
}
use rem_tene_public.Supervisor.Errors.{
  worker_busy_error, supervisor_closed_error, cancel_pending_error,
}
use rem_tene_public.Supervisor.Process.{
  emit, keep_process, ensure_with, ensure_worker, send_to_worker, fail_process,
}
use rem_tene_public.Supervisor.Commands.{
  is_busy, sent_health, health_with_worker, start_health, sent_transcription, with_grant,
  with_source, transcription_with_worker, start_transcription, cancel_envelope, sent_cancel,
  cancel_pending, cancel_transcription,
}
use rem_tene_public.Supervisor.Shutdown.{
  close_health, close_transcription, sent_shutdown, start_shutdown, handle_command,
}
use rem_tene_public.Supervisor.Ledger.{answered, waiting, is_answer, response_of}
use rem_tene_public.Supervisor.Ledger.Failures.{owed}
use rem_tene_public.Supervisor.Ledger.Answers.{Keeps, fail_process-Keeps}
use rem_tene_public.Supervisor.Ledger.Deadlines.{send_to_worker-Same, send_to_worker-Keeps}

-- The step takes over one answer on this channel.
abbrev Owes : ℕ → ℕ → SupervisorActor → SupervisorActor → Type 0
Owes i response s s' = owed i s' ≡ one (response == i) + owed i s

if-Owes :
    (i r : ℕ) (b : Bool) (s x y : SupervisorActor)
    → ((b ≡ true) → Owes i r s x)
    → ((b ≡ false) → Owes i r s y)
    → Owes i r s (if b then x else y)
if-Owes i r true s x y h k = h refl
if-Owes i r false s x y h k = k refl

emit-Owes :
    (i : ℕ) (e : Event) (s : SupervisorActor) → owed i (emit e s) ≡ one (is_answer i e) + owed i s
unfolding emit answered waiting
emit-Owes i e s = ground arith

emit_silent-Keeps :
    (i : ℕ) (e : Event) (s : SupervisorActor) → is_answer i e ≡ false → Keeps i s (emit e s)
unfolding emit answered waiting
emit_silent-Keeps i e s h = ground arith

emit-transcription :
    (e : Event) (s : SupervisorActor) → (emit e s).pending_transcription ≡ s.pending_transcription
unfolding emit
emit-transcription e s = refl

-- A failure after the answer.
failed-Owes :
    (i r : ℕ) (e : Event) (outside : Outside) (error : PortError) (s : SupervisorActor)
    → is_answer i e ≡ (r == i)
    → Owes i r s (fail_process outside error (emit e s))
failed-Owes i r e outside error s h =
    fail_process-Keeps i outside error _ ∙ emit-Owes i e s ∙ ap (λ b. one b + owed i s) h

sent_health-Owes :
    (i : ℕ) (outside : Outside) (engine : AsrEngine) (r : ℕ)
    (sent : SupervisorActor × Result PortError (Unit {0}))
    → sent.0.pending_health ≡ none
    → Owes i r sent.0 (sent_health outside engine r sent)
unfolding sent_health answered waiting
sent_health-Owes i outside engine r (s, err error) h = failed-Owes i r _ outside error s refl
sent_health-Owes i outside engine r (s, ok _) h = ground arith

after-Owes : (i r : ℕ) (s s1 s2 : SupervisorActor) → Keeps i s s1 → Owes i r s1 s2 → Owes i r s s2
after-Owes i r s s1 s2 h k = k ∙ ap (λ n. one (r == i) + n) h

send_to_worker-pending :
    (outside : Outside) (e : CoreToWorkerEnvelope) (s : SupervisorActor)
    → ((send_to_worker outside e s).0.pending_health ≡ s.pending_health)
      × ((send_to_worker outside e s).0.pending_transcription ≡ s.pending_transcription)
      × ((send_to_worker outside e s).0.pending_shutdown ≡ s.pending_shutdown)
send_to_worker-pending outside e s =
    let (p, same) = send_to_worker-Same outside e s in
    (
      ap (λ a. a.pending_health) same,
      ap (λ a. a.pending_transcription) same,
      ap (λ a. a.pending_shutdown) same,
    )

ensure_with-Keeps :
    (i : ℕ) (outside : Outside) (o : Option WorkerProtocolState) (s : SupervisorActor)
    → Keeps i s (ensure_with outside o s).0
      × ((ensure_with outside o s).0.pending_health ≡ s.pending_health)
      × ((ensure_with outside o s).0.pending_transcription ≡ s.pending_transcription)
unfolding ensure_with keep_process answered waiting
ensure_with-Keeps i outside (some _) s = (refl, refl, refl)
ensure_with-Keeps i outside none s = ground arith

ensure_worker-Keeps :
    (i : ℕ) (outside : Outside) (s : SupervisorActor)
    → Keeps i s (ensure_worker outside s).0
      × ((ensure_worker outside s).0.pending_health ≡ s.pending_health)
      × ((ensure_worker outside s).0.pending_transcription ≡ s.pending_transcription)
unfolding ensure_worker
ensure_worker-Keeps i outside s = ensure_with-Keeps i outside s.process s

free-pending :
    (s : SupervisorActor)
    → is_busy s ≡ false
    → (s.pending_health ≡ none) × (s.pending_transcription ≡ none)
unfolding is_busy
free-pending s h = ground arith

health_with_worker-Owes :
    (i : ℕ) (outside : Outside) (engine : AsrEngine) (r : ℕ)
    (ensured : SupervisorActor × Result PortError (Unit {0}))
    → ensured.0.pending_health ≡ none
    → Owes i r ensured.0 (health_with_worker outside engine r ensured)
unfolding health_with_worker
health_with_worker-Owes i outside engine r (s, err error) h = emit-Owes i _ s
health_with_worker-Owes i outside engine r (s, ok _) h =
    let (kept, _, _) = send_to_worker-pending outside _ s in
    after-Owes i r s _ _ (send_to_worker-Keeps i outside _ s)
      (sent_health-Owes i outside engine r _ (kept ∙ h))

-- Refused where the supervisor shuts down or is busy.
refuse_or-Owes :
    (i r : ℕ) (s : SupervisorActor) (closing busy : Event) (go : SupervisorActor)
    → is_answer i closing ≡ (r == i)
    → is_answer i busy ≡ (r == i)
    → (is_busy s ≡ false → Owes i r s go)
    → Owes i r s (
        if is_some s.pending_shutdown
        then emit closing s
        else if is_busy s
        then emit busy s
        else go)
refuse_or-Owes i r s closing busy go c b k =
    if-Owes i r (is_some s.pending_shutdown) s (emit closing s)
      (if is_busy s then emit busy s else go)
      (λ _. emit-Owes i closing s ∙ ap (λ x. one x + owed i s) c)
      (λ _.
        if-Owes i r (is_busy s) s (emit busy s) go
          (λ _. emit-Owes i busy s ∙ ap (λ x. one x + owed i s) b) k)

start_health-Owes :
    (i : ℕ) (outside : Outside) (engine : AsrEngine) (r : ℕ) (s : SupervisorActor)
    → Owes i r s (start_health outside engine r s)
unfolding start_health
start_health-Owes i outside engine r s =
    refuse_or-Owes i r s (health_answer r (err supervisor_closed_error))
      (health_answer r (err worker_busy_error)) _ refl refl
      (λ free.
        let (keeps, kept, _) = ensure_worker-Keeps i outside s in
        after-Owes i r s _ _ keeps (
          health_with_worker-Owes i outside engine r (ensure_worker outside s)
            (kept ∙ (free-pending s free).0)))

sent_transcription-Owes :
    (i : ℕ) (outside : Outside) (request : AsrRequest) (grant r : ℕ)
    (sent : SupervisorActor × Result PortError (Unit {0}))
    → sent.0.pending_transcription ≡ none
    → Owes i r sent.0 (sent_transcription outside request grant r sent)
unfolding sent_transcription answered waiting
sent_transcription-Owes i outside request grant r (s, err error) h =
    failed-Owes i r _ outside error _ refl
    ∙ ap (λ n. one (r == i) + n) (emit_silent-Keeps i (revoked grant) s refl)
sent_transcription-Owes i outside request grant r (s, ok _) h = ground arith

with_grant-Owes :
    (i : ℕ) (outside : Outside) (request : AsrRequest) (r : ℕ) (s : SupervisorActor)
    (g : Result PortError ℕ)
    → s.pending_transcription ≡ none
    → Owes i r s (with_grant outside request r s g)
unfolding with_grant
with_grant-Owes i outside request r s (err error) h = emit-Owes i _ s
with_grant-Owes i outside request r s (ok grant) h =
    let owner = emit (granted grant) s in
    let (_, kept, _) = send_to_worker-pending outside _ owner in
    after-Owes i r s owner _ (emit_silent-Keeps i (granted grant) s refl) (
      after-Owes i r owner _ _ (send_to_worker-Keeps i outside _ owner) (
        sent_transcription-Owes i outside request grant r _
          (kept ∙ emit-transcription (granted grant) s ∙ h)))

with_source-Owes :
    (i : ℕ) (outside : Outside) (request : AsrRequest) (r : ℕ) (s : SupervisorActor)
    (source : Result PortError (Option String))
    → s.pending_transcription ≡ none
    → Owes i r s (with_source outside request r s source)
unfolding with_source
with_source-Owes i outside request r s (err error) h = emit-Owes i _ s
with_source-Owes i outside request r s (ok none) h = emit-Owes i _ s
with_source-Owes i outside request r s (ok (some source)) h =
    with_grant-Owes i outside request r s outside.granted h

transcription_with_worker-Owes :
    (i : ℕ) (outside : Outside) (request : AsrRequest) (r : ℕ)
    (ensured : SupervisorActor × Result PortError (Unit {0}))
    → ensured.0.pending_transcription ≡ none
    → Owes i r ensured.0 (transcription_with_worker outside request r ensured)
unfolding transcription_with_worker
transcription_with_worker-Owes i outside request r (s, err error) h = emit-Owes i _ s
transcription_with_worker-Owes i outside request r (s, ok _) h =
    with_source-Owes i outside request r s outside.source h

start_transcription-Owes :
    (i : ℕ) (outside : Outside) (request : AsrRequest) (r : ℕ) (s : SupervisorActor)
    → Owes i r s (start_transcription outside request r s)
unfolding start_transcription
start_transcription-Owes i outside request r s =
    refuse_or-Owes i r s (transcript_answer r (err supervisor_closed_error))
      (transcript_answer r (err worker_busy_error)) _ refl refl
      (λ free.
        let (keeps, _, kept) = ensure_worker-Keeps i outside s in
        after-Owes i r s _ _ keeps (
          transcription_with_worker-Owes i outside request r (ensure_worker outside s)
            (kept ∙ (free-pending s free).1)))

sent_cancel-Owes :
    (i : ℕ) (outside : Outside) (r : ℕ) (pending : PendingTranscription)
    (sent : SupervisorActor × Result PortError (Unit {0}))
    → pending.cancel_response ≡ none
    → sent.0.pending_transcription ≡ some pending
    → Owes i r sent.0 (sent_cancel outside r pending sent)
unfolding sent_cancel answered waiting
sent_cancel-Owes i outside r pending (s, err error) free h = failed-Owes i r _ outside error s refl
sent_cancel-Owes i outside r pending (s, ok _) free h = ground arith

cancel_pending-Owes :
    (i : ℕ) (outside : Outside) (request r : ℕ) (o : Option PendingTranscription)
    (s : SupervisorActor)
    → s.pending_transcription ≡ o
    → Owes i r s (cancel_pending outside request r o s)
unfolding cancel_pending
cancel_pending-Owes i outside request r none s h = emit-Owes i _ s
cancel_pending-Owes i outside request r (some pending) s h =
    let e = cancel_envelope outside pending.request in
    let (_, kept, _) = send_to_worker-pending outside e s in
    if-Owes i r _ s _ _ (λ _. emit-Owes i (plain_answer r (ok tt)) s)
      (λ _.
        if-Owes i r (is_some pending.cancel_response) s _ _
          (λ _. emit-Owes i (plain_answer r (err cancel_pending_error)) s)
          (λ free. after-Owes i r s _ _ (send_to_worker-Keeps i outside e s) (
            sent_cancel-Owes i outside r pending (send_to_worker outside e s) (ground arith)
              (kept ∙ h))))

close_health-Keeps :
    (i : ℕ) (o : Option PendingHealth) (s : SupervisorActor)
    → s.pending_health ≡ o
    → Keeps i s (close_health o s) × ((close_health o s).pending_shutdown ≡ s.pending_shutdown)
unfolding close_health answered waiting
close_health-Keeps i o s h = ground arith

close_transcription-Keeps :
    (i : ℕ) (outside : Outside) (o : Option PendingTranscription) (s : SupervisorActor)
    → s.pending_transcription ≡ o
    → Keeps i s (close_transcription outside o s)
      × ((close_transcription outside o s).pending_shutdown ≡ s.pending_shutdown)
unfolding close_transcription answered waiting
close_transcription-Keeps i outside o s h = ground arith

set_shutdown-Owes :
    (i : ℕ) (p : PendingShutdown) (s : SupervisorActor)
    → s.pending_shutdown ≡ none
    → Owes i p.response s (record s { pending_shutdown = some p })
unfolding answered waiting
set_shutdown-Owes i p s h = ground arith

sent_shutdown-Owes :
    (i : ℕ) (outside : Outside) (close : Bool) (r : ℕ)
    (sent : SupervisorActor × Result PortError (Unit {0}))
    → sent.0.pending_shutdown ≡ none
    → Owes i r sent.0 (sent_shutdown outside close r sent).0
unfolding sent_shutdown
sent_shutdown-Owes i outside close r (s, err error) h = failed-Owes i r _ outside error s refl
sent_shutdown-Owes i outside close r (s, ok _) h =
    let (keeps, kept) = close_transcription-Keeps i outside s.pending_transcription s refl in
    after-Owes i r s _ _ keeps (set_shutdown-Owes i _ _ (kept ∙ h))

if_stop-Owes :
    (i r : ℕ) (b : Bool) (s : SupervisorActor) (x y : SupervisorActor × Bool)
    → ((b ≡ true) → Owes i r s x.0)
    → ((b ≡ false) → Owes i r s y.0)
    → Owes i r s (if b then x else y).0
if_stop-Owes i r true s x y h k = h refl
if_stop-Owes i r false s x y h k = k refl

start_shutdown-Owes :
    (i : ℕ) (outside : Outside) (close : Bool) (r : ℕ) (s : SupervisorActor)
    → Owes i r s (start_shutdown outside close r s).0
unfolding start_shutdown
start_shutdown-Owes i outside close r s =
    let (keeps, kept) = close_health-Keeps i s.pending_health s refl in
    if_stop-Owes i r (is_some s.pending_shutdown) s _ _
      (λ _. emit-Owes i (plain_answer r (err supervisor_closed_error)) s)
      (λ free.
        if_stop-Owes i r (not close && is_busy s) s _ _
          (λ _. emit-Owes i (plain_answer r (err worker_busy_error)) s)
          (λ _.
            if_stop-Owes i r (not (is_some s.process)) s _ _
              (λ _. emit-Owes i (plain_answer r (ok tt)) s)
              (λ _.
                let (_, _, after) =
                  send_to_worker-pending outside _ (close_health s.pending_health s) in
                after-Owes i r s _ _ keeps (
                  after-Owes i r _ _ _ (send_to_worker-Keeps i outside _ _)
                    (sent_shutdown-Owes i outside close r _ (after ∙ kept ∙ ground arith))))))

-- A command adds one to what its channel is owed.
pub handle_command-Owes :
    (i : ℕ) (outside : Outside) (c : SupervisorCommand) (s : SupervisorActor)
    → owed i (handle_command outside c s).0 ≡ one (response_of c == i) + owed i s
unfolding handle_command response_of cancel_transcription
handle_command-Owes i outside (health engine r) s = start_health-Owes i outside engine r s
handle_command-Owes i outside (transcribe request r) s =
    start_transcription-Owes i outside request r s
handle_command-Owes i outside (cancel request r) s =
    cancel_pending-Owes i outside request r s.pending_transcription s refl
handle_command-Owes i outside (shutdown close r) s = start_shutdown-Owes i outside close r s
