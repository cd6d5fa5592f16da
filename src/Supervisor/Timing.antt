-- ===== src/Supervisor/Timing.antt =====
-- What the deadlines of the supervisor (crates/remtene-adapters/src/asr_worker.rs) guarantee.
use rem_tene_public.Base.{
  ◌≡◌, refl, sym, ap, ◌∙◌, ℕ, ◌<◌, Bool, true, false, Option, none, some, Result, ok, err, arith,
  if◌then◌else◌, leb, is_some_and,
}
use rem_tene_public.Routes.{PortError}
use rem_tene_public.Supervisor.{
  Outside, PendingHealth, PendingTranscription, PendingShutdown, health_answer, SupervisorActor,
}
use rem_tene_public.Supervisor.Errors.{timeout_error}
use rem_tene_public.Supervisor.Process.{fail_process, send_to_worker, emit}
use rem_tene_public.Supervisor.Commands.{cancel_envelope}
use rem_tene_public.Supervisor.Deadlines.{
  expired, is_expired, cancel_for_deadline, enforce_cancel_and_shutdown, enforce_requests,
  enforce_health, enforce_deadlines,
}
use rem_tene_public.Supervisor.Ledger.Failures.{IsIdle, fail_process_lem}
use rem_tene_public.Supervisor.Ledger.Deadlines.{send_to_worker-Same}

-- The deadline that counts: that of the cancellation, once there is one.
unfoldable pub due : PendingTranscription → ℕ
due p = elim p.cancel_deadline [ none ↦ p.deadline | some deadline ↦ deadline ]

-- Nothing is pending at or after its deadline.
unfoldable pub IsTimely : ℕ → SupervisorActor → Type 0
IsTimely now s =
    ((p : PendingHealth) → s.pending_health ≡ some p → now < p.deadline)
    × ((p : PendingTranscription) → s.pending_transcription ≡ some p → now < due p)
    × ((p : PendingShutdown) → s.pending_shutdown ≡ some p → now < p.deadline)

idle-IsTimely : (now : ℕ) (s : SupervisorActor) → IsIdle s → IsTimely now s
unfolding IsTimely
idle-IsTimely now s (a, b, c) = (λ p h. cc, λ p h. cc, λ p h. cc)

fail_process-IsTimely :
    (now : ℕ) (outside : Outside) (e : PortError) (s : SupervisorActor)
    → IsTimely now (fail_process outside e s)
fail_process-IsTimely now outside e s =
    idle-IsTimely now (fail_process outside e s) (fail_process_lem 0 outside e s).1

-- The health check is not late, and the transcription, unless it is being cancelled, is not.
BeforeCancel : ℕ → SupervisorActor → Type 0
BeforeCancel now s =
    ((p : PendingHealth) → s.pending_health ≡ some p → now < p.deadline)
    × ((p : PendingTranscription)
        → s.pending_transcription ≡ some p
        → p.cancel_deadline ≡ none
        → now < p.deadline)

if_over-IsTimely :
    (now : ℕ) (b : Bool) (x y : SupervisorActor)
    → IsTimely now x
    → (b ≡ false → IsTimely now y)
    → IsTimely now (if b then x else y)
if_over-IsTimely now true x y h k = h
if_over-IsTimely now false x y h k = k refl

due-before :
    (now : ℕ) (p : PendingTranscription)
    → (p.cancel_deadline ≡ none → now < p.deadline)
    → is_some_and p.cancel_deadline (λ deadline. leb deadline now) ≡ false
    → now < due p
unfolding due
due-before now p h k = ground arith

in_time-IsTimely :
    (now : ℕ) (s : SupervisorActor)
    → BeforeCancel now s
    → is_some_and s.pending_transcription
        (λ pending. is_some_and pending.cancel_deadline (λ deadline. leb deadline now))
      ≡ false
    → is_some_and s.pending_shutdown (λ pending. leb pending.deadline now) ≡ false
    → IsTimely now s
unfolding IsTimely BeforeCancel
in_time-IsTimely now s (a, b) h k = (
  a,
  λ p e. due-before now p (b p e) (
      ap
        (λ o.
          is_some_and o
            (λ pending. is_some_and pending.cancel_deadline (λ deadline. leb deadline now)))
        (sym e)
      ∙ h),
  λ p e. ground arith,
)

enforce_cancel-IsTimely :
    (outside : Outside) (s : SupervisorActor)
    → BeforeCancel outside.now s
    → IsTimely outside.now (enforce_cancel_and_shutdown outside s)
unfolding enforce_cancel_and_shutdown
enforce_cancel-IsTimely outside s h =
    let cancels =
      is_some_and s.pending_transcription
        (λ pending. is_some_and pending.cancel_deadline (λ deadline. leb deadline outside.now)) in
    let closes = is_some_and s.pending_shutdown (λ pending. leb pending.deadline outside.now) in
    let failed = fail_process outside timeout_error s in
    let fails = fail_process-IsTimely outside.now outside timeout_error s in
    if_over-IsTimely outside.now cancels failed (if closes then failed else s) fails (λ c.
      if_over-IsTimely outside.now closes failed s fails
        (λ d. in_time-IsTimely outside.now s h c d))

expired-BeforeCancel :
    (outside : Outside) (pending : PendingTranscription)
    (sent : SupervisorActor × Result PortError (Unit {0}))
    → ((p : PendingHealth) → sent.0.pending_health ≡ some p → outside.now < p.deadline)
    → BeforeCancel outside.now (expired outside pending sent)
unfolding expired BeforeCancel
expired-BeforeCancel outside pending (s, err e) h =
    let (a, b, c) = (fail_process_lem 0 outside e s).1 in (λ p k. cc, λ p k l. cc)
expired-BeforeCancel outside pending (s, ok _) h = (h, λ p k l. cc)

if-BeforeCancel :
    (now : ℕ) (b : Bool) (x y : SupervisorActor)
    → BeforeCancel now x
    → (b ≡ false → BeforeCancel now y)
    → BeforeCancel now (if b then x else y)
if-BeforeCancel now true x y h k = h
if-BeforeCancel now false x y h k = k refl

not_expired-BeforeCancel :
    (outside : Outside) (pending : PendingTranscription) (s : SupervisorActor)
    → s.pending_transcription ≡ some pending
    → ((p : PendingHealth) → s.pending_health ≡ some p → outside.now < p.deadline)
    → is_expired outside pending ≡ false
    → BeforeCancel outside.now s
unfolding BeforeCancel is_expired
not_expired-BeforeCancel outside pending s h k n = (k, λ p e l. ground arith)

cancel_for_deadline-BeforeCancel :
    (outside : Outside) (o : Option PendingTranscription) (s : SupervisorActor)
    → s.pending_transcription ≡ o
    → ((p : PendingHealth) → s.pending_health ≡ some p → outside.now < p.deadline)
    → BeforeCancel outside.now (cancel_for_deadline outside o s)
unfolding cancel_for_deadline
cancel_for_deadline-BeforeCancel outside none s h k = unfold BeforeCancel in (k, λ p l m. cc)
cancel_for_deadline-BeforeCancel outside (some pending) s h k =
    let e = cancel_envelope outside pending.request in
    let (p, same) = send_to_worker-Same outside e s in
    let sent = send_to_worker outside e s in
    if-BeforeCancel outside.now (is_expired outside pending) (expired outside pending sent) s
      (expired-BeforeCancel outside pending sent
        (λ q l. k q (sym (ap (λ a. a.pending_health) same) ∙ l)))
      (not_expired-BeforeCancel outside pending s h k)

enforce_requests-IsTimely :
    (outside : Outside) (s : SupervisorActor)
    → ((p : PendingHealth) → s.pending_health ≡ some p → outside.now < p.deadline)
    → IsTimely outside.now (enforce_requests outside s)
unfolding enforce_requests
enforce_requests-IsTimely outside s h =
    enforce_cancel-IsTimely outside (cancel_for_deadline outside s.pending_transcription s)
      (cancel_for_deadline-BeforeCancel outside s.pending_transcription s refl h)

enforce_health-IsTimely :
    (outside : Outside) (o : Option PendingHealth) (s : SupervisorActor)
    → s.pending_health ≡ o
    → IsTimely outside.now (enforce_health outside o s)
unfolding enforce_health
enforce_health-IsTimely outside none s h = enforce_requests-IsTimely outside s (λ p e. cc)
enforce_health-IsTimely outside (some pending) s h =
    let answered =
      emit (health_answer pending.response (err timeout_error))
        (record s { pending_health = none }) in
    if_over-IsTimely outside.now (leb pending.deadline outside.now)
      (fail_process outside timeout_error answered) (enforce_requests outside s)
      (fail_process-IsTimely outside.now outside timeout_error answered)
      (λ early. enforce_requests-IsTimely outside s (λ p e. ground arith))

-- After the deadlines are enforced nothing is pending at or after its own deadline: neither the
-- health check, nor the shutdown, nor the transcription, whose deadline is that of its cancellation
-- once it has one.
pub enforce_deadlines-IsTimely :
    (outside : Outside) (s : SupervisorActor) → IsTimely outside.now (enforce_deadlines outside s)
unfolding enforce_deadlines
enforce_deadlines-IsTimely outside s = enforce_health-IsTimely outside s.pending_health s refl
