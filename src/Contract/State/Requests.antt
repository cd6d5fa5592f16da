-- ===== src/Contract/State/Requests.antt =====
-- Which requests are open, over any sequence of messages that `WorkerProtocolState` of
-- crates/remtene-contracts/src/worker.rs observes.
use rem_tene_public.Base.{
  ◌⊎◌, ℕ, suc, ◌+◌, ◌≤◌, Bool, true, false, ◌&&◌, Option, none, some, List, [], ◌∷◌, ◌≡◌, ◌≢◌, refl,
  ok, err, arith, one, inl, inr,
}
use rem_tene_public.Base.Sets.{
  contains, pair_eq, nat_eq, ◌=?◌, contains-insert, contains-remove, pair_beq_iff,
}
use rem_tene_public.Contract.Messages.{
  WorkerError, CoreToWorkerMessage, WorkerToCoreMessage, CoreToWorkerEnvelope, WorkerToCoreEnvelope,
}
use rem_tene_public.Contract.Validation.{
  closed, WorkerProtocolPhase, awaiting_hello, awaiting_ready, ready, shutting_down, validate_core,
  validate_worker, error_request_correlation, request_correlation, WorkerProtocolError,
}
use rem_tene_public.Contract.State.{
  WorkerProtocolState, new, Observed, observe_core, observe_worker, step_core, step_worker,
  when_valid-elim, begin_request, complete_active_request, with_correlation, complete_request,
  fail_request, after_completion,
}

pub data Message : Type 0 where
  to_worker : CoreToWorkerEnvelope → Message
  to_core : WorkerToCoreEnvelope → Message

unfoldable pub observe : WorkerProtocolState → Message → Observed
observe s (to_worker e) = observe_core s e
observe s (to_core e) = observe_worker s e

unfoldable pub run : WorkerProtocolState → List Message → WorkerProtocolState
run s [] = s
run s (m ∷ ms) = run (observe s m).0 ms

abbrev pub is_accepted : Observed → Bool
is_accepted (s, ok _) = true
is_accepted (s, err _) = false

abbrev pub correlates : ℕ × ℕ → Option ℕ → Option ℕ → Bool
correlates c (some session) (some request) = (session, request) =? c
correlates c _ _ = false

abbrev pub asks : ℕ × ℕ → CoreToWorkerMessage → Option ℕ → Option ℕ → Bool
asks c (CoreToWorkerMessage.transcribe _) session request = correlates c session request
asks c _ session request = false

abbrev pub answers : ℕ × ℕ → WorkerToCoreMessage → Option ℕ → Option ℕ → Bool
answers c (WorkerToCoreMessage.transcript _) session request = correlates c session request
answers c (WorkerToCoreMessage.cancelled _) session request = correlates c session request
answers c (WorkerToCoreMessage.error _) session request = correlates c session request
answers c _ session request = false

-- A message that asks for a transcription under this correlation.
abbrev pub is_request : ℕ × ℕ → Message → Bool
is_request c (to_worker e) = asks c e.message e.session_id e.request_id
is_request c (to_core e) = false

-- A message that answers the request of this correlation.
abbrev pub is_answer : ℕ × ℕ → Message → Bool
is_answer c (to_worker e) = false
is_answer c (to_core e) = answers c e.message e.session_id e.request_id

-- How many of the messages that pass the state are requests, or answers, of this correlation.
unfoldable pub asked : ℕ × ℕ → WorkerProtocolState → List Message → ℕ
asked c s [] = 0
asked c s (m ∷ ms) = one (is_request c m && is_accepted (observe s m)) + asked c (observe s m).0 ms

unfoldable pub answered : ℕ × ℕ → WorkerProtocolState → List Message → ℕ
answered c s [] = 0
answered c s (m ∷ ms) =
    one (is_answer c m && is_accepted (observe s m)) + answered c (observe s m).0 ms

abbrev pub pending : ℕ × ℕ → WorkerProtocolState → ℕ
pending c s = one (contains s.active_requests c)

-- What one message does to the requests of a correlation, given that it asks or answers.
abbrev Balanced : ℕ × ℕ → Bool → Bool → WorkerProtocolState → Observed → Type 0
Balanced c asks' answers' s o =
    (one (answers' && is_accepted o) ≤ pending c s + one (asks' && is_accepted o))
    × (pending c s + one (asks' && is_accepted o) ≤ 1)
    × (o.0.phase ≢ closed
        → pending c s + one (asks' && is_accepted o)
          ≡ pending c o.0 + one (answers' && is_accepted o))

begin_request-Balanced :
    (c : ℕ × ℕ) (s : WorkerProtocolState) (session request : ℕ)
    → Balanced c ((session, request) =? c) false s (begin_request s (session, request))
unfolding begin_request
begin_request-Balanced c s session request = ground (
  arith,
  contains-insert (session, request) c s.active_requests,
  pair_beq_iff (session, request) c,
)

complete-Balanced :
    (c : ℕ × ℕ) (s : WorkerProtocolState) (session request : ℕ)
    → Balanced c false ((session, request) =? c) s (complete_active_request s (session, request))
unfolding complete_active_request
complete-Balanced c s session request = ground (
  arith,
  contains-remove (session, request) c s.active_requests,
  pair_beq_iff (session, request) c,
)

begin_correlated-Balanced :
    (c : ℕ × ℕ) (s : WorkerProtocolState) (session request : Option ℕ)
    → Balanced c
        (correlates c session request)
        false
        s
        (with_correlation (request_correlation session request) s begin_request)
unfolding with_correlation request_correlation
begin_correlated-Balanced c s (some session) (some request) =
    begin_request-Balanced c s session request
begin_correlated-Balanced c s none none = ground arith
begin_correlated-Balanced c s none (some _) = ground arith
begin_correlated-Balanced c s (some _) none = ground arith

complete_request-Balanced :
    (c : ℕ × ℕ) (s : WorkerProtocolState) (session request : Option ℕ)
    → Balanced c false
        (correlates c session request)
        s
        (with_correlation (request_correlation session request) s complete_active_request)
unfolding with_correlation request_correlation
complete_request-Balanced c s (some session) (some request) = complete-Balanced c s session request
complete_request-Balanced c s none none = ground arith
complete_request-Balanced c s none (some _) = ground arith
complete_request-Balanced c s (some _) none = ground arith

after_completion-Balanced :
    (c : ℕ × ℕ) (b : Bool) (s : WorkerProtocolState) (error : WorkerError) (o : Observed)
    → Balanced c false b s o
    → Balanced c false b s (after_completion error o)
unfolding after_completion
after_completion-Balanced c b s error (s', ok _) h = ground arith
after_completion-Balanced c b s error (s', err e) h = ground arith

fail_request-Balanced :
    (c : ℕ × ℕ) (s : WorkerProtocolState) (error : WorkerError) (session request : Option ℕ)
    → Balanced c false
        (correlates c session request)
        s
        (fail_request error s (error_request_correlation session request))
unfolding fail_request error_request_correlation
fail_request-Balanced c s error (some session) (some request) =
    after_completion-Balanced c _ s error _ (complete-Balanced c s session request)
fail_request-Balanced c s error none none = ground arith
fail_request-Balanced c s error none (some _) = ground arith
fail_request-Balanced c s error (some _) none = ground arith

step_core-Balanced :
    (c : ℕ × ℕ) (p : WorkerProtocolPhase) (m : CoreToWorkerMessage) (e : CoreToWorkerEnvelope)
    (s : WorkerProtocolState)
    → Balanced c (asks c m e.session_id e.request_id) false s (step_core p m e s)
unfolding step_core
step_core-Balanced c ready (CoreToWorkerMessage.transcribe _) e s =
    begin_correlated-Balanced c s e.session_id e.request_id
step_core-Balanced c p m e s = ground arith

step_worker-Balanced :
    (c : ℕ × ℕ) (p : WorkerProtocolPhase) (m : WorkerToCoreMessage) (e : WorkerToCoreEnvelope)
    (s : WorkerProtocolState)
    → Balanced c false (answers c m e.session_id e.request_id) s (step_worker p m e s)
unfolding step_worker complete_request
step_worker-Balanced c awaiting_ready (WorkerToCoreMessage.error error) e s =
    fail_request-Balanced c s error e.session_id e.request_id
step_worker-Balanced c ready (WorkerToCoreMessage.error error) e s =
    fail_request-Balanced c s error e.session_id e.request_id
step_worker-Balanced c shutting_down (WorkerToCoreMessage.error error) e s =
    fail_request-Balanced c s error e.session_id e.request_id
step_worker-Balanced c ready (WorkerToCoreMessage.transcript _) e s =
    complete_request-Balanced c s e.session_id e.request_id
step_worker-Balanced c ready (WorkerToCoreMessage.cancelled _) e s =
    complete_request-Balanced c s e.session_id e.request_id
step_worker-Balanced c shutting_down (WorkerToCoreMessage.cancelled _) e s =
    complete_request-Balanced c s e.session_id e.request_id
step_worker-Balanced c p m e s = ground arith

-- A refused envelope changes nothing.
refused-Balanced :
    (c : ℕ × ℕ) (s : WorkerProtocolState) (a b : Bool) (e : WorkerProtocolError)
    → Balanced c a b s (s, err e)
refused-Balanced c s a b e = ground arith

observe-Balanced :
    (c : ℕ × ℕ) (s : WorkerProtocolState) (m : Message)
    → Balanced c (is_request c m) (is_answer c m) s (observe s m)
unfolding observe observe_core observe_worker
observe-Balanced c s (to_worker e) =
    when_valid-elim (validate_core e) s _ (Balanced c _ false s) (refused-Balanced c s _ false)
      (step_core-Balanced c s.phase e.message e s)
observe-Balanced c s (to_core e) =
    when_valid-elim (validate_worker e) s _ (Balanced c false _ s) (refused-Balanced c s false _)
      (step_worker-Balanced c s.phase e.message e s)

step_core_closed :
    (p : WorkerProtocolPhase) (m : CoreToWorkerMessage) (e : CoreToWorkerEnvelope)
    (s : WorkerProtocolState)
    → p ≡ closed
    → ((step_core p m e s).0 ≡ s) × (is_accepted (step_core p m e s) ≡ false)
unfolding step_core
step_core_closed p m e s h = ground arith

step_worker_closed :
    (p : WorkerProtocolPhase) (m : WorkerToCoreMessage) (e : WorkerToCoreEnvelope)
    (s : WorkerProtocolState)
    → p ≡ closed
    → ((step_worker p m e s).0 ≡ s) × (is_accepted (step_worker p m e s) ≡ false)
unfolding step_worker
step_worker_closed p m e s h = ground arith

closed-cases : (p : WorkerProtocolPhase) → (p ≡ closed) ⊎ (p ≢ closed)
closed-cases closed = inl refl
closed-cases awaiting_hello = inr (λ e. cc)
closed-cases awaiting_ready = inr (λ e. cc)
closed-cases ready = inr (λ e. cc)
closed-cases shutting_down = inr (λ e. cc)

-- A closed protocol refuses every message and stays as it is.
pub observe_closed :
    (s : WorkerProtocolState) (m : Message)
    → s.phase ≡ closed
    → ((observe s m).0 ≡ s) × (is_accepted (observe s m) ≡ false)
unfolding observe observe_core observe_worker
observe_closed s (to_worker e) h =
    when_valid-elim (validate_core e) s _ (λ o. (o.0 ≡ s) × (is_accepted o ≡ false))
      (λ x. (refl, refl)) (step_core_closed s.phase e.message e s h)
observe_closed s (to_core e) h =
    when_valid-elim (validate_worker e) s _ (λ o. (o.0 ≡ s) × (is_accepted o ≡ false))
      (λ x. (refl, refl)) (step_worker_closed s.phase e.message e s h)

-- Over the messages that a protocol state sees.
Accounted : ℕ × ℕ → WorkerProtocolState → List Message → Type 0
Accounted c s ms =
    (answered c s ms ≤ pending c s + asked c s ms)
    × (pending c s + asked c s ms ≤ suc (answered c s ms))
    × ((run s ms).phase ≢ closed
        → pending c s + asked c s ms ≡ pending c (run s ms) + answered c s ms)

run_closed :
    (c : ℕ × ℕ) (s : WorkerProtocolState) (ms : List Message)
    → s.phase ≡ closed
    → (asked c s ms ≡ 0) × (answered c s ms ≡ 0) × ((run s ms).phase ≡ closed)
unfolding asked answered run
run_closed c s [] h = (refl, refl, h)
run_closed c s (m ∷ ms) h =
    let (same, refused) = observe_closed s m h in
    rw (refused, same) (ground (arith, run_closed c s ms h))

-- The arithmetic of one step: `a` and `k` for the message, the primed ones for the rest.
run-Accounted_step :
    (c : ℕ × ℕ) (s : WorkerProtocolState) (m : Message) (ms : List Message)
    → Accounted c (observe s m).0 ms
    → Accounted c s (m ∷ ms)
unfolding asked answered run Accounted
run-Accounted_step c s m ms rest =
    let (fits, single, kept) = observe-Balanced c s m in
    elim (closed-cases (observe s m).0.phase) [
      | inl over ↦
          let (none_asked, none_answered, still) = run_closed c (observe s m).0 ms over in
          (omega arith, omega arith, λ going. absurd (going still))
      | inr going ↦
          let same = kept going in
          (omega arith, omega arith, λ open_end. omega (arith, rest.2 open_end))
    ]

run-Accounted : (c : ℕ × ℕ) (s : WorkerProtocolState) (ms : List Message) → Accounted c s ms
unfolding asked answered run Accounted
run-Accounted c s [] = ground arith
run-Accounted c s (m ∷ ms) = run-Accounted_step c s m ms (run-Accounted c (observe s m).0 ms)

pending-new : (c : ℕ × ℕ) → pending c new ≡ 0
unfolding new
pending-new c = refl

-- In any sequence of messages from the start, and for each correlation: the accepted answers are at
-- most the accepted requests, and at most one request is without an answer; while the protocol is
-- not closed, the correlation is active exactly as often as a request is without one.
pub answered-asked :
    (c : ℕ × ℕ) (ms : List Message)
    → (answered c new ms ≤ asked c new ms)
      × (asked c new ms ≤ suc (answered c new ms))
      × ((run new ms).phase ≢ closed → asked c new ms ≡ pending c (run new ms) + answered c new ms)
unfolding Accounted
answered-asked c ms =
    let (fits, single, kept) = run-Accounted c new ms in
    let none_yet = pending-new c in (omega arith, omega arith, λ going. omega (arith, kept going))
