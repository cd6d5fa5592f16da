-- ===== src/Contract/State/Handshake.antt =====
-- What the handshake of `WorkerProtocolState` (crates/remtene-contracts/src/worker.rs) settles.
use rem_tene_public.Base.{
  ℕ, true, Option, none, some, List, [], ◌∷◌, ◌≡◌, ◌≢◌, refl, Result, ok, err, arith,
}
use rem_tene_public.Base.Sets.{contains, remove, pair_eq, nat_eq}
use rem_tene_public.Contract.Messages.{
  WorkerCapability, WorkerReady, WorkerError, CoreToWorkerMessage, WorkerToCoreMessage,
  CoreToWorkerEnvelope, WorkerToCoreEnvelope,
}
use rem_tene_public.Contract.Validation.{
  WorkerProtocolPhase, awaiting_hello, awaiting_ready, ready, shutting_down, validate_core,
  validate_worker, WorkerProtocolError,
}
use rem_tene_public.Contract.State.{
  WorkerProtocolState, new, Observed, observe_core, observe_worker, step_core, step_worker,
  begin_request, require_active_request, complete_active_request, with_correlation, negotiate,
  when_valid-elim, complete_request, fail_request, after_completion,
}
use rem_tene_public.Contract.State.Requests.{Message, to_worker, to_core, observe, run}

-- Requests are open only under an agreed version, which is one that was offered.
abbrev IsAgreed : WorkerProtocolState → Type 0
IsAgreed s =
    (s.phase ≡ ready → s.negotiated_version ≢ none)
    × (s.negotiated_version ≡ none → s.active_requests ≡ [])
    × ((v : ℕ) → s.negotiated_version ≡ some v → contains s.offered_versions v ≡ true)
    × (s.phase ≡ awaiting_hello → s.negotiated_version ≡ none)

step_core-IsAgreed :
    (p : WorkerProtocolPhase) (m : CoreToWorkerMessage) (e : CoreToWorkerEnvelope)
    (s : WorkerProtocolState)
    → s.phase ≡ p
    → IsAgreed s
    → IsAgreed (step_core p m e s).0
unfolding step_core begin_request require_active_request with_correlation
step_core-IsAgreed awaiting_hello (CoreToWorkerMessage.hello hello) e s h (a, b, c, d) =
    (λ x. cc, b, λ v x. let n = d h in cc, λ x. cc)
step_core-IsAgreed awaiting_ready (CoreToWorkerMessage.shutdown _) e s h (a, b, c, d) =
    (λ x. cc, b, c, λ x. cc)
step_core-IsAgreed ready (CoreToWorkerMessage.shutdown _) e s h (a, b, c, d) =
    (λ x. cc, b, c, λ x. cc)
step_core-IsAgreed ready (CoreToWorkerMessage.transcribe _) e s h (a, b, c, d) =
    let agreed = a h in ground arith
step_core-IsAgreed p m e s h k = ground arith

remove_none : (a : ℕ × ℕ) (xs : List (ℕ × ℕ)) → xs ≡ [] → remove a xs ≡ []
unfolding remove
remove_none a [] h = refl
remove_none a (x ∷ xs) h = cc

-- A completion, whatever its result, opens nothing.
complete-IsAgreed :
    (s : WorkerProtocolState) (correlation : ℕ × ℕ)
    → IsAgreed s
    → IsAgreed (complete_active_request s correlation).0
unfolding complete_active_request
complete-IsAgreed s (session, request) (a, b, c, d) =
    ground (arith, remove_none (session, request) s.active_requests)

after_completion-IsAgreed :
    (error : WorkerError) (o : Observed) → IsAgreed o.0 → IsAgreed (after_completion error o).0
unfolding after_completion
after_completion-IsAgreed error (s, err e) k = k
after_completion-IsAgreed error (s, ok _) k = ground arith

fail_request-IsAgreed :
    (s : WorkerProtocolState) (error : WorkerError)
    (r : Result WorkerProtocolError (Option (ℕ × ℕ)))
    → IsAgreed s
    → IsAgreed (fail_request error s r).0
unfolding fail_request
fail_request-IsAgreed s error (err e) k = k
fail_request-IsAgreed s error (ok none) k = ground arith
fail_request-IsAgreed s error (ok (some correlation)) k =
    after_completion-IsAgreed error (complete_active_request s correlation)
      (complete-IsAgreed s correlation k)

with_completion-IsAgreed :
    (s : WorkerProtocolState) (r : Result WorkerProtocolError (ℕ × ℕ))
    → IsAgreed s
    → IsAgreed (with_correlation r s complete_active_request).0
unfolding with_correlation
with_completion-IsAgreed s (err e) k = k
with_completion-IsAgreed s (ok correlation) k = complete-IsAgreed s correlation k

negotiate-IsAgreed :
    (payload : WorkerReady) (s : WorkerProtocolState) (missing : Option WorkerCapability)
    → s.phase ≡ awaiting_ready
    → IsAgreed s
    → IsAgreed (negotiate payload s missing).0
unfolding negotiate
negotiate-IsAgreed payload s missing h k = ground arith

step_worker-IsAgreed :
    (p : WorkerProtocolPhase) (m : WorkerToCoreMessage) (e : WorkerToCoreEnvelope)
    (s : WorkerProtocolState)
    → s.phase ≡ p
    → IsAgreed s
    → IsAgreed (step_worker p m e s).0
unfolding step_worker complete_request
step_worker-IsAgreed awaiting_ready (WorkerToCoreMessage.ready payload) e s h k =
    negotiate-IsAgreed payload s _ h k
step_worker-IsAgreed awaiting_ready (WorkerToCoreMessage.error error) e s h k =
    fail_request-IsAgreed s error _ k
step_worker-IsAgreed ready (WorkerToCoreMessage.error error) e s h k =
    fail_request-IsAgreed s error _ k
step_worker-IsAgreed shutting_down (WorkerToCoreMessage.error error) e s h k =
    fail_request-IsAgreed s error _ k
step_worker-IsAgreed ready (WorkerToCoreMessage.transcript _) e s h k =
    with_completion-IsAgreed s _ k
step_worker-IsAgreed ready (WorkerToCoreMessage.cancelled _) e s h k =
    with_completion-IsAgreed s _ k
step_worker-IsAgreed shutting_down (WorkerToCoreMessage.cancelled _) e s h k =
    with_completion-IsAgreed s _ k
step_worker-IsAgreed p m e s h k = ground arith

observe-IsAgreed : (s : WorkerProtocolState) (m : Message) → IsAgreed s → IsAgreed (observe s m).0
unfolding observe observe_core observe_worker
observe-IsAgreed s (to_worker e) k =
    when_valid-elim (validate_core e) s _ (λ o. IsAgreed o.0) (λ x. k)
      (step_core-IsAgreed s.phase e.message e s refl k)
observe-IsAgreed s (to_core e) k =
    when_valid-elim (validate_worker e) s _ (λ o. IsAgreed o.0) (λ x. k)
      (step_worker-IsAgreed s.phase e.message e s refl k)

run-IsAgreed : (s : WorkerProtocolState) (ms : List Message) → IsAgreed s → IsAgreed (run s ms)
unfolding run
run-IsAgreed s [] k = k
run-IsAgreed s (m ∷ ms) k = run-IsAgreed (observe s m).0 ms (observe-IsAgreed s m k)

new-IsAgreed : IsAgreed new
unfolding new
new-IsAgreed = (λ x. cc, λ x. refl, λ v x. cc, λ x. refl)

-- After any sequence of messages from the start: a ready protocol has agreed on a version; as long as
-- no version is agreed no request is active; and an agreed version is one that the hello offered.
pub run-agreed :
    (ms : List Message)
    → ((run new ms).phase ≡ ready → (run new ms).negotiated_version ≢ none)
      × ((run new ms).negotiated_version ≡ none → (run new ms).active_requests ≡ [])
      × ((v : ℕ)
          → (run new ms).negotiated_version ≡ some v
          → contains (run new ms).offered_versions v ≡ true)
run-agreed ms =
    let (ready_agreed, unagreed_idle, offered, _) = run-IsAgreed new ms new-IsAgreed in
    (ready_agreed, unagreed_idle, offered)
