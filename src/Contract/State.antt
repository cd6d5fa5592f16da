-- ===== src/Contract/State.antt =====
-- `WorkerProtocolState` of crates/remtene-contracts/src/worker.rs: what both ends of the worker
-- protocol check of each message, in the order in which they see them.
pub mod Requests
pub mod Handshake
use rem_tene_public.Base.{
  ℕ, Bool, true, false, not, Option, none, some, List, [], ◌∷◌, Result, ok, err, if◌then◌else◌,
}
use rem_tene_public.Base.Results.{◌>>=◌}
use rem_tene_public.Base.Sets.{contains, insert, remove, nat_eq, pair_eq}
use rem_tene_public.Contract.Messages.{
  WorkerCapability, WorkerMessageKind, CoreHello, WorkerReady, WorkerError, CoreToWorkerMessage,
  WorkerToCoreMessage, CoreToWorkerEnvelope, WorkerToCoreEnvelope, core_kind, worker_kind,
  capability_eq,
}
use rem_tene_public.Contract.Validation.{
  ProtocolDirection, core_to_worker, worker_to_core, WorkerProtocolPhase, awaiting_hello,
  awaiting_ready, ready, shutting_down, closed, WorkerProtocolError, duplicate_request_correlation,
  unknown_request_correlation, unexpected_message, negotiation_failed, missing_capability,
  error_request_correlation, request_correlation, validate_core, validate_worker,
}

pub record WorkerProtocolState : Type 0 where
  pub phase : WorkerProtocolPhase
  pub offered_versions : List ℕ
  pub required_capabilities : List WorkerCapability
  pub negotiated_version : Option ℕ
  pub active_requests : List (ℕ × ℕ)

unfoldable pub new : WorkerProtocolState
new = record {
  phase = awaiting_hello;
  offered_versions = [];
  required_capabilities = [];
  negotiated_version = none;
  active_requests = [];
}

-- The state after a message, with its result.
abbrev pub Observed : Type 0
Observed = WorkerProtocolState × Result WorkerProtocolError (Unit {0})

accept : WorkerProtocolState → Observed
accept s = (s, ok tt)

refuse : WorkerProtocolError → WorkerProtocolState → Observed
refuse error s = (s, err error)

-- The rest after `let correlation = request_correlation(…)?`.
with_correlation :
    Result WorkerProtocolError (ℕ × ℕ)
    → WorkerProtocolState
    → (WorkerProtocolState → ℕ × ℕ → Observed)
    → Observed
unfolding refuse
with_correlation (err error) s go = refuse error s
with_correlation (ok correlation) s go = go s correlation

begin_request : WorkerProtocolState → ℕ × ℕ → Observed
unfolding accept refuse insert
begin_request s (session, request) =
    if contains s.active_requests (session, request)
    then refuse (duplicate_request_correlation session request) s
    else accept (record s { active_requests = insert (session, request) s.active_requests })

require_active_request : WorkerProtocolState → ℕ × ℕ → Observed
unfolding accept refuse
require_active_request s (session, request) =
    if contains s.active_requests (session, request)
    then accept s
    else refuse (unknown_request_correlation session request) s

complete_active_request : WorkerProtocolState → ℕ × ℕ → Observed
unfolding accept refuse
complete_active_request s (session, request) =
    if contains s.active_requests (session, request)
    then accept (record s { active_requests = remove (session, request) s.active_requests })
    else refuse (unknown_request_correlation session request) s

-- The `match` of `observe_core`.
unfoldable pub step_core :
    WorkerProtocolPhase
    → CoreToWorkerMessage
    → CoreToWorkerEnvelope
    → WorkerProtocolState
    → Observed
unfolding accept refuse with_correlation begin_request require_active_request
step_core awaiting_hello (CoreToWorkerMessage.hello hello) e s = accept (record s {
  offered_versions = hello.supported_protocol_versions;
  required_capabilities = hello.required_capabilities;
  phase = awaiting_ready;
})
step_core awaiting_ready (CoreToWorkerMessage.shutdown _) e s =
    accept (record s { phase = shutting_down })
step_core ready (CoreToWorkerMessage.shutdown _) e s = accept (record s { phase = shutting_down })
step_core ready (CoreToWorkerMessage.health_check _) e s = accept s
step_core ready (CoreToWorkerMessage.transcribe _) e s =
    with_correlation (request_correlation e.session_id e.request_id) s begin_request
step_core ready (CoreToWorkerMessage.cancel _) e s =
    with_correlation (request_correlation e.session_id e.request_id) s require_active_request
step_core phase message e s = refuse (unexpected_message phase core_to_worker (core_kind message)) s

pub when_valid : Result WorkerProtocolError (Unit {0}) → WorkerProtocolState → Observed → Observed
when_valid (err error) s go = (s, err error)
when_valid (ok _) s go = go

unfoldable pub observe_core : WorkerProtocolState → CoreToWorkerEnvelope → Observed
unfolding when_valid
observe_core s e = when_valid (validate_core e) s (step_core s.phase e.message e s)

-- `required.iter().find(|capability| !ready.capabilities.contains(capability))`
unfoldable pub first_missing :
    List WorkerCapability → List WorkerCapability → Option WorkerCapability
first_missing [] offered = none
first_missing (c ∷ cs) offered = if contains offered c then first_missing cs offered else some c

negotiate : WorkerReady → WorkerProtocolState → Option WorkerCapability → Observed
unfolding accept refuse
negotiate payload s missing =
    if not (contains s.offered_versions payload.protocol_version)
    then refuse (negotiation_failed "worker selected an unsupported protocol version")
        (record s { phase = closed })
    else elim missing [
      | some capability ↦ refuse (missing_capability capability) (record s { phase = closed })
      | none ↦
          accept (record s { negotiated_version = some payload.protocol_version; phase = ready })
    ]

if_fatal : WorkerError → WorkerProtocolState → WorkerProtocolState
if_fatal error s = if error.fatal then record s { active_requests = []; phase = closed } else s

-- `?` after the completion, then the test for a fatal error.
after_completion : WorkerError → Observed → Observed
unfolding if_fatal accept refuse
after_completion error (s, err e) = refuse e s
after_completion error (s, ok _) = accept (if_fatal error s)

fail_request :
    WorkerError → WorkerProtocolState → Result WorkerProtocolError (Option (ℕ × ℕ)) → Observed
unfolding if_fatal accept refuse after_completion complete_active_request
fail_request error s (err e) = refuse e s
fail_request error s (ok none) = accept (if_fatal error s)
fail_request error s (ok (some correlation)) =
    after_completion error (complete_active_request s correlation)

complete_request : WorkerProtocolState → WorkerToCoreEnvelope → Observed
unfolding with_correlation complete_active_request
complete_request s e =
    with_correlation (request_correlation e.session_id e.request_id) s complete_active_request

-- The `match` of `observe_worker`.
unfoldable pub step_worker :
    WorkerProtocolPhase
    → WorkerToCoreMessage
    → WorkerToCoreEnvelope
    → WorkerProtocolState
    → Observed
unfolding accept refuse negotiate fail_request complete_request first_missing
step_worker awaiting_ready (WorkerToCoreMessage.ready payload) e s =
    negotiate payload s (first_missing s.required_capabilities payload.capabilities)
step_worker awaiting_ready (WorkerToCoreMessage.error error) e s =
    fail_request error s (error_request_correlation e.session_id e.request_id)
step_worker ready (WorkerToCoreMessage.error error) e s =
    fail_request error s (error_request_correlation e.session_id e.request_id)
step_worker shutting_down (WorkerToCoreMessage.error error) e s =
    fail_request error s (error_request_correlation e.session_id e.request_id)
step_worker ready (WorkerToCoreMessage.health_result _) e s = accept s
step_worker ready (WorkerToCoreMessage.transcript _) e s = complete_request s e
step_worker ready (WorkerToCoreMessage.cancelled _) e s = complete_request s e
step_worker shutting_down (WorkerToCoreMessage.cancelled _) e s = complete_request s e
step_worker shutting_down (WorkerToCoreMessage.shutdown_complete _) e s =
    accept (record s { active_requests = []; phase = closed })
step_worker phase message e s =
    refuse (unexpected_message phase worker_to_core (worker_kind message)) s

unfoldable pub observe_worker : WorkerProtocolState → WorkerToCoreEnvelope → Observed
unfolding when_valid
observe_worker s e = when_valid (validate_worker e) s (step_worker s.phase e.message e s)

-- What holds of a refusal that changes nothing and of the rest holds of a checked message.
pub when_valid-elim :
    (valid : Result WorkerProtocolError (Unit {0})) (s : WorkerProtocolState) (o : Observed)
    (P : Observed → Type 0)
    → ((e : WorkerProtocolError) → P (s, err e))
    → P o
    → P (when_valid valid s o)
unfolding when_valid
when_valid-elim (ok _) s o P bad good = good
when_valid-elim (err e) s o P bad good = bad e
