-- ===== src/Tests/Contract.antt =====
-- Runs of the worker protocol (crates/remtene-contracts/src/worker.rs) on concrete messages.
use rem_tene_public.Base.{
  ℕ, ◌≡◌, ◌≢◌, ◌≤◌, ◌+◌, ◌↔◌, suc, refl, true, Option, none, some, List, [], ◌∷◌, ok,
}
use rem_tene_public.Base.Text.{Text}
use rem_tene_public.Base.Sets.{contains, nat_eq}
use rem_tene_public.Contract.Messages.{
  WorkerCapability, WorkerEngineId, CoreToWorkerMessage, WorkerToCoreMessage, CoreToWorkerEnvelope,
  WorkerToCoreEnvelope,
}
use rem_tene_public.Contract.Validation.{ready, closed, contract_version}
use rem_tene_public.Contract.State.{new}
use rem_tene_public.Contract.State.Requests.{
  Message, to_worker, to_core, run, asked, answered, pending, answered-asked,
}
use rem_tene_public.Contract.State.Handshake.{run-agreed}
use rem_tene_public.Contract.Artifact.{UuidText, from_str, to_string, from_str-to_string}

-- "2026-01-02T03:04:05Z"
abbrev pub stamp : List ℕ
stamp =
    b'2' ∷ b'0' ∷ b'2' ∷ b'6' ∷ b'-' ∷ b'0' ∷ b'1' ∷ b'-' ∷ b'0' ∷ b'2' ∷ b'T' ∷ b'0' ∷ b'3' ∷ b':'
    ∷ b'0' ∷ b'4' ∷ b':' ∷ b'0' ∷ b'5' ∷ b'Z' ∷ []

abbrev pub four : List WorkerCapability
four =
    WorkerCapability.health_check ∷ WorkerCapability.final_transcript
    ∷ WorkerCapability.cancellation ∷ WorkerCapability.graceful_shutdown ∷ []

abbrev pub of_core : Option ℕ → Option ℕ → CoreToWorkerMessage → CoreToWorkerEnvelope
of_core session request message = record {
  contract_version = contract_version;
  message_id = 1;
  session_id = session;
  request_id = request;
  sent_at = stamp;
  message = message;
}

abbrev pub of_worker : Option ℕ → Option ℕ → WorkerToCoreMessage → WorkerToCoreEnvelope
of_worker session request message = record {
  contract_version = contract_version;
  message_id = 2;
  session_id = session;
  request_id = request;
  sent_at = stamp;
  message = message;
}

abbrev pub ready_message : WorkerToCoreMessage
ready_message = WorkerToCoreMessage.ready record {
  protocol_version = 1;
  worker_version = 49 ∷ [];
  supported_engines = WorkerEngineId.qwen ∷ WorkerEngineId.whisper ∷ [];
  runtime_id = 49 ∷ [];
  capabilities = four;
  build_signature_id = 49 ∷ [];
}

abbrev pub transcribe_message : CoreToWorkerMessage
transcribe_message = CoreToWorkerMessage.transcribe record {
  session_id = 7;
  request_id = 8;
  engine_id = WorkerEngineId.qwen;
  model_id = 49 ∷ [];
  audio_artifact_id = 5;
  audio_format = record { sample_rate_hz = 16000; channels = 1; bits_per_sample = 16 };
  language_hint = none;
  deadline_ms = 1000;
}

-- A handshake, a request, a second request under the same correlation, which is refused, and the
-- confirmation of its cancellation.
abbrev talk : List Message
talk =
    to_worker (
      of_core none none (
        CoreToWorkerMessage.hello record {
          supported_protocol_versions = 1 ∷ [];
          core_version = 49 ∷ [];
          required_capabilities = four;
        }))
    ∷ to_core (of_worker none none ready_message)
    ∷ to_worker (of_core (some 7) (some 8) transcribe_message)
    ∷ to_worker (of_core (some 7) (some 8) transcribe_message)
    ∷ to_core (
        of_worker (some 7) (some 8)
          (WorkerToCoreMessage.cancelled record { session_id = 7; request_id = 8 }))
    ∷ []

answered-asked_example :
    (answered (7, 8) new talk ≤ asked (7, 8) new talk)
    × (asked (7, 8) new talk ≤ suc (answered (7, 8) new talk))
    × ((run new talk).phase ≢ closed
        → asked (7, 8) new talk ≡ pending (7, 8) (run new talk) + answered (7, 8) new talk)
answered-asked_example = answered-asked (7, 8) talk

run-agreed_example :
    ((run new talk).phase ≡ ready → (run new talk).negotiated_version ≢ none)
    × ((run new talk).negotiated_version ≡ none → (run new talk).active_requests ≡ [])
    × ((v : ℕ)
        → (run new talk).negotiated_version ≡ some v
        → contains (run new talk).offered_versions v ≡ true)
run-agreed_example = run-agreed talk

-- A UUID that is written as one scalar value.
abbrev parse_one : Text → Option ℕ
parse_one (u ∷ []) = some u
parse_one _ = none

abbrev pub one_scalar : UuidText
one_scalar = record {
  parse_str = parse_one;
  hyphenated = λ u. u ∷ [];
  parse_str-hyphenated = λ u. refl;
}

from_str-to_string_example :
    (from_str one_scalar (5 ∷ []) ≡ ok 5)
    ↔ ((◌≢◌ {A = ℕ} 5 0) × ◌≡◌ {A = Text} (5 ∷ []) (to_string one_scalar 5))
from_str-to_string_example = from_str-to_string one_scalar (5 ∷ []) 5
