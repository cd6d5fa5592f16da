-- ===== src/Contract/Validation.antt =====
-- The validation of envelopes in crates/remtene-contracts/src/worker.rs.
use rem_tene_public.Base.{
  ℕ, Bool, true, false, not, ◌&&◌, ◌||◌, Option, none, some, List, [], String, Result, ok, err,
  ◌==◌, is_some_and, length,
}
use rem_tene_public.Base.Text.{Text, trim, is_empty, chars}
use rem_tene_public.Base.Results.{◌>>=◌, ◌>>◌, require}
use rem_tene_public.Base.Sets.{Eq, contains, all_fresh, nat_eq}
use rem_tene_public.Contract.Messages.{
  WorkerCapability, WorkerMessageKind, CoreHello, WorkerReady, AudioFormatDto, CoreToWorkerMessage,
  WorkerToCoreMessage, CoreToWorkerEnvelope, WorkerToCoreEnvelope, engine_eq, capability_eq,
}
use rem_tene_public.Contract.Timestamp.{is_utc_rfc3339}

abbrev pub contract_version : ℕ
contract_version = 1

pub data ProtocolDirection : Type 0 where
  core_to_worker worker_to_core : ProtocolDirection

pub data WorkerProtocolPhase : Type 0 where
  awaiting_hello awaiting_ready ready shutting_down closed : WorkerProtocolPhase

pub data WorkerProtocolError : Type 0 where
  unsupported_contract_version : ℕ → ℕ → WorkerProtocolError
  nil_identifier missing_correlation unexpected_correlation : String → WorkerProtocolError
  correlation_mismatch : String → WorkerProtocolError
  duplicate_request_correlation unknown_request_correlation : ℕ → ℕ → WorkerProtocolError
  invalid_field duplicate_value : String → WorkerProtocolError
  unexpected_message :
      WorkerProtocolPhase → ProtocolDirection → WorkerMessageKind → WorkerProtocolError
  negotiation_failed : String → WorkerProtocolError
  missing_capability : WorkerCapability → WorkerProtocolError

abbrev Checked : Type 0
Checked = Result WorkerProtocolError (Unit {0})

require_non_empty : String → Text → Checked
require_non_empty field value = require (not (is_empty (trim value))) (invalid_field field)

-- `if value.is_some_and(|value| value.trim().is_empty()) { return Err(…) }`
require_not_blank : String → Option Text → Checked
require_not_blank field value =
    require (not (is_some_and value (λ v. is_empty (trim v)))) (invalid_field field)

require_unique : {A : Type 0} ⦃e : Eq A⦄ → String → List A → Checked
require_unique field values = require (all_fresh [] values) (duplicate_value field)

require_correlation : String → Option ℕ → Bool → Checked
require_correlation name none true = err (missing_correlation name)
require_correlation name (some _) false = err (unexpected_correlation name)
require_correlation name _ _ = ok tt

require_correlations : Option ℕ → Option ℕ → Bool → Bool → Checked
unfolding require_correlation
require_correlations session request needs_session needs_request = do
  require_correlation "session_id" session needs_session
  require_correlation "request_id" request needs_request

unfoldable pub error_request_correlation :
    Option ℕ → Option ℕ → Result WorkerProtocolError (Option (ℕ × ℕ))
error_request_correlation none none = ok none
error_request_correlation (some session) (some request) = ok (some (session, request))
error_request_correlation none (some _) = err (missing_correlation "session_id")
error_request_correlation (some _) none = err (missing_correlation "request_id")

validate_error_correlations : Option ℕ → Option ℕ → Checked
unfolding error_request_correlation
validate_error_correlations session request =
    error_request_correlation session request >>= λ _. ok tt

or_missing : Option (ℕ × ℕ) → Result WorkerProtocolError (ℕ × ℕ)
or_missing none = err (missing_correlation "session_id and request_id")
or_missing (some correlation) = ok correlation

unfoldable pub request_correlation : Option ℕ → Option ℕ → Result WorkerProtocolError (ℕ × ℕ)
unfolding error_request_correlation or_missing
request_correlation session request = error_request_correlation session request >>= or_missing

require_matching_id : String → Option ℕ → ℕ → Checked
require_matching_id field envelope_id payload_id =
    require (is_some_and envelope_id (λ id. id == payload_id)) (correlation_mismatch field)

is_not_nil : Option ℕ → Bool
is_not_nil id = not (is_some_and id (λ value. value == 0))

unfoldable pub validate_common_envelope : ℕ → ℕ → Option ℕ → Option ℕ → List ℕ → Checked
unfolding is_not_nil
validate_common_envelope version message session request sent_at = do
  require (version == contract_version) (unsupported_contract_version contract_version version)
  require (not (message == 0)) (nil_identifier "message_id")
  require (is_not_nil session) (nil_identifier "session_id")
  require (is_not_nil request) (nil_identifier "request_id")
  require (is_utc_rfc3339 sent_at) (invalid_field "sent_at")

unfoldable pub validate_hello : CoreHello → Checked
unfolding require_non_empty require_unique
validate_hello payload = do
  require_non_empty "hello.core_version" payload.core_version
  require
      (not (length payload.supported_protocol_versions == 0)
        && contains payload.supported_protocol_versions contract_version)
      (negotiation_failed "core does not offer the current protocol version")
  require_unique "supported_protocol_versions" payload.supported_protocol_versions
  require_unique "required_capabilities" payload.required_capabilities

unfoldable pub validate_ready : WorkerReady → Checked
unfolding require_non_empty require_unique
validate_ready payload = do
  require_non_empty "ready.worker_version" payload.worker_version
  require_non_empty "ready.runtime_id" payload.runtime_id
  require_non_empty "ready.build_signature_id" payload.build_signature_id
  require (not (payload.protocol_version == 0) && not (length payload.supported_engines == 0))
      (invalid_field "ready capabilities")
  require_unique "supported_engines" payload.supported_engines
  require_unique "capabilities" payload.capabilities

has_format : AudioFormatDto → Bool
has_format format =
    not (format.sample_rate_hz == 0 || (format.channels == 0 || format.bits_per_sample == 0))

-- The `match &self.message` of `CoreToWorkerEnvelope::validate`.
validate_core_message : Option ℕ → Option ℕ → CoreToWorkerMessage → Checked
unfolding require_correlations validate_hello require_non_empty require_matching_id has_format
    require_not_blank
validate_core_message session request (CoreToWorkerMessage.hello payload) = do
  require_correlations session request false false
  validate_hello payload
validate_core_message session request (CoreToWorkerMessage.health_check payload) = do
  require_correlations session request false true
  require_non_empty "health_check.model_id" payload.model_id
validate_core_message session request (CoreToWorkerMessage.transcribe payload) = do
  require_correlations session request true true
  require_matching_id "session_id" session payload.session_id
  require_matching_id "request_id" request payload.request_id
  require_non_empty "transcribe.model_id" payload.model_id
  require (has_format payload.audio_format) (invalid_field "audio_format")
  require (not (payload.deadline_ms == 0)) (invalid_field "deadline_ms")
  require_not_blank "language_hint" payload.language_hint
validate_core_message session request (CoreToWorkerMessage.cancel payload) = do
  require_correlations session request true true
  require_matching_id "session_id" session payload.session_id
  require_matching_id "request_id" request payload.request_id
validate_core_message session request (CoreToWorkerMessage.shutdown _) =
    require_correlations session request false false

-- `CoreToWorkerEnvelope::validate`
unfoldable pub validate_core : CoreToWorkerEnvelope → Checked
unfolding validate_core_message validate_common_envelope
validate_core e = do
  validate_common_envelope e.contract_version e.message_id e.session_id e.request_id e.sent_at
  validate_core_message e.session_id e.request_id e.message

-- The `match &self.message` of `WorkerToCoreEnvelope::validate`.
validate_worker_message : Option ℕ → Option ℕ → WorkerToCoreMessage → Checked
unfolding require_correlations validate_ready require_non_empty require_matching_id
    require_not_blank validate_error_correlations
validate_worker_message session request (WorkerToCoreMessage.ready payload) = do
  require_correlations session request false false
  validate_ready payload
validate_worker_message session request (WorkerToCoreMessage.health_result payload) = do
  require_correlations session request false true
  require_non_empty "health_result.model_id" payload.model_id
  require_non_empty "health_result.model_version" payload.model_version
  require_non_empty "health_result.device_class" payload.device_class
  require_not_blank "safe_error_code" payload.safe_error_code
validate_worker_message session request (WorkerToCoreMessage.transcript payload) = do
  require_correlations session request true true
  require_matching_id "session_id" session payload.session_id
  require_matching_id "request_id" request payload.request_id
  require_non_empty "transcript.model_id" payload.model_id
  require_non_empty "transcript.final_text" payload.final_text
  require_not_blank "detected_language" payload.detected_language
validate_worker_message session request (WorkerToCoreMessage.cancelled payload) = do
  require_correlations session request true true
  require_matching_id "session_id" session payload.session_id
  require_matching_id "request_id" request payload.request_id
validate_worker_message session request (WorkerToCoreMessage.error payload) = do
  validate_error_correlations session request
  require_non_empty "worker_error.safe_message_key" (chars payload.safe_message_key)
validate_worker_message session request (WorkerToCoreMessage.shutdown_complete payload) = do
  require_correlations session request false false
  require_non_empty "shutdown_complete.worker_version" payload.worker_version

-- `WorkerToCoreEnvelope::validate`
unfoldable pub validate_worker : WorkerToCoreEnvelope → Checked
unfolding validate_worker_message validate_common_envelope
validate_worker e = do
  validate_common_envelope e.contract_version e.message_id e.session_id e.request_id e.sent_at
  validate_worker_message e.session_id e.request_id e.message
