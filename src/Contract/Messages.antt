-- ===== src/Contract/Messages.antt =====
-- The messages of crates/remtene-contracts/src/worker.rs. A UUID is a number, the nil UUID is 0.
use rem_tene_public.Base.{ℕ, Bool, true, false, Option, List, ◌≡◌, ◌↔◌, String, arith}
use rem_tene_public.Base.Text.{Text}
use rem_tene_public.Base.Sets.{Eq}

pub data WorkerEngineId : Type 0 where
  qwen whisper : WorkerEngineId

pub data WorkerCapability : Type 0 where
  health_check final_transcript cancellation graceful_shutdown : WorkerCapability

pub data WorkerMessageKind : Type 0 where
  hello health_check transcribe cancel shutdown ready health_result transcript : WorkerMessageKind
  cancelled error shutdown_complete : WorkerMessageKind

pub record CoreHello : Type 0 where
  pub supported_protocol_versions : List ℕ
  pub core_version : Text
  pub required_capabilities : List WorkerCapability

pub record HealthCheckRequest : Type 0 where
  pub engine_id : WorkerEngineId
  pub model_id : Text

pub record AudioFormatDto : Type 0 where
  pub sample_rate_hz : ℕ
  pub channels : ℕ
  pub bits_per_sample : ℕ

pub record TranscribeRequest : Type 0 where
  pub session_id : ℕ
  pub request_id : ℕ
  pub engine_id : WorkerEngineId
  pub model_id : Text
  pub audio_artifact_id : ℕ
  pub audio_format : AudioFormatDto
  pub language_hint : Option Text
  pub deadline_ms : ℕ

pub record CancelRequest : Type 0 where
  pub session_id : ℕ
  pub request_id : ℕ

pub record ShutdownRequest : Type 0 where
  pub grace_period_ms : ℕ

pub record WorkerReady : Type 0 where
  pub protocol_version : ℕ
  pub worker_version : Text
  pub supported_engines : List WorkerEngineId
  pub runtime_id : Text
  pub capabilities : List WorkerCapability
  pub build_signature_id : Text

pub data HealthStatus : Type 0 where
  healthy unhealthy missing incompatible : HealthStatus

pub record HealthResult : Type 0 where
  pub engine_id : WorkerEngineId
  pub model_id : Text
  pub model_version : Text
  pub status : HealthStatus
  pub device_class : Text
  pub safe_error_code : Option Text

pub record TranscriptResult : Type 0 where
  pub session_id : ℕ
  pub request_id : ℕ
  pub engine_id : WorkerEngineId
  pub model_id : Text
  pub final_text : Text
  pub detected_language : Option Text
  pub audio_duration_ms : ℕ
  pub inference_duration_ms : ℕ

pub record CancelledResult : Type 0 where
  pub session_id : ℕ
  pub request_id : ℕ

pub data WorkerErrorCode : Type 0 where
  protocol_incompatible invalid_request engine_unavailable model_missing : WorkerErrorCode
  model_incompatible inference_failed cancellation_failed internal : WorkerErrorCode

pub record WorkerError : Type 0 where
  pub code : WorkerErrorCode
  pub retryable : Bool
  pub fatal : Bool
  pub safe_message_key : String

pub record ShutdownComplete : Type 0 where
  pub worker_version : Text

pub data CoreToWorkerMessage : Type 0 where
  hello : CoreHello → CoreToWorkerMessage
  health_check : HealthCheckRequest → CoreToWorkerMessage
  transcribe : TranscribeRequest → CoreToWorkerMessage
  cancel : CancelRequest → CoreToWorkerMessage
  shutdown : ShutdownRequest → CoreToWorkerMessage

pub data WorkerToCoreMessage : Type 0 where
  ready : WorkerReady → WorkerToCoreMessage
  health_result : HealthResult → WorkerToCoreMessage
  transcript : TranscriptResult → WorkerToCoreMessage
  cancelled : CancelledResult → WorkerToCoreMessage
  error : WorkerError → WorkerToCoreMessage
  shutdown_complete : ShutdownComplete → WorkerToCoreMessage

-- `CoreToWorkerMessage::kind`
abbrev pub core_kind : CoreToWorkerMessage → WorkerMessageKind
core_kind (CoreToWorkerMessage.hello _) = WorkerMessageKind.hello
core_kind (CoreToWorkerMessage.health_check _) = WorkerMessageKind.health_check
core_kind (CoreToWorkerMessage.transcribe _) = WorkerMessageKind.transcribe
core_kind (CoreToWorkerMessage.cancel _) = WorkerMessageKind.cancel
core_kind (CoreToWorkerMessage.shutdown _) = WorkerMessageKind.shutdown

-- `WorkerToCoreMessage::kind`
abbrev pub worker_kind : WorkerToCoreMessage → WorkerMessageKind
worker_kind (WorkerToCoreMessage.ready _) = WorkerMessageKind.ready
worker_kind (WorkerToCoreMessage.health_result _) = WorkerMessageKind.health_result
worker_kind (WorkerToCoreMessage.transcript _) = WorkerMessageKind.transcript
worker_kind (WorkerToCoreMessage.cancelled _) = WorkerMessageKind.cancelled
worker_kind (WorkerToCoreMessage.error _) = WorkerMessageKind.error
worker_kind (WorkerToCoreMessage.shutdown_complete _) = WorkerMessageKind.shutdown_complete

-- `sent_at` is the bytes of the text.
pub record CoreToWorkerEnvelope : Type 0 where
  pub contract_version : ℕ
  pub message_id : ℕ
  pub session_id : Option ℕ
  pub request_id : Option ℕ
  pub sent_at : List ℕ
  pub message : CoreToWorkerMessage

pub record WorkerToCoreEnvelope : Type 0 where
  pub contract_version : ℕ
  pub message_id : ℕ
  pub session_id : Option ℕ
  pub request_id : Option ℕ
  pub sent_at : List ℕ
  pub message : WorkerToCoreMessage

abbrev engine_beq : WorkerEngineId → WorkerEngineId → Bool
engine_beq qwen qwen = true
engine_beq whisper whisper = true
engine_beq _ _ = false

pub engine_beq_iff : (a b : WorkerEngineId) → (engine_beq a b ≡ true) ↔ (a ≡ b)
engine_beq_iff a b = ground arith

instance abbrev pub engine_eq : Eq WorkerEngineId
engine_eq = record { beq = engine_beq; beq_iff = engine_beq_iff }

abbrev capability_beq : WorkerCapability → WorkerCapability → Bool
capability_beq WorkerCapability.health_check WorkerCapability.health_check = true
capability_beq final_transcript final_transcript = true
capability_beq cancellation cancellation = true
capability_beq graceful_shutdown graceful_shutdown = true
capability_beq _ _ = false

pub capability_beq_iff : (a b : WorkerCapability) → (capability_beq a b ≡ true) ↔ (a ≡ b)
capability_beq_iff a b = ground arith

instance abbrev pub capability_eq : Eq WorkerCapability
capability_eq = record { beq = capability_beq; beq_iff = capability_beq_iff }
