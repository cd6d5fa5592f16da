-- ===== src/Supervisor.antt =====
-- crates/remtene-adapters/src/asr_worker.rs: the actor that owns the recognition worker. It takes
-- commands one at a time, keeps at most one worker process, and answers each command once.
--
-- What the outside gives to a step is the record `Outside`. A response channel is a number; the
-- `log` of the state holds what was answered, granted and revoked, the newest event first. Times
-- are milliseconds of the monotonic clock.
pub mod Errors
pub mod Process
pub mod Commands
pub mod Shutdown
pub mod Answers
pub mod Deadlines
pub mod Loop
pub mod Ledger
pub mod Sound
pub mod Timing
pub mod Frames
use rem_tene_public.Base.{ℕ, Bool, true, false, Option, none, some, List, [], String, Result}
use rem_tene_public.Base.Text.{Text}
use rem_tene_public.Settings.{AsrEngine, qwen, whisper}
use rem_tene_public.Routes.{PortError, EngineHealth}
use rem_tene_public.Ports.{AsrRequest, AsrResult}
use rem_tene_public.Contract.Messages.{WorkerToCoreEnvelope}
use rem_tene_public.Contract.State.{WorkerProtocolState}

pub record WorkerLaunchConfig : Type 0 where
  pub core_version : Text
  pub qwen_model_id : Text
  pub whisper_model_id : Text
  pub health_timeout : ℕ
  pub cancel_timeout : ℕ
  pub shutdown_timeout : ℕ

unfoldable pub model_id : WorkerLaunchConfig → AsrEngine → Text
model_id config qwen = config.qwen_model_id
model_id config whisper = config.whisper_model_id

-- The handshake of a new process: it is not spawned, it does not answer in time, its answer is not
-- an envelope, or it answers.
pub data Launch : Type 0 where
  not_spawned no_answer unreadable : Launch
  answers : WorkerToCoreEnvelope → Launch

-- What one step is given: the clock as it is read for its tests, the deadline that a duration from
-- the present leads to (`deadline_after`, which reads the clock again), the new UUIDs, the time
-- stamp of its envelopes, whether its writes to the worker succeed, the launch of a process if it
-- needs one, the audio file and the grant of a transcription, and the result of revoking a grant.
pub record Outside : Type 0 where
  pub now : ℕ
  pub deadline_after : ℕ → ℕ
  pub new_id : ℕ
  pub hello_id : ℕ
  pub message_id : ℕ
  pub sent_at : List ℕ
  pub hello_written : Bool
  pub written : Bool
  pub launch : Launch
  pub source : Result PortError (Option String)
  pub granted : Result PortError ℕ
  pub revoked : Bool

pub record PendingHealth : Type 0 where
  pub request_id : ℕ
  pub engine : AsrEngine
  pub model_id : Text
  pub deadline : ℕ
  pub response : ℕ

-- `grant` is the id of the artifact grant.
pub record PendingTranscription : Type 0 where
  pub request : AsrRequest
  pub model_id : Text
  pub grant : ℕ
  pub deadline : ℕ
  pub cancel_deadline : Option ℕ
  pub terminal_error : Option PortError
  pub cancel_response : Option ℕ
  pub response : ℕ

pub record PendingShutdown : Type 0 where
  pub deadline : ℕ
  pub close_supervisor : Bool
  pub response : ℕ

pub data Event : Type 0 where
  health_answer : ℕ → Result PortError EngineHealth → Event
  transcript_answer : ℕ → Result PortError AsrResult → Event
  plain_answer : ℕ → Result PortError (Unit {0}) → Event
  granted revoked : ℕ → Event

pub data SupervisorCommand : Type 0 where
  health : AsrEngine → ℕ → SupervisorCommand
  transcribe : AsrRequest → ℕ → SupervisorCommand
  cancel : ℕ → ℕ → SupervisorCommand
  shutdown : Bool → ℕ → SupervisorCommand

-- `SupervisorActor`; `process` is the protocol state of the worker process.
pub record SupervisorActor : Type 0 where
  pub config : WorkerLaunchConfig
  pub process : Option WorkerProtocolState
  pub pending_health : Option PendingHealth
  pub pending_transcription : Option PendingTranscription
  pub pending_shutdown : Option PendingShutdown
  pub closed : Bool
  pub log : List Event

unfoldable pub new : WorkerLaunchConfig → SupervisorActor
new config = record {
  config = config;
  process = none;
  pending_health = none;
  pending_transcription = none;
  pending_shutdown = none;
  closed = false;
  log = [];
}
