-- ===== src/Workflow/State.antt =====
-- The shared state of crates/remtene-application/src/transcription_orchestrator.rs: `RuntimeState`
-- and its parts, the exit state, and the outcomes of the operations.
use rem_tene_public.Base.{ℕ, Bool, Option, none, some, List, [], ◌∷◌, String, Result}
use rem_tene_public.Base.Text.{Text}
use rem_tene_public.Settings.{SettingsSnapshot}
use rem_tene_public.Session.{RejectReason, FailureCategory}
use rem_tene_public.Routes.{PortError, ResolvedAsrRoute, TextProcessingRoute, DirectDeliveryReason}
use rem_tene_public.Coordinator.{SessionCoordinator, CoordinatorError}
use rem_tene_public.Fence.{Fence}
use rem_tene_public.Ports.{TargetSecurity, UserNotificationKind}

pub data AudioCleanupResource : Type 0 where
  capture finalized : String → AudioCleanupResource

pub record AudioCleanupDebt : Type 0 where
  pub session_id : ℕ
  pub phase : String
  pub resource : AudioCleanupResource
  pub error : PortError

pub data PreparingStage : Type 0 where
  starting_audio : PreparingStage
  capturing : String → PreparingStage
  cancelling : String → Bool → PreparingStage

-- `lifecycle` is the number of the fence in the store of `World`.
pub record PreparingWorkflow : Type 0 where
  pub session_id : ℕ
  pub settings : SettingsSnapshot
  pub processing_route : TextProcessingRoute
  pub target_ref : String
  pub target_security : TargetSecurity
  pub selected_text : Option Text
  pub lifecycle : ℕ
  pub recording_deadline : Option ℕ
  pub recording_limit_elapsed : Bool
  pub stage : PreparingStage

pub data CaptureCleanupCompletion : Type 0 where
  cancelled fail_audio : CaptureCleanupCompletion

pub data RuntimeStage : Type 0 where
  recording : String → RuntimeStage
  cancelling : String → CaptureCleanupCompletion → Bool → RuntimeStage
  finishing_audio : String → RuntimeStage
  recognizing : ℕ → Option String → RuntimeStage
  cleaning_audio : ℕ → String → Bool → RuntimeStage
  processing delivering finalizing : ℕ → RuntimeStage

pub record ActiveWorkflow : Type 0 where
  pub session_id : ℕ
  pub settings : SettingsSnapshot
  pub processing_route : TextProcessingRoute
  pub asr_route : ResolvedAsrRoute
  pub target_ref : String
  pub target_security : TargetSecurity
  pub selected_text : Option Text
  pub lifecycle : ℕ
  pub recording_deadline : Option ℕ
  pub stage : RuntimeStage

pub record ActiveContext : Type 0 where
  pub settings : SettingsSnapshot
  pub processing_route : TextProcessingRoute
  pub asr_route : ResolvedAsrRoute
  pub target_ref : String
  pub target_security : TargetSecurity
  pub selected_text : Option Text
  pub lifecycle : ℕ

unfoldable pub context_of : ActiveWorkflow → ActiveContext
context_of active = record {
  settings = active.settings;
  processing_route = active.processing_route;
  asr_route = active.asr_route;
  target_ref = active.target_ref;
  target_security = active.target_security;
  selected_text = active.selected_text;
  lifecycle = active.lifecycle;
}

pub record RuntimeState : Type 0 where
  pub quitting : Bool
  pub starting : Option ℕ
  pub preparing : Option PreparingWorkflow
  pub active : Option ActiveWorkflow
  pub audio_cleanup_debts : List AudioCleanupDebt

first_debt_session : List AudioCleanupDebt → Option ℕ
first_debt_session [] = none
first_debt_session (debt ∷ _) = some debt.session_id

or_starting : Option ℕ → List AudioCleanupDebt → Option ℕ
or_starting (some id) debts = some id
or_starting none debts = first_debt_session debts

or_preparing : Option PreparingWorkflow → Option ℕ → List AudioCleanupDebt → Option ℕ
or_preparing (some p) starting debts = some p.session_id
or_preparing none starting debts = or_starting starting debts

busy_with : Option ActiveWorkflow → RuntimeState → Option ℕ
busy_with (some a) r = some a.session_id
busy_with none r = or_preparing r.preparing r.starting r.audio_cleanup_debts

unfoldable pub active_session_id : RuntimeState → Option ℕ
unfolding first_debt_session or_starting or_preparing busy_with
active_session_id r = busy_with r.active r

pub data OrchestratorError : Type 0 where
  audio_cleanup_failed : ℕ → String → PortError → OrchestratorError
  coordinator : CoordinatorError → OrchestratorError

unfoldable pub orchestrator_error : AudioCleanupDebt → OrchestratorError
orchestrator_error debt = audio_cleanup_failed debt.session_id debt.phase debt.error

pub data StartOutcome : Type 0 where
  started busy : ℕ → StartOutcome
  rejected : RejectReason → StartOutcome
  failed : FailureCategory → StartOutcome
  quitting : StartOutcome

pub data CancelOutcome : Type 0 where
  cancelled cleanup_recovered cleanup_in_progress not_recording not_found : CancelOutcome

pub data AudioCleanupOutcome : Type 0 where
  recovered in_progress not_pending quitting : AudioCleanupOutcome

pub data DeliveryKind : Type 0 where
  inserted clipboard_bridge temporary_text : DeliveryKind

pub data FinalizationWarning : Type 0 where
  auto_copy_failed history_save_failed : FinalizationWarning

pub record Completion : Type 0 where
  pub final_text : Text
  pub delivery : DeliveryKind
  pub direct_delivery_reason : Option DirectDeliveryReason
  pub warnings : List FinalizationWarning

pub data FinishOutcome : Type 0 where
  completed : Completion → FinishOutcome
  failed : FailureCategory → FinishOutcome
  no_speech discarded not_recording : FinishOutcome

pub data DeliveryProgress : Type 0 where
  delivered : DeliveryKind → Option UserNotificationKind → DeliveryProgress
  discarded failed : DeliveryProgress

pub data QuitOutcome : Type 0 where
  idle : QuitOutcome
  terminated : ℕ → QuitOutcome

abbrev pub QuitResult : Type 0
QuitResult = Result OrchestratorError QuitOutcome

-- An attempt is named by its place in `World.attempts`, which holds its result once it is there.
pub data ExitState : Type 0 where
  not_begun : ExitState
  running : ℕ → ExitState
  complete : QuitOutcome → ExitState

-- All that the operations share: the runtime state and the coordinator behind their mutexes, the
-- configuration gate (held or free), the operation barrier, the lifecycle fences by number, and the
-- exit state with the results of its attempts.
pub record World : Type 0 where
  pub runtime : RuntimeState
  pub sessions : SessionCoordinator
  pub gate_held : Bool
  pub operations : Fence
  pub fences : ℕ → Fence
  pub next_fence : ℕ
  pub exit : ExitState
  pub attempts : ℕ → Option QuitResult
  pub next_attempt : ℕ
