-- ===== src/Workflow/Retry.antt =====
-- `retry_audio_cleanup` and `recording_limit_elapsed` of
-- crates/remtene-application/src/transcription_orchestrator.rs.
use rem_tene_public.Base.{
  ℕ, Bool, true, false, not, Option, none, some, Result, ok, err, if◌then◌else◌, is_some_and,
}
use rem_tene_public.Session.{FailureCategory, TerminalOutcome, SessionEvent}
use rem_tene_public.Routes.{PortError}
use rem_tene_public.Workflow.State.{
  RuntimeState, PreparingWorkflow, ActiveWorkflow, PreparingStage, RuntimeStage,
  CaptureCleanupCompletion, AudioCleanupOutcome, recovered, in_progress, not_pending,
  AudioCleanupDebt, FinishOutcome, OrchestratorError,
}
use rem_tene_public.Workflow.Program.{M, pure, ◌>>=◌, ◌>>◌, attempt, on_runtime}
use rem_tene_public.Workflow.Sections.{preparing_of, active_of, with_preparing, with_active}
use rem_tene_public.Workflow.Debts.{find_debt}
use rem_tene_public.Workflow.Feedback.{
  record_port_error, read_runtime, hide_recording_hud, publish_recording_hud_terminal,
}
use rem_tene_public.Workflow.Audio.{or_release, remove_resource}
use rem_tene_public.Workflow.Ending.{
  remove_preparing_if_current, clear_active_if_current, apply_if_current, fail_current,
}
use rem_tene_public.Workflow.Cancel.{guarded}
use rem_tene_public.Workflow.Finish.{finish_recording}

-- What `retry_audio_cleanup` finds: nothing to do, or a debt that it now works on.
pub data RetrySelection : Type 0 where
  nothing : AudioCleanupOutcome → RetrySelection
  retrying : AudioCleanupDebt → RetrySelection

retry_in_preparing :
    RuntimeState → AudioCleanupDebt → PreparingWorkflow → RuntimeState × RetrySelection
retry_in_preparing r debt p = elim p.stage [
  | PreparingStage.cancelling held in_flight ↦
      if in_flight
      then (r, nothing in_progress)
      else (with_preparing r p (PreparingStage.cancelling held true), retrying debt)
  | _ ↦ (r, nothing not_pending)
]

retry_in_active : RuntimeState → AudioCleanupDebt → ActiveWorkflow → RuntimeState × RetrySelection
retry_in_active r debt a = elim a.stage [
  | RuntimeStage.cancelling held completion in_flight ↦
      if in_flight
      then (r, nothing in_progress)
      else (with_active r a (RuntimeStage.cancelling held completion true), retrying debt)
  | RuntimeStage.cleaning_audio request audio in_flight ↦
      if in_flight
      then (r, nothing in_progress)
      else (with_active r a (RuntimeStage.cleaning_audio request audio true), retrying debt)
  | _ ↦ (r, nothing not_pending)
]

unfoldable pub select_retry : ℕ → RuntimeState → RuntimeState × RetrySelection
unfolding preparing_of active_of retry_in_preparing retry_in_active
select_retry id r = elim (find_debt id r.audio_cleanup_debts) [
  | none ↦ (r, nothing not_pending)
  | some debt ↦ elim (preparing_of r id) [
    | some p ↦ retry_in_preparing r debt p
    | none ↦ elim (active_of r id) [
      | some a ↦ retry_in_active r debt a
      | none ↦ (r, nothing not_pending)
    ]
  ]
]

-- `AudioCleanupCompletion`
pub data AudioCleanupCompletion : Type 0 where
  of_preparing : AudioCleanupCompletion
  of_capture : CaptureCleanupCompletion → AudioCleanupCompletion
  of_recording : AudioCleanupCompletion

completion_of_active : RuntimeStage → Option AudioCleanupCompletion
completion_of_active stage = elim stage [
  | RuntimeStage.cancelling held completion _ ↦ some (of_capture completion)
  | RuntimeStage.cleaning_audio _ _ _ ↦ some of_recording
  | _ ↦ none
]

active_completion : ℕ → RuntimeState → Option AudioCleanupCompletion
unfolding active_of completion_of_active
active_completion id r = elim (active_of r id) [
  | none ↦ none
  | some a ↦ completion_of_active a.stage
]

is_cancelling_preparing : PreparingStage → Bool
is_cancelling_preparing stage = elim stage [ PreparingStage.cancelling _ _ ↦ true | _ ↦ false ]

-- What the successful removal completes.
unfoldable pub completion_of : ℕ → RuntimeState → Option AudioCleanupCompletion
unfolding preparing_of active_completion is_cancelling_preparing
completion_of id r = elim (preparing_of r id) [
  | some p ↦ if is_cancelling_preparing p.stage then some of_preparing else active_completion id r
  | none ↦ active_completion id r
]

fail_audio_quietly : ℕ → M Unit
fail_audio_quietly id = fail_current id FailureCategory.audio >>= λ _. pure tt

complete_retry : ℕ → Option AudioCleanupCompletion → M Unit
unfolding fail_audio_quietly
complete_retry id none = pure tt
complete_retry id (some of_preparing) = do remove_preparing_if_current id; hide_recording_hud id
complete_retry id (some (of_capture CaptureCleanupCompletion.cancelled)) = do
  applied ← apply_if_current id SessionEvent.cancel_recording
  if not applied then pure tt else do
    publish_recording_hud_terminal id TerminalOutcome.cancelled
    clear_active_if_current id
complete_retry id (some (of_capture CaptureCleanupCompletion.fail_audio)) = fail_audio_quietly id
complete_retry id (some of_recording) = fail_audio_quietly id

retry_selected : ℕ → RetrySelection → M AudioCleanupOutcome
unfolding complete_retry
retry_selected id (nothing outcome) = pure outcome
retry_selected id (retrying debt) = do
  or_release id (remove_resource id debt.resource)
  completion ← read_runtime (completion_of id)
  complete_retry id completion
  pure recovered

unfoldable pub retry_audio_cleanup : ℕ → M AudioCleanupOutcome
unfolding retry_selected
retry_audio_cleanup id =
    guarded AudioCleanupOutcome.quitting (on_runtime (select_retry id) >>= retry_selected id)

is_recording : RuntimeStage → Bool
is_recording stage = elim stage [ RuntimeStage.recording _ ↦ true | _ ↦ false ]

-- The section of `recording_limit_elapsed`: a session that is still preparing is marked.
unfoldable pub note_limit : ℕ → RuntimeState → RuntimeState × Bool
unfolding preparing_of active_of is_recording
note_limit id r = elim (preparing_of r id) [
  | some p ↦ (record r { preparing = some (record p { recording_limit_elapsed = true }) }, false)
  | none ↦ (r, is_some_and (active_of r id) (λ a. is_recording a.stage))
]

abbrev pub deadline_error : PortError
deadline_error = record {
  code = "recording.deadline_finish_failed";
  safe_message_key = "errors.recording.deadline_finish_failed";
  retryable = false;
}

note_late_finish : ℕ → Result OrchestratorError FinishOutcome → M Unit
note_late_finish id (ok _) = pure tt
note_late_finish id (err _) = record_port_error (some id) "recording_deadline_finish" deadline_error

unfoldable pub recording_limit_elapsed : ℕ → M Unit
unfolding note_late_finish
recording_limit_elapsed id = do
  should_finish ← on_runtime (note_limit id)
  if not should_finish then pure tt else attempt (finish_recording id) >>= note_late_finish id
