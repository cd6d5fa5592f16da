-- ===== src/Workflow/Cancel.antt =====
-- `cancel_recording`, and `finish_capture_cancellation` of
-- crates/remtene-application/src/transcription_orchestrator.rs, and the operation guard that every
-- public operation holds.
use rem_tene_public.Base.{ℕ, Bool, true, not, Option, none, some, String, if◌then◌else◌}
use rem_tene_public.Session.{FailureCategory, TerminalOutcome, SessionEvent}
use rem_tene_public.Fence
use rem_tene_public.Ports.{RecordingCue}
use rem_tene_public.Workflow.State.{
  RuntimeState, PreparingWorkflow, ActiveWorkflow, PreparingStage, RuntimeStage,
  CaptureCleanupCompletion, CancelOutcome,
}
use rem_tene_public.Workflow.Program.{M, pure, ◌>>=◌, ◌>>◌, section, on_runtime, finally}
use rem_tene_public.Workflow.Sections.{
  preparing_of, active_of, with_preparing, with_active, is_cancelling,
}
use rem_tene_public.Workflow.Feedback.{
  in_stage, drop_deadline, hide_recording_hud, play_recording_cue, publish_recording_hud_terminal,
}
use rem_tene_public.Workflow.Audio.{cancel_capture, or_release}
use rem_tene_public.Workflow.Ending.{
  remove_preparing_if_current, clear_active_if_current, apply_if_current, fail_current,
}

-- `OperationBarrier::enter`, and the drop of the guard.
enter_operation : M Bool
enter_operation = section (λ w.
    let (fence, entered) = Fence.begin_commit w.operations in
    (record w { operations = fence }, entered))

leave_operation : M Unit
leave_operation = section (λ w. (record w { operations = Fence.end_commit w.operations }, tt))

-- `let Some(_operation_guard) = self.operations.enter() else { return … }`
unfoldable pub guarded : {A : Type 0} → A → M A → M A
unfolding enter_operation leave_operation
guarded refused body = do
  entered ← enter_operation
  if entered then finally body leave_operation else pure refused

pub data CaptureCancellationTarget : Type 0 where
  preparing_target : CaptureCancellationTarget
  active_target : CaptureCleanupCompletion → CaptureCancellationTarget

finish_active_cancellation : ℕ → CaptureCleanupCompletion → M CancelOutcome
finish_active_cancellation id CaptureCleanupCompletion.cancelled = do
  applied ← apply_if_current id SessionEvent.cancel_recording
  if not applied then pure CancelOutcome.cancelled else do
    publish_recording_hud_terminal id TerminalOutcome.cancelled
    clear_active_if_current id
    pure CancelOutcome.cancelled
finish_active_cancellation id CaptureCleanupCompletion.fail_audio = do
  current ← fail_current id FailureCategory.audio
  pure (if current then CancelOutcome.cleanup_recovered else CancelOutcome.cancelled)

finish_target : ℕ → CaptureCancellationTarget → M CancelOutcome
unfolding finish_active_cancellation
finish_target id preparing_target = do
  remove_preparing_if_current id
  hide_recording_hud id
  pure CancelOutcome.cancelled
finish_target id (active_target completion) = do
  current ← in_stage id is_cancelling
  if not current then pure CancelOutcome.cancelled else finish_active_cancellation id completion

unfoldable pub finish_capture_cancellation :
    ℕ → String → CaptureCancellationTarget → M CancelOutcome
unfolding finish_target
finish_capture_cancellation id held target = do
  or_release id (cancel_capture id held)
  play_recording_cue id RecordingCue.cancel
  finish_target id target

pub data CaptureCancellationSelection : Type 0 where
  immediate : CancelOutcome → CaptureCancellationSelection
  claimed : String → CaptureCancellationTarget → Option ℕ → CaptureCancellationSelection

claim_preparing : RuntimeState → PreparingWorkflow → RuntimeState × CaptureCancellationSelection
claim_preparing r p = elim p.stage [
  | PreparingStage.starting_audio ↦ (r, immediate CancelOutcome.not_recording)
  | PreparingStage.capturing held ↦ (
    record r {
      preparing =
          some
            (record p { recording_deadline = none; stage = PreparingStage.cancelling held true });
    },
    claimed held preparing_target p.recording_deadline,
  )
  | PreparingStage.cancelling held in_flight ↦
      if in_flight then (r, immediate CancelOutcome.cleanup_in_progress) else (
        with_preparing r p (PreparingStage.cancelling held true),
        claimed held preparing_target none,
      )
]

claim_active : RuntimeState → ActiveWorkflow → RuntimeState × CaptureCancellationSelection
claim_active r a = elim a.stage [
  | RuntimeStage.recording held ↦ (
    record r {
      active = some (record a {
        recording_deadline = none;
        stage = RuntimeStage.cancelling held CaptureCleanupCompletion.cancelled true;
      });
    },
    claimed held (active_target CaptureCleanupCompletion.cancelled) a.recording_deadline,
  )
  | RuntimeStage.cancelling held completion in_flight ↦
      if in_flight then (r, immediate CancelOutcome.cleanup_in_progress) else (
        with_active r a (RuntimeStage.cancelling held completion true),
        claimed held (active_target completion) none,
      )
  | _ ↦ (r, immediate CancelOutcome.not_recording)
]

-- The section of `cancel_recording`; `claimed` also has the deadline guard that was dropped.
unfoldable pub select_cancellation : ℕ → RuntimeState → RuntimeState × CaptureCancellationSelection
unfolding preparing_of active_of claim_preparing claim_active
select_cancellation id r = elim (preparing_of r id) [
  | some p ↦ claim_preparing r p
  | none ↦ elim (active_of r id) [
    | some a ↦ claim_active r a
    | none ↦ (r, immediate CancelOutcome.not_found)
  ]
]

follow_selection : ℕ → CaptureCancellationSelection → M CancelOutcome
follow_selection id (immediate outcome) = pure outcome
follow_selection id (claimed held target deadline) =
    drop_deadline deadline >> finish_capture_cancellation id held target

unfoldable pub cancel_recording : ℕ → M CancelOutcome
unfolding follow_selection
cancel_recording id =
    guarded CancelOutcome.not_found (on_runtime (select_cancellation id) >>= follow_selection id)
