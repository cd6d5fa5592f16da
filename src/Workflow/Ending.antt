-- ===== src/Workflow/Ending.antt =====
-- How a session of crates/remtene-application/src/transcription_orchestrator.rs ends: the events
-- that the coordinator is given, the failure path, and the release of the slot.
pub mod Calm
use rem_tene_public.Base.{
  ℕ, Bool, true, false, not, Option, none, some, is_some, Result, ok, err, ◌==◌, if◌then◌else◌,
}
use rem_tene_public.Session.{
  SessionEvent, TerminalOutcome, FailureCategory, fail, no_speech, cancelled,
}
use rem_tene_public.Coordinator.{
  CoordinatorError, session_not_found, invalid_transition, SessionMutation,
}
use rem_tene_public.Coordinator
use rem_tene_public.Fence
use rem_tene_public.Fence.{Fence}
use rem_tene_public.Ports.{UserNotificationKind}
use rem_tene_public.Workflow.State.{
  World, RuntimeState, RuntimeStage, PreparingWorkflow, ActiveWorkflow, OrchestratorError,
  coordinator,
}
use rem_tene_public.Workflow.Program.{
  M, pure, throw, ◌>>=◌, ◌>>◌, attempt, perform, section, on_runtime,
}
use rem_tene_public.Workflow.Sections.{preparing_of, active_of, set_stage}
use rem_tene_public.Workflow.Feedback.{
  read_runtime, in_stage, drop_deadline, hide_recording_hud, publish_recording_hud_terminal,
  raise_user_notification,
}

-- `self.sessions.apply(…)`: one section of the coordinator's mutex.
unfoldable pub apply_event : ℕ → SessionEvent → M (Result CoordinatorError SessionMutation)
apply_event id event = section (λ w.
    let (sessions, result) = Coordinator.apply w.sessions id event in
    (record w { sessions = sessions }, result))

unfoldable pub set_fence : (ℕ → Fence) → ℕ → Fence → ℕ → Fence
set_fence fences id fence j = if j == id then fence else fences j

unfoldable pub invalidate_fence : ℕ → World → World
unfolding set_fence
invalidate_fence id w = record w { fences = set_fence w.fences id (Fence.invalidate (w.fences id)) }

-- The section of `remove_preparing_if_current`; the second value is the deadline guard that the
-- dropped workflow held.
unfoldable pub take_preparing : ℕ → World → World × (Bool × Option ℕ)
take_preparing id w = elim (preparing_of w.runtime id) [
  | none ↦ (w, (false, none))
  | some p ↦ (
    invalidate_fence p.lifecycle (record w { runtime = record (w.runtime) { preparing = none } }),
    (true, p.recording_deadline),
  )
]

unfoldable pub remove_preparing_if_current : ℕ → M Bool
remove_preparing_if_current id = do
  (removed, deadline) ← section (take_preparing id)
  drop_deadline deadline
  pure removed

unfoldable pub take_active : ℕ → World → World × (Bool × Option ℕ)
take_active id w = elim (active_of w.runtime id) [
  | none ↦ (w, (false, none))
  | some a ↦ (
    invalidate_fence a.lifecycle (record w { runtime = record (w.runtime) { active = none } }),
    (true, a.recording_deadline),
  )
]

unfoldable pub clear_active_if_current : ℕ → M Unit
clear_active_if_current id = do
  (cleared, deadline) ← section (take_active id)
  drop_deadline deadline
  if cleared then hide_recording_hud id else pure tt

unfoldable pub set_stage_if_current : ℕ → RuntimeStage → M Bool
set_stage_if_current id stage = on_runtime (set_stage id stage)

applied_or_absent : Result CoordinatorError SessionMutation → M Bool
applied_or_absent (ok _) = pure true
applied_or_absent (err session_not_found) = pure false
applied_or_absent (err (invalid_transition e)) = throw (coordinator (invalid_transition e))

unfoldable pub apply_if_current : ℕ → SessionEvent → M Bool
unfolding applied_or_absent
apply_if_current id event = do
  current ← in_stage id (λ _. true)
  if not current then pure false else do result ← apply_event id event; applied_or_absent result

failure_outcome : Result CoordinatorError SessionMutation → M (Option TerminalOutcome)
failure_outcome (ok mutation) = pure mutation.terminal_outcome
failure_outcome (err session_not_found) = pure none
failure_outcome (err (invalid_transition e)) = throw (coordinator (invalid_transition e))

publish_outcome : ℕ → Option TerminalOutcome → M Unit
publish_outcome id none = pure tt
publish_outcome id (some outcome) = publish_recording_hud_terminal id outcome

failure_notification : ℕ → FailureCategory → M Unit
failure_notification id category = elim category [
  | FailureCategory.asr ↦ raise_user_notification id UserNotificationKind.asr
  | _ ↦ pure tt
]

unfoldable pub fail_current : ℕ → FailureCategory → M Bool
unfolding failure_outcome publish_outcome failure_notification
fail_current id category = do
  current ← read_runtime (λ r. is_some (active_of r id))
  if not current then pure false else do
    result ← apply_event id (fail category)
    outcome ← failure_outcome result
    publish_outcome id outcome
    clear_active_if_current id
    failure_notification id category
    pure true

unfoldable pub complete_no_speech_current : ℕ → M Bool
complete_no_speech_current id = do
  applied ← apply_if_current id no_speech
  if not applied
      then pure false
      else do publish_recording_hud_terminal id cancelled; clear_active_if_current id; pure true
