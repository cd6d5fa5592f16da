-- ===== src/Workflow/Ending/Calm.antt =====
-- The endings of crates/remtene-application/src/transcription_orchestrator.rs are quiet.
use rem_tene_public.Base.{
  ℕ, Bool, true, false, Option, none, some, Result, ok, err, arith, inl, inr, Option-cases, not,
  if◌then◌else◌,
}
use rem_tene_public.Session.{SessionEvent, TerminalOutcome, FailureCategory}
use rem_tene_public.Coordinator.{
  CoordinatorError, session_not_found, invalid_transition, SessionMutation,
}
use rem_tene_public.Ports.{UserNotificationKind}
use rem_tene_public.Workflow.State.{World, RuntimeState, RuntimeStage, context_of}
use rem_tene_public.Workflow.Program.{pure}
use rem_tene_public.Workflow.Program.Quiet.{
  Quiet, IsFrozen, Quiet-section, Quiet-on_runtime, Quiet-pure, Quiet-bind, Quiet-if, Quiet-throw,
}
use rem_tene_public.Workflow.Feedback.{hide_recording_hud}
use rem_tene_public.Workflow.Ending.{
  apply_event, invalidate_fence, take_preparing, remove_preparing_if_current, applied_or_absent,
  failure_outcome, publish_outcome, failure_notification, set_stage_if_current, take_active,
  clear_active_if_current, apply_if_current, fail_current, complete_no_speech_current,
}
use rem_tene_public.Workflow.Sections.{set_stage, active_of, preparing_of}
use rem_tene_public.Workflow.Feedback.Calm.{
  IsFrozen-refl, Quiet-raise_user_notification, Quiet-publish_recording_hud_terminal,
  Quiet-hide_recording_hud, Quiet-drop_deadline, Quiet-read_runtime, Quiet-in_stage,
}

pub Quiet-apply_event : (id : ℕ) (e : SessionEvent) → Quiet (apply_event id e)
unfolding apply_event
Quiet-apply_event id e = Quiet-section _ (λ w. IsFrozen-refl w.runtime)

set_stage-IsFrozen :
    (id : ℕ) (stage : RuntimeStage) (r : RuntimeState) → IsFrozen r (set_stage id stage r).0
unfolding set_stage context_of
set_stage-IsFrozen id stage r = ground arith

take_active-IsFrozen : (id : ℕ) (w : World) → IsFrozen w.runtime (take_active id w).0.runtime
unfolding take_active invalidate_fence
take_active-IsFrozen id w = elim (Option-cases (active_of w.runtime id)) [
  | inl e ↦ rw (e, take_active) (IsFrozen-refl w.runtime)
  | inr (a, e) ↦ rw (e, take_active) tt
]

take_preparing-IsFrozen : (id : ℕ) (w : World) → IsFrozen w.runtime (take_preparing id w).0.runtime
unfolding take_preparing invalidate_fence
take_preparing-IsFrozen id w = elim (Option-cases (preparing_of w.runtime id)) [
  | inl e ↦ rw (e, take_preparing) (IsFrozen-refl w.runtime)
  | inr (p, e) ↦ rw (e, take_preparing) (IsFrozen-refl w.runtime)
]

pub Quiet-set_stage_if_current :
    (id : ℕ) (stage : RuntimeStage) → Quiet (set_stage_if_current id stage)
unfolding set_stage_if_current
Quiet-set_stage_if_current id stage = Quiet-on_runtime _ (set_stage-IsFrozen id stage)

Quiet-if_cleared : (id : ℕ) (b : Bool) → Quiet (if b then hide_recording_hud id else pure tt)
Quiet-if_cleared id b = Quiet-if b (Quiet-hide_recording_hud id) (Quiet-pure tt)

pub Quiet-clear_active_if_current : (id : ℕ) → Quiet (clear_active_if_current id)
unfolding clear_active_if_current
Quiet-clear_active_if_current id =
    Quiet-bind (Quiet-section (take_active id) (take_active-IsFrozen id)) λ (cleared, deadline).
      Quiet-bind (Quiet-drop_deadline deadline) λ _. Quiet-if_cleared id cleared

pub Quiet-remove_preparing_if_current : (id : ℕ) → Quiet (remove_preparing_if_current id)
unfolding remove_preparing_if_current
Quiet-remove_preparing_if_current id =
    Quiet-bind (Quiet-section (take_preparing id) (take_preparing-IsFrozen id))
      λ (removed, deadline). Quiet-bind (Quiet-drop_deadline deadline) λ _. Quiet-pure removed

Quiet-applied_or_absent :
    (r : Result CoordinatorError SessionMutation) → Quiet (applied_or_absent r)
unfolding applied_or_absent
Quiet-applied_or_absent (ok m) = Quiet-pure true
Quiet-applied_or_absent (err session_not_found) = Quiet-pure false
Quiet-applied_or_absent (err (invalid_transition e)) = Quiet-throw _

pub Quiet-apply_if_current : (id : ℕ) (e : SessionEvent) → Quiet (apply_if_current id e)
unfolding apply_if_current
Quiet-apply_if_current id e = Quiet-bind (Quiet-in_stage id _) λ current.
    Quiet-if (not current) (Quiet-pure false)
      (Quiet-bind (Quiet-apply_event id e) Quiet-applied_or_absent)

Quiet-failure_outcome : (r : Result CoordinatorError SessionMutation) → Quiet (failure_outcome r)
unfolding failure_outcome
Quiet-failure_outcome (ok m) = Quiet-pure m.terminal_outcome
Quiet-failure_outcome (err session_not_found) = Quiet-pure none
Quiet-failure_outcome (err (invalid_transition e)) = Quiet-throw _

Quiet-publish_outcome : (id : ℕ) (o : Option TerminalOutcome) → Quiet (publish_outcome id o)
unfolding publish_outcome
Quiet-publish_outcome id none = Quiet-pure tt
Quiet-publish_outcome id (some o) = Quiet-publish_recording_hud_terminal id o

Quiet-failure_notification : (id : ℕ) (c : FailureCategory) → Quiet (failure_notification id c)
unfolding failure_notification
Quiet-failure_notification id FailureCategory.asr =
    Quiet-raise_user_notification id UserNotificationKind.asr
Quiet-failure_notification id _ = Quiet-pure tt

pub Quiet-fail_current : (id : ℕ) (c : FailureCategory) → Quiet (fail_current id c)
unfolding fail_current
Quiet-fail_current id c = Quiet-bind (Quiet-read_runtime _) λ current.
    Quiet-if (not current) (Quiet-pure false) (
      Quiet-bind (Quiet-apply_event id _) λ r. Quiet-bind (Quiet-failure_outcome r) λ o.
        Quiet-bind (Quiet-publish_outcome id o) λ _.
          Quiet-bind (Quiet-clear_active_if_current id)
            λ _. Quiet-bind (Quiet-failure_notification id c) λ _. Quiet-pure true)

pub Quiet-complete_no_speech_current : (id : ℕ) → Quiet (complete_no_speech_current id)
unfolding complete_no_speech_current
Quiet-complete_no_speech_current id = Quiet-bind (Quiet-apply_if_current id _) λ applied.
    Quiet-if (not applied) (Quiet-pure false) (
      Quiet-bind (Quiet-publish_recording_hud_terminal id _)
        λ _. Quiet-bind (Quiet-clear_active_if_current id) λ _. Quiet-pure true)
