-- ===== src/Workflow/Finalization.antt =====
-- The end of `deliver` in crates/remtene-application/src/transcription_orchestrator.rs: the copy,
-- the history and the completion of a delivered text; and `deliver` itself.
pub mod Once
pub mod Writes
use rem_tene_public.Base.{
  ℕ, not, Option, none, some, List, [], ◌∷◌, ◌++◌, String, ok, err, if◌then◌else◌,
}
use rem_tene_public.Base.Text.{Text}
use rem_tene_public.Session.{
  FailureCategory, begin_delivery, begin_finalizing, complete, TerminalOutcome,
}
use rem_tene_public.Routes.{DirectDeliveryReason}
use rem_tene_public.Ports.{
  Fallible, TemporaryTextStatus, UserNotificationKind, RecordingHudState, clipboard_write_text,
  history_save, clock_now, new_delivery_id,
}
use rem_tene_public.Workflow.State.{
  ActiveContext, RuntimeStage, DeliveryKind, DeliveryProgress, delivered, discarded,
  FinalizationWarning, auto_copy_failed, history_save_failed, FinishOutcome,
}
use rem_tene_public.Workflow.Program.{M, pure, ◌>>=◌, ◌>>◌, perform}
use rem_tene_public.Workflow.Feedback.{
  record_port_error, raise_user_notification, update_recording_hud, publish_recording_hud_terminal,
  context, is_expected_delivery, is_expected_finalization,
}
use rem_tene_public.Workflow.Ending.{
  set_stage_if_current, apply_if_current, clear_active_if_current,
}
use rem_tene_public.Workflow.Delivery.{hand_over}

warn_on_error :
    ℕ
    → String
    → FinalizationWarning
    → List FinalizationWarning
    → Fallible Unit
    → M (List FinalizationWarning)
warn_on_error id phase warning warnings (ok _) = pure warnings
warn_on_error id phase warning warnings (err error) = do
  record_port_error (some id) phase error
  pure (warnings ++ warning ∷ [])

-- `if context.settings.auto_copy_result() { … }`; `none` is the early return of `Discarded`.
unfoldable pub auto_copy : ℕ → ℕ → Text → ActiveContext → M (Option (List FinalizationWarning))
unfolding warn_on_error
auto_copy id delivery text c = if not c.settings.auto_copy_result then pure (some []) else do
  reply ← perform (clipboard_write_text text)
  warnings ← warn_on_error id "finalize_auto_copy" auto_copy_failed [] reply
  expected ← is_expected_finalization id delivery
  pure (if expected then some warnings else none)

-- `if context.settings.history_policy().enabled { … }`
unfoldable pub save_history :
    ℕ → ℕ → Text → ActiveContext → List FinalizationWarning → M (Option (List FinalizationWarning))
unfolding warn_on_error
save_history id delivery text c warnings =
    if not c.settings.history_policy.enabled then pure (some warnings) else do
      now ← perform clock_now
      reply ← perform (
          history_save (record { delivery_id = delivery; final_text = text; created_at = now })
            c.settings c.lifecycle)
      warnings' ← warn_on_error id "history_save" history_save_failed warnings reply
      expected ← is_expected_finalization id delivery
      pure (if expected then some warnings' else none)

notify_after : ℕ → Option UserNotificationKind → M Unit
notify_after id none = pure tt
notify_after id (some kind) = raise_user_notification id kind

complete_delivery :
    ℕ
    → Text
    → DeliveryKind
    → Option UserNotificationKind
    → Option DirectDeliveryReason
    → List FinalizationWarning
    → M FinishOutcome
unfolding notify_after
complete_delivery id text kind notification reason warnings = do
  applied ← apply_if_current id complete
  if not applied then pure FinishOutcome.discarded else do
    update_recording_hud id RecordingHudState.completed
    publish_recording_hud_terminal id TerminalOutcome.completed
    clear_active_if_current id
    notify_after id notification
    pure (
        FinishOutcome.completed (record {
          final_text = text;
          delivery = kind;
          direct_delivery_reason = reason;
          warnings = warnings;
        }))

after_copy :
    ℕ
    → ℕ
    → Text
    → ActiveContext
    → DeliveryKind
    → Option UserNotificationKind
    → Option DirectDeliveryReason
    → Option (List FinalizationWarning)
    → M FinishOutcome
unfolding complete_delivery
after_copy id delivery text c kind notification reason none = pure FinishOutcome.discarded
after_copy id delivery text c kind notification reason (some warnings) =
    save_history id delivery text c warnings >>= elim [
      | none ↦ pure FinishOutcome.discarded
      | some warnings' ↦ complete_delivery id text kind notification reason warnings'
    ]

-- `deliver` from the check that follows the handing over.
unfoldable pub finalize :
    ℕ
    → ℕ
    → Text
    → ActiveContext
    → DeliveryKind
    → Option UserNotificationKind
    → Option DirectDeliveryReason
    → M FinishOutcome
unfolding after_copy
finalize id delivery text c kind notification reason = do
  expected ← is_expected_delivery id delivery
  if not expected then pure FinishOutcome.discarded else do
    applied ← apply_if_current id begin_finalizing
    if not applied then pure FinishOutcome.discarded else do
      staged ← set_stage_if_current id (RuntimeStage.finalizing delivery)
      if not staged then pure FinishOutcome.discarded else do
        update_recording_hud id RecordingHudState.finalizing
        copied ← auto_copy id delivery text c
        after_copy id delivery text c kind notification reason copied

after_hand_over :
    ℕ → ℕ → Text → ActiveContext → Option DirectDeliveryReason → DeliveryProgress → M FinishOutcome
after_hand_over id delivery text c reason (delivered kind notification) =
    finalize id delivery text c kind notification reason
after_hand_over id delivery text c reason discarded = pure FinishOutcome.discarded
after_hand_over id delivery text c reason DeliveryProgress.failed =
    pure (FinishOutcome.failed FailureCategory.delivery)

unfoldable pub deliver :
    ℕ → Text → Option DirectDeliveryReason → Option TemporaryTextStatus → M FinishOutcome
unfolding after_hand_over
deliver id text reason forced = context id >>= elim [
  | none ↦ pure FinishOutcome.discarded
  | some c ↦ do
    applied ← apply_if_current id begin_delivery
    if not applied then pure FinishOutcome.discarded else do
      delivery ← perform new_delivery_id
      staged ← set_stage_if_current id (RuntimeStage.delivering delivery)
      if not staged then pure FinishOutcome.discarded else do
        update_recording_hud id RecordingHudState.delivering
        progress ← hand_over id delivery text forced c
        after_hand_over id delivery text c reason progress
]
