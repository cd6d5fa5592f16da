-- ===== src/Workflow/Finalization/Once.antt =====
-- `deliver` of crates/remtene-application/src/transcription_orchestrator.rs hands out one text and
-- writes it at most once.
use rem_tene_public.Base.{
  ℕ, Bool, true, false, not, Option, none, some, List, [], sym, ◌∙◌, String, ◌≡◌, refl, Result, ok,
  err, ◌||◌, if◌then◌else◌,
}
use rem_tene_public.Base.Text.{Text}
use mathlib.Core.Path.{subst}
use rem_tene_public.Routes.{DirectDeliveryReason}
use rem_tene_public.Ports.{
  Fallible, TemporaryTextStatus, UserNotificationKind, clipboard_write_text, history_save,
  clock_now, new_delivery_id,
}
use rem_tene_public.Workflow.State.{
  ActiveContext, DeliveryKind, inserted, clipboard_bridge, temporary_text, DeliveryProgress,
  delivered, discarded, FinalizationWarning, auto_copy_failed, history_save_failed, FinishOutcome,
  OrchestratorError,
}
use rem_tene_public.Workflow.Program.{M, pure, ◌>>=◌}
use rem_tene_public.Workflow.Program.Ensures.{Ensures}
use rem_tene_public.Workflow.Program.Quiet.{Quiet, Quiet-pure, Quiet-bind}
use rem_tene_public.Workflow.Program.Rules.{
  Ensures-pure, Ensures-if, Ensures-option, Ensures-perform, Ensures-silently, Ensures-bind,
}
use rem_tene_public.Workflow.Feedback.{is_expected_finalization}
use rem_tene_public.Workflow.Feedback.Calm.{
  Quiet-context, Quiet-in_stage, Quiet-record_port_error, Quiet-update_recording_hud,
  Quiet-publish_recording_hud_terminal, Quiet-raise_user_notification,
}
use rem_tene_public.Workflow.Ending.Calm.{
  Quiet-apply_if_current, Quiet-set_stage_if_current, Quiet-clear_active_if_current,
}
use rem_tene_public.Workflow.Delivery.Protocol.{
  delivering, delivering-IsCalm, or_false, same_seen, Seen,
}
use rem_tene_public.Workflow.Delivery.Once.{IsTrueClaim, Ensures-hand_over}
use rem_tene_public.Workflow.Finalization.{
  warn_on_error, auto_copy, save_history, notify_after, complete_delivery, after_copy, finalize,
  after_hand_over, deliver,
}

-- A completed delivery names the text, claims a write only if there may have been one, and the
-- temporary window only if it was shown.
abbrev pub IsTrueOutcome : Text → Seen → Result OrchestratorError FinishOutcome → Type 0
IsTrueOutcome text seen (ok (FinishOutcome.completed c)) =
    (c.final_text ≡ text) × IsTrueClaim seen (ok (delivered c.delivery none))
IsTrueOutcome text seen _ = Unit {0}

Quiet-warn_on_error :
    (id : ℕ) (phase : String) (w : FinalizationWarning) (ws : List FinalizationWarning)
    (r : Fallible Unit)
    → Quiet (warn_on_error id phase w ws r)
unfolding warn_on_error
Quiet-warn_on_error id phase w ws (ok _) = Quiet-pure ws
Quiet-warn_on_error id phase w ws (err e) =
    Quiet-bind (Quiet-record_port_error (some id) phase e) λ _. Quiet-pure _

Quiet-notify_after : (id : ℕ) (n : Option UserNotificationKind) → Quiet (notify_after id n)
unfolding notify_after
Quiet-notify_after id none = Quiet-pure tt
Quiet-notify_after id (some k) = Quiet-raise_user_notification id k

pub not-false : {b : Bool} → not b ≡ false → b ≡ true
not-false {b = true} e = refl
not-false {b = false} e = cc

once_still : (seen : Seen) → ◌≡◌ {A = Seen} (seen.0 || false, seen.1 || false) seen
once_still seen = same_seen (or_false seen.0) (or_false seen.1)

twice_still :
    (seen : Seen) → ◌≡◌ {A = Seen} ((seen.0 || false) || false, (seen.1 || false) || false) seen
twice_still seen = once_still (seen.0 || false, seen.1 || false) ∙ once_still seen

module _ (text : Text) where
  abbrev pub Completes : Seen → M FinishOutcome → Type 0
  Completes seen p = Ensures (delivering text) (IsTrueOutcome text) seen p

  -- A part of the finalization that writes nothing into another application.
  abbrev WritesNothing : {A : Type 0} → Seen → M A → Type 0
  WritesNothing seen p = Ensures (delivering text) (λ w r. w ≡ seen) seen p

  module _ {seen : Seen} where
    -- A quiet step before the rest.
    after_step :
        {B : Type 0} {m : M B} {f : B → M FinishOutcome}
        → Quiet m
        → ((b : B) → Completes seen (f b))
        → Completes seen (m >>= f)
    after_step q rest = Ensures-silently (delivering-IsCalm text) q rest (λ e. tt)

  expected_or_none :
      {A : Type 0} (seen : Seen) {w : Seen} (same : w ≡ seen) (id delivery : ℕ) (a : A)
      → Ensures
          (delivering text)
          (λ w' r. w' ≡ seen)
          w
          (is_expected_finalization id delivery >>= λ expected.
            pure (if expected then some a else none))
  expected_or_none seen same id delivery a =
      Ensures-silently (delivering-IsCalm text) (Quiet-in_stage id _)
        (λ expected. Ensures-pure _ same) (λ e. same)

  Ensures-auto_copy :
      (seen : Seen) (id delivery : ℕ) (c : ActiveContext)
      → WritesNothing seen (auto_copy id delivery text c)
  unfolding auto_copy
  Ensures-auto_copy seen id delivery c =
      Ensures-if (not c.settings.auto_copy_result) (λ _. Ensures-pure _ refl)
        λ _. Ensures-perform (clipboard_write_text text) refl λ r.
          Ensures-silently (delivering-IsCalm text)
            (Quiet-warn_on_error id "finalize_auto_copy" auto_copy_failed [] r)
            (expected_or_none seen (once_still seen) id delivery) (λ e. once_still seen)

  Ensures-save_history :
      (seen : Seen) (id delivery : ℕ) (c : ActiveContext) (ws : List FinalizationWarning)
      → WritesNothing seen (save_history id delivery text c ws)
  unfolding save_history
  Ensures-save_history seen id delivery c ws =
      Ensures-if (not c.settings.history_policy.enabled) (λ _. Ensures-pure _ refl)
        λ enabled. Ensures-perform clock_now tt λ now.
          Ensures-perform (history_save _ c.settings c.lifecycle) (refl, not-false enabled)
            λ r.
              Ensures-silently (delivering-IsCalm text)
                (Quiet-warn_on_error id "history_save" history_save_failed ws r)
                (expected_or_none seen (twice_still seen) id delivery) (λ e. twice_still seen)

  module _ {seen : Seen} (id : ℕ) (kind : DeliveryKind) (reason : Option DirectDeliveryReason)
      (claim : IsTrueClaim seen (ok (delivered kind none))) where
    Ensures-complete_delivery :
        (n : Option UserNotificationKind) (ws : List FinalizationWarning)
        → Completes seen (complete_delivery id text kind n reason ws)
    unfolding complete_delivery
    Ensures-complete_delivery n ws = after_step (Quiet-apply_if_current id _) λ applied.
        Ensures-if (not applied) (λ _. Ensures-pure FinishOutcome.discarded tt)
          λ _. after_step (Quiet-update_recording_hud id _) λ _.
            after_step (Quiet-publish_recording_hud_terminal id _) λ _.
              after_step (Quiet-clear_active_if_current id)
                λ _. after_step (Quiet-notify_after id n) λ _. Ensures-pure _ (refl, claim)

  module _ (id delivery : ℕ) (c : ActiveContext) (reason : Option DirectDeliveryReason) where
    Ensures-after_copy :
        (seen : Seen) (kind : DeliveryKind) (n : Option UserNotificationKind)
        (copied : Option (List FinalizationWarning))
        → IsTrueClaim seen (ok (delivered kind none))
        → Completes seen (after_copy id delivery text c kind n reason copied)
    unfolding after_copy
    Ensures-after_copy seen kind n none claim = Ensures-pure FinishOutcome.discarded tt
    Ensures-after_copy seen kind n (some ws) claim =
        Ensures-bind (Ensures-save_history seen id delivery c ws)
          (λ h saved same. Ensures-option saved (Ensures-pure FinishOutcome.discarded tt) λ ws'.
            Ensures-complete_delivery id kind reason
              (subst (λ w. IsTrueClaim w (ok (delivered kind none))) (sym same) claim) n ws')
          (λ h e same. tt)

    Ensures-finalize :
        (seen : Seen) (kind : DeliveryKind) (n : Option UserNotificationKind)
        → IsTrueClaim seen (ok (delivered kind none))
        → Completes seen (finalize id delivery text c kind n reason)
    unfolding finalize
    Ensures-finalize seen kind n claim = after_step (Quiet-in_stage id _) λ expected.
        Ensures-if (not expected) (λ _. Ensures-pure FinishOutcome.discarded tt)
          λ _. after_step (Quiet-apply_if_current id _) λ applied.
            Ensures-if (not applied) (λ _. Ensures-pure FinishOutcome.discarded tt)
              λ _. after_step (Quiet-set_stage_if_current id _) λ staged.
                Ensures-if (not staged) (λ _. Ensures-pure FinishOutcome.discarded tt)
                  λ _. after_step (Quiet-update_recording_hud id _) λ _.
                    Ensures-bind (Ensures-auto_copy seen id delivery c)
                      (λ h copied same.
                        Ensures-after_copy h kind n copied
                          (subst (λ w. IsTrueClaim w (ok (delivered kind none))) (sym same) claim))
                      (λ h e same. tt)

    Ensures-after_hand_over :
        (seen : Seen) (progress : DeliveryProgress)
        → IsTrueClaim seen (ok progress)
        → Completes seen (after_hand_over id delivery text c reason progress)
    unfolding after_hand_over
    Ensures-after_hand_over seen (delivered inserted n) claim =
        Ensures-finalize seen inserted n claim
    Ensures-after_hand_over seen (delivered clipboard_bridge n) claim =
        Ensures-finalize seen clipboard_bridge n claim
    Ensures-after_hand_over seen (delivered temporary_text n) claim =
        Ensures-finalize seen temporary_text n claim
    Ensures-after_hand_over seen discarded claim = Ensures-pure FinishOutcome.discarded tt
    Ensures-after_hand_over seen DeliveryProgress.failed claim = Ensures-pure _ tt

  pub Ensures-deliver :
      (id : ℕ) (reason : Option DirectDeliveryReason) (forced : Option TemporaryTextStatus)
      → Completes (false, false) (deliver id text reason forced)
  unfolding deliver
  Ensures-deliver id reason forced = after_step (Quiet-context id) λ found.
      Ensures-option found (Ensures-pure FinishOutcome.discarded tt) λ c.
        after_step (Quiet-apply_if_current id _) λ applied.
          Ensures-if (not applied) (λ _. Ensures-pure FinishOutcome.discarded tt)
            λ _. Ensures-perform new_delivery_id tt λ delivery.
              after_step (Quiet-set_stage_if_current id _) λ staged.
                Ensures-if (not staged) (λ _. Ensures-pure FinishOutcome.discarded tt)
                  λ _. after_step (Quiet-update_recording_hud id _) λ _.
                    Ensures-bind (Ensures-hand_over text id delivery forced c)
                      (λ h progress claim.
                        Ensures-after_hand_over id delivery c reason h progress claim)
                      (λ h e claim. tt)
