-- ===== src/Workflow/Delivery/Once.antt =====
-- The ways to hand a text over, of crates/remtene-application/src/transcription_orchestrator.rs,
-- obey the rules of a delivery.
use rem_tene_public.Base.{
  ℕ, String, Bool, true, false, not, Option, none, some, ◌≡◌, refl, Result, ok, err, arith, ◌||◌,
  if◌then◌else◌,
}
use rem_tene_public.Base.Text.{Text}
use rem_tene_public.Ports.{
  Fallible, TargetRevalidation, valid, invalid, InsertOutcome, UserDirectedPasteOutcome,
  TemporaryTextStatus, temporary_text_show, UserNotificationKind, targets_revalidate, output_insert,
  clipboard_insert_and_restore, clipboard_insert_at_current_focus,
}
use rem_tene_public.Workflow.State.{
  ActiveContext, inserted, clipboard_bridge, temporary_text, DeliveryProgress, delivered, discarded,
  OrchestratorError,
}
use rem_tene_public.Workflow.Program.{M, ◌>>=◌}
use rem_tene_public.Workflow.Program.Ensures.{Ensures}
use rem_tene_public.Workflow.Program.Quiet.{Quiet}
use rem_tene_public.Workflow.Program.Rules.{
  Ensures-pure, Ensures-if, Ensures-option, Ensures-perform, Ensures-silently,
}
use rem_tene_public.Workflow.Feedback.Calm.{Quiet-context, Quiet-in_stage, Quiet-record_port_error}
use rem_tene_public.Workflow.Ending.Calm.{Quiet-fail_current}
use rem_tene_public.Workflow.Delivery.{
  after_show, show_temporary_text, if_expected, after_focus_paste, try_user_directed_or_temporary,
  after_clipboard, clipboard_target, try_clipboard_or_temporary, after_insert, insert_target,
  is_safe, hand_over,
}
use rem_tene_public.Workflow.Delivery.Protocol.{
  delivering, delivering-IsCalm, may_have_written, has_shown, Seen,
}

-- A delivery that claims to have written the text may have written it, and one that claims to have
-- left it in the temporary window has shown the window.
abbrev pub IsTrueClaim : Seen → Result OrchestratorError DeliveryProgress → Type 0
IsTrueClaim seen (ok (delivered inserted _)) = seen.0 ≡ true
IsTrueClaim seen (ok (delivered clipboard_bridge _)) = seen.0 ≡ true
IsTrueClaim seen (ok (delivered temporary_text _)) = seen.1 ≡ true
IsTrueClaim seen _ = Unit {0}

shown_or_discarded :
    (seen : Seen) (b : Bool) (n : Option UserNotificationKind)
    → seen.1 ≡ true
    → IsTrueClaim seen (ok (if b then delivered temporary_text n else discarded))
shown_or_discarded seen true n h = h
shown_or_discarded seen false n h = tt

failed_or_discarded :
    (seen : Seen) (b : Bool)
    → IsTrueClaim seen (ok (if b then DeliveryProgress.failed else discarded))
failed_or_discarded seen true = tt
failed_or_discarded seen false = tt

or_true : (b : Bool) → (b || true) ≡ true
or_true b = ground arith

module _ (text : Text) where
  abbrev pub Delivers : Seen → M DeliveryProgress → Type 0
  Delivers seen p = Ensures (delivering text) IsTrueClaim seen p

  module _ {seen : Seen} where
    -- A quiet step before the rest.
    after_step :
        {B : Type 0} {m : M B} {f : B → M DeliveryProgress}
        → Quiet m
        → ((b : B) → Delivers seen (f b))
        → Delivers seen (m >>= f)
    after_step q rest = Ensures-silently (delivering-IsCalm text) q rest (λ e. tt)

  Ensures-after_show :
      (written shown : Bool) (id delivery : ℕ) (status : TemporaryTextStatus) (l : ℕ)
      (r : Fallible Unit)
      → Delivers
          (written, shown || has_shown (temporary_text_show id delivery text status l) r)
          (after_show id delivery status r)
  unfolding after_show
  Ensures-after_show written shown id delivery status l (ok _) =
      after_step (Quiet-in_stage id _)
        λ expected. Ensures-pure _ (shown_or_discarded _ expected _ (or_true shown))
  Ensures-after_show written shown id delivery status l (err e) =
      after_step (Quiet-record_port_error (some id) "temporary_text" e) λ _.
        after_step (Quiet-fail_current id _)
          λ current. Ensures-pure _ (failed_or_discarded _ current)

  module _ {seen : Seen} where
    pub Ensures-show_temporary_text :
        (id delivery : ℕ) (status : TemporaryTextStatus)
        → Delivers seen (show_temporary_text id delivery text status)
    unfolding show_temporary_text
    Ensures-show_temporary_text id delivery status = after_step (Quiet-context id) λ found.
        Ensures-option found (Ensures-pure discarded tt) (λ c.
          Ensures-perform (temporary_text_show id delivery text status c.lifecycle) refl
            λ r. Ensures-after_show (seen.0 || false) seen.1 id delivery status c.lifecycle r)

    Ensures-if_expected :
        (id delivery : ℕ) {go : M DeliveryProgress}
        → Delivers seen go
        → Delivers seen (if_expected id delivery go)
    unfolding if_expected
    Ensures-if_expected id delivery go =
        after_step (Quiet-in_stage id _)
          λ expected. Ensures-if expected (λ _. go) (λ _. Ensures-pure discarded tt)

  module _ (id delivery : ℕ) where
    Ensures-after_focus_paste :
        (fallback : TemporaryTextStatus) (l : ℕ) (r : Fallible UserDirectedPasteOutcome)
        → Delivers
            (may_have_written (clipboard_insert_at_current_focus text delivery l) r, false)
            (after_focus_paste id delivery text fallback r)
    unfolding after_focus_paste
    Ensures-after_focus_paste fallback l (ok UserDirectedPasteOutcome.dispatched) =
        Ensures-pure _ refl
    Ensures-after_focus_paste fallback l (ok UserDirectedPasteOutcome.not_dispatched) =
        Ensures-if_expected id delivery (Ensures-show_temporary_text id delivery _)
    Ensures-after_focus_paste fallback l (ok UserDirectedPasteOutcome.indeterminate) =
        Ensures-if_expected id delivery (Ensures-show_temporary_text id delivery _)
    Ensures-after_focus_paste fallback l (err e) =
        after_step (Quiet-record_port_error (some id) "user_directed_paste" e)
          λ _. Ensures-if_expected id delivery (Ensures-show_temporary_text id delivery _)

    Ensures-try_user_directed :
        (fallback : TemporaryTextStatus) (c : ActiveContext)
        → Delivers (false, false) (try_user_directed_or_temporary id delivery text fallback c)
    unfolding try_user_directed_or_temporary
    Ensures-try_user_directed fallback c =
        Ensures-if (not c.settings.clipboard_bridge_allowed)
          (λ _. Ensures-show_temporary_text id delivery fallback)
          (λ _. Ensures-if_expected id delivery (
            Ensures-perform (clipboard_insert_at_current_focus text delivery c.lifecycle)
              (refl, refl) (Ensures-after_focus_paste fallback c.lifecycle)))

    Ensures-after_clipboard :
        (target : String) (l : ℕ) (fallback : TemporaryTextStatus) (r : Fallible InsertOutcome)
        → Delivers
            (may_have_written (clipboard_insert_and_restore target text delivery l) r, false)
            (after_clipboard id delivery text fallback r)
    unfolding after_clipboard
    Ensures-after_clipboard target l fallback (ok InsertOutcome.inserted) = Ensures-pure _ refl
    Ensures-after_clipboard target l fallback (ok InsertOutcome.not_inserted) =
        Ensures-if_expected id delivery (Ensures-show_temporary_text id delivery _)
    Ensures-after_clipboard target l fallback (ok InsertOutcome.indeterminate) =
        Ensures-if_expected id delivery (Ensures-show_temporary_text id delivery _)
    Ensures-after_clipboard target l fallback (err e) =
        after_step (Quiet-record_port_error (some id) "clipboard_insert" e)
          λ _. Ensures-if_expected id delivery (Ensures-show_temporary_text id delivery _)

    Ensures-clipboard_target :
        (fallback : TemporaryTextStatus) (c : ActiveContext) (r : Fallible TargetRevalidation)
        → Delivers (false, false) (clipboard_target id delivery text fallback c r)
    unfolding clipboard_target
    Ensures-clipboard_target fallback c (ok (valid target)) = Ensures-if_expected id delivery (
        Ensures-perform (clipboard_insert_and_restore target text delivery c.lifecycle) (refl, refl)
          (Ensures-after_clipboard target c.lifecycle fallback))
    Ensures-clipboard_target fallback c (ok invalid) = Ensures-try_user_directed fallback c
    Ensures-clipboard_target fallback c (ok TargetRevalidation.indeterminate) =
        Ensures-try_user_directed fallback c
    Ensures-clipboard_target fallback c (err e) =
        after_step (Quiet-record_port_error (some id) "clipboard_target_revalidate" e)
          λ _. Ensures-try_user_directed fallback c

    Ensures-try_clipboard :
        (fallback : TemporaryTextStatus) (c : ActiveContext)
        → Delivers (false, false) (try_clipboard_or_temporary id delivery text fallback c)
    unfolding try_clipboard_or_temporary
    Ensures-try_clipboard fallback c =
        Ensures-if (not c.settings.clipboard_bridge_allowed)
          (λ _. Ensures-show_temporary_text id delivery fallback)
          (λ _.
            Ensures-perform (targets_revalidate c.target_ref) tt
              (Ensures-clipboard_target fallback c))

    Ensures-after_insert :
        (target : String) (l : ℕ) (c : ActiveContext) (r : Fallible InsertOutcome)
        → Delivers
            (may_have_written (output_insert target text delivery l) r, false)
            (after_insert id delivery text c r)
    unfolding after_insert
    Ensures-after_insert target l c (ok InsertOutcome.inserted) = Ensures-pure _ refl
    Ensures-after_insert target l c (ok InsertOutcome.not_inserted) =
        Ensures-if_expected id delivery (Ensures-try_clipboard _ c)
    Ensures-after_insert target l c (ok InsertOutcome.indeterminate) =
        Ensures-if_expected id delivery (Ensures-show_temporary_text id delivery _)
    Ensures-after_insert target l c (err e) =
        after_step (Quiet-record_port_error (some id) "output_insert" e)
          λ _. Ensures-if_expected id delivery (Ensures-try_clipboard _ c)

    Ensures-insert_target :
        (c : ActiveContext) (r : Fallible TargetRevalidation)
        → Delivers (false, false) (insert_target id delivery text c r)
    unfolding insert_target
    Ensures-insert_target c (ok (valid target)) = Ensures-if_expected id delivery (
        Ensures-perform (output_insert target text delivery c.lifecycle) (refl, refl)
          (Ensures-after_insert target c.lifecycle c))
    Ensures-insert_target c (ok invalid) =
        Ensures-if_expected id delivery (Ensures-try_user_directed _ c)
    Ensures-insert_target c (ok TargetRevalidation.indeterminate) =
        Ensures-if_expected id delivery (Ensures-try_user_directed _ c)
    Ensures-insert_target c (err e) =
        after_step (Quiet-record_port_error (some id) "target_revalidate" e)
          λ _. Ensures-if_expected id delivery (Ensures-try_user_directed _ c)

    pub Ensures-hand_over :
        (forced : Option TemporaryTextStatus) (c : ActiveContext)
        → Delivers (false, false) (hand_over id delivery text forced c)
    unfolding hand_over
    Ensures-hand_over (some status) c = Ensures-show_temporary_text id delivery status
    Ensures-hand_over none c =
        Ensures-if (not (is_safe c.target_security)) (λ _. Ensures-try_user_directed _ c)
          (λ _. Ensures-perform (targets_revalidate c.target_ref) tt (Ensures-insert_target c))
