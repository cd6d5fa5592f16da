-- ===== src/Workflow/Delivery.antt =====
-- Delivering a text in crates/remtene-application/src/transcription_orchestrator.rs: insertion at
-- the verified target, the clipboard, the user's focus, and the temporary window, in this order of
-- preference and never a second one after a doubtful first.
pub mod Protocol
pub mod Once
use rem_tene_public.Base.{ℕ, Bool, true, false, not, Option, none, some, ok, err, if◌then◌else◌}
use rem_tene_public.Base.Text.{Text}
use rem_tene_public.Session.{FailureCategory}
use rem_tene_public.Ports.{
  Fallible, TargetSecurity, safe, TargetRevalidation, valid, invalid, InsertOutcome,
  UserDirectedPasteOutcome, TemporaryTextStatus, not_inserted, llm_fallback, UserNotificationKind,
  targets_revalidate, output_insert, clipboard_insert_and_restore,
  clipboard_insert_at_current_focus, temporary_text_show,
}
use rem_tene_public.Workflow.State.{
  ActiveContext, inserted, clipboard_bridge, temporary_text, DeliveryProgress, delivered, discarded,
}
use rem_tene_public.Workflow.Program.{M, pure, ◌>>=◌, ◌>>◌, perform}
use rem_tene_public.Workflow.Feedback.{record_port_error, context, is_expected_delivery}
use rem_tene_public.Workflow.Ending.{fail_current}

-- What has to follow a shown temporary text.
abbrev pub notification_of : TemporaryTextStatus → Option UserNotificationKind
notification_of llm_fallback = some UserNotificationKind.llm
notification_of TemporaryTextStatus.indeterminate = none
notification_of not_inserted = none

after_show : ℕ → ℕ → TemporaryTextStatus → Fallible Unit → M DeliveryProgress
after_show id delivery status (ok _) = do
  expected ← is_expected_delivery id delivery
  pure (if expected then delivered temporary_text (notification_of status) else discarded)
after_show id delivery status (err error) = do
  record_port_error (some id) "temporary_text" error
  current ← fail_current id FailureCategory.delivery
  pure (if current then DeliveryProgress.failed else discarded)

unfoldable pub show_temporary_text : ℕ → ℕ → Text → TemporaryTextStatus → M DeliveryProgress
unfolding after_show
show_temporary_text id delivery text status = context id >>= elim [
  | none ↦ pure discarded
  | some c ↦ do
    reply ← perform (temporary_text_show id delivery text status c.lifecycle)
    after_show id delivery status reply
]

-- `if !self.is_expected_delivery(…)? { return Ok(DeliveryProgress::Discarded) }`
unfoldable pub if_expected : ℕ → ℕ → M DeliveryProgress → M DeliveryProgress
if_expected id delivery go = do
  expected ← is_expected_delivery id delivery
  if expected then go else pure discarded

after_focus_paste :
    ℕ → ℕ → Text → TemporaryTextStatus → Fallible UserDirectedPasteOutcome → M DeliveryProgress
after_focus_paste id delivery text fallback (ok UserDirectedPasteOutcome.dispatched) =
    pure (delivered clipboard_bridge none)
after_focus_paste id delivery text fallback (ok UserDirectedPasteOutcome.not_dispatched) =
    if_expected id delivery (show_temporary_text id delivery text fallback)
after_focus_paste id delivery text fallback (ok UserDirectedPasteOutcome.indeterminate) =
    if_expected id delivery (show_temporary_text id delivery text TemporaryTextStatus.indeterminate)
after_focus_paste id delivery text fallback (err error) = do
  record_port_error (some id) "user_directed_paste" error
  if_expected id delivery (show_temporary_text id delivery text fallback)

unfoldable pub try_user_directed_or_temporary :
    ℕ → ℕ → Text → TemporaryTextStatus → ActiveContext → M DeliveryProgress
unfolding after_focus_paste
try_user_directed_or_temporary id delivery text fallback c =
    if not c.settings.clipboard_bridge_allowed
    then show_temporary_text id delivery text fallback
    else if_expected id delivery (do
      reply ← perform (clipboard_insert_at_current_focus text delivery c.lifecycle)
      after_focus_paste id delivery text fallback reply)

after_clipboard : ℕ → ℕ → Text → TemporaryTextStatus → Fallible InsertOutcome → M DeliveryProgress
after_clipboard id delivery text fallback (ok InsertOutcome.inserted) =
    pure (delivered clipboard_bridge none)
after_clipboard id delivery text fallback (ok InsertOutcome.not_inserted) =
    if_expected id delivery (show_temporary_text id delivery text fallback)
after_clipboard id delivery text fallback (ok InsertOutcome.indeterminate) =
    if_expected id delivery (show_temporary_text id delivery text TemporaryTextStatus.indeterminate)
after_clipboard id delivery text fallback (err error) = do
  record_port_error (some id) "clipboard_insert" error
  if_expected id delivery (show_temporary_text id delivery text fallback)

clipboard_target :
    ℕ
    → ℕ
    → Text
    → TemporaryTextStatus
    → ActiveContext
    → Fallible TargetRevalidation
    → M DeliveryProgress
unfolding after_clipboard
clipboard_target id delivery text fallback c (ok (valid target)) = if_expected id delivery (do
  reply ← perform (clipboard_insert_and_restore target text delivery c.lifecycle)
  after_clipboard id delivery text fallback reply)
clipboard_target id delivery text fallback c (ok invalid) =
    try_user_directed_or_temporary id delivery text fallback c
clipboard_target id delivery text fallback c (ok TargetRevalidation.indeterminate) =
    try_user_directed_or_temporary id delivery text fallback c
clipboard_target id delivery text fallback c (err error) = do
  record_port_error (some id) "clipboard_target_revalidate" error
  try_user_directed_or_temporary id delivery text fallback c

unfoldable pub try_clipboard_or_temporary :
    ℕ → ℕ → Text → TemporaryTextStatus → ActiveContext → M DeliveryProgress
unfolding clipboard_target
try_clipboard_or_temporary id delivery text fallback c =
    if not c.settings.clipboard_bridge_allowed
    then show_temporary_text id delivery text fallback
    else do
      reply ← perform (targets_revalidate c.target_ref)
      clipboard_target id delivery text fallback c reply

after_insert : ℕ → ℕ → Text → ActiveContext → Fallible InsertOutcome → M DeliveryProgress
after_insert id delivery text c (ok InsertOutcome.inserted) = pure (delivered inserted none)
after_insert id delivery text c (ok InsertOutcome.not_inserted) =
    if_expected id delivery (try_clipboard_or_temporary id delivery text not_inserted c)
after_insert id delivery text c (ok InsertOutcome.indeterminate) =
    if_expected id delivery (show_temporary_text id delivery text TemporaryTextStatus.indeterminate)
after_insert id delivery text c (err error) = do
  record_port_error (some id) "output_insert" error
  if_expected id delivery (try_clipboard_or_temporary id delivery text not_inserted c)

insert_target : ℕ → ℕ → Text → ActiveContext → Fallible TargetRevalidation → M DeliveryProgress
unfolding after_insert
insert_target id delivery text c (ok (valid target)) = if_expected id delivery (do
  reply ← perform (output_insert target text delivery c.lifecycle)
  after_insert id delivery text c reply)
insert_target id delivery text c (ok invalid) =
    if_expected id delivery (try_user_directed_or_temporary id delivery text not_inserted c)
insert_target id delivery text c (ok TargetRevalidation.indeterminate) =
    if_expected id delivery (try_user_directed_or_temporary id delivery text not_inserted c)
insert_target id delivery text c (err error) = do
  record_port_error (some id) "target_revalidate" error
  if_expected id delivery (try_user_directed_or_temporary id delivery text not_inserted c)

abbrev pub is_safe : TargetSecurity → Bool
is_safe security = elim security [ safe ↦ true | _ ↦ false ]

-- The `delivery_progress` of `deliver`: every way to hand the text over.
unfoldable pub hand_over :
    ℕ → ℕ → Text → Option TemporaryTextStatus → ActiveContext → M DeliveryProgress
unfolding insert_target
hand_over id delivery text (some status) c = show_temporary_text id delivery text status
hand_over id delivery text none c =
    if not (is_safe c.target_security)
    then try_user_directed_or_temporary id delivery text not_inserted c
    else do
      reply ← perform (targets_revalidate c.target_ref)
      insert_target id delivery text c reply
