-- ===== src/Workflow/Delivery/Protocol.antt =====
-- What `deliver` of crates/remtene-application/src/transcription_orchestrator.rs may do with a text:
-- hand out this text and no other, and write it into another application at most once.
use rem_tene_public.Base.{ℕ, suc, Bool, true, false, ◌||◌, List, [], ◌∷◌, ◌≡◌, refl, ok, err, arith}
use rem_tene_public.Base.Text.{Text}
use rem_tene_public.Ports.{
  Call, Reply, targets_read_selected_text, llm_resolve_route, llm_process, output_insert,
  clipboard_read_selected_text, clipboard_insert_and_restore, clipboard_insert_at_current_focus,
  clipboard_write_text, temporary_text_show, history_save, InsertOutcome, UserDirectedPasteOutcome,
}
use rem_tene_public.Workflow.Program.Execution.{Event}
use rem_tene_public.Workflow.Program.Ensures.{Protocol}
use rem_tene_public.Workflow.Program.Quiet.{is_quiet, IsCalm}

-- The replies after which the text may stand in the other application. An error of `insert` means by
-- its contract that nothing was written; the contract of the clipboard bridge does not say so, and its
-- errors count as possible writes.
abbrev pub may_have_written : (c : Call) → Reply c → Bool
may_have_written (output_insert _ _ _ _) (ok InsertOutcome.inserted) = true
may_have_written (output_insert _ _ _ _) (ok InsertOutcome.indeterminate) = true
may_have_written (clipboard_insert_and_restore _ _ _ _) (ok InsertOutcome.inserted) = true
may_have_written (clipboard_insert_and_restore _ _ _ _) (ok InsertOutcome.indeterminate) = true
may_have_written (clipboard_insert_at_current_focus _ _ _)
      (ok UserDirectedPasteOutcome.dispatched) =
    true
may_have_written (clipboard_insert_at_current_focus _ _ _)
      (ok UserDirectedPasteOutcome.indeterminate) =
    true
may_have_written (clipboard_insert_and_restore _ _ _ _) (err _) = true
may_have_written (clipboard_insert_at_current_focus _ _ _) (err _) = true
may_have_written _ _ = false

-- The temporary window opened with the text.
abbrev pub has_shown : (c : Call) → Reply c → Bool
has_shown (temporary_text_show _ _ _ _ _) (ok _) = true
has_shown _ _ = false

-- Whether a call may have written the text, and whether the window was shown.
abbrev pub Seen : Type 0
Seen = Bool × Bool

-- The calls that a delivery of this text may make, after it may (`true`) or cannot have written.
abbrev pub MayCall : Text → Bool → Call → Type 0
MayCall text written (output_insert _ t _ _) = (written ≡ false) × (t ≡ text)
MayCall text written (clipboard_insert_and_restore _ t _ _) = (written ≡ false) × (t ≡ text)
MayCall text written (clipboard_insert_at_current_focus t _ _) = (written ≡ false) × (t ≡ text)
MayCall text written (temporary_text_show _ _ t _ _) = t ≡ text
MayCall text written (clipboard_write_text t) = t ≡ text
MayCall text written (history_save saved settings _) =
    (saved.final_text ≡ text) × (settings.history_policy.enabled ≡ true)
MayCall text written (targets_read_selected_text _) = ⊥
MayCall text written (clipboard_read_selected_text _) = ⊥
MayCall text written (llm_resolve_route _) = ⊥
MayCall text written (llm_process _ _) = ⊥
MayCall text written _ = Unit

-- The other operations may do anything to the shared state.
abbrev pub delivering : Text → Protocol
delivering text = record {
  Ghost = Seen;
  allows = λ seen. MayCall text seen.0;
  after = λ seen c r. (seen.0 || may_have_written c r, seen.1 || has_shown c r);
  keeps = λ w. Unit;
}

quiet_call-MayCall :
    (text : Text) (written : Bool) (c : Call) → is_quiet c ≡ true → MayCall text written c
quiet_call-MayCall text written (output_insert _ _ _ _) q = cc
quiet_call-MayCall text written (clipboard_insert_and_restore _ _ _ _) q = cc
quiet_call-MayCall text written (clipboard_insert_at_current_focus _ _ _) q = cc
quiet_call-MayCall text written (temporary_text_show _ _ _ _ _) q = cc
quiet_call-MayCall text written (clipboard_write_text _) q = cc
quiet_call-MayCall text written (history_save _ _ _) q = cc
quiet_call-MayCall text written (targets_read_selected_text _) q = cc
quiet_call-MayCall text written (clipboard_read_selected_text _) q = cc
quiet_call-MayCall text written (llm_resolve_route _) q = cc
quiet_call-MayCall text written (llm_process _ _) q = cc
quiet_call-MayCall text written _ q = tt

pub or_false : (b : Bool) → (b || false) ≡ b
or_false b = ground arith

quiet_call_writes_nothing :
    (written : Bool) (c : Call) (r : Reply c)
    → is_quiet c ≡ true
    → (written || may_have_written c r) ≡ written
quiet_call_writes_nothing written (output_insert _ _ _ _) r q = cc
quiet_call_writes_nothing written (clipboard_insert_and_restore _ _ _ _) r q = cc
quiet_call_writes_nothing written (clipboard_insert_at_current_focus _ _ _) r q = cc
quiet_call_writes_nothing written _ r q = or_false written

quiet_call_shows_nothing :
    (shown : Bool) (c : Call) (r : Reply c) → is_quiet c ≡ true → (shown || has_shown c r) ≡ shown
quiet_call_shows_nothing shown (temporary_text_show _ _ _ _ _) r q = cc
quiet_call_shows_nothing shown _ r q = or_false shown

pub same_seen : {a b c d : Bool} → a ≡ b → c ≡ d → ◌≡◌ {A = Seen} (a, c) (b, d)
same_seen h k = cc

pub delivering-IsCalm : (text : Text) → IsCalm (delivering text)
delivering-IsCalm text = record {
  allowed = λ seen. quiet_call-MayCall text seen.0;
  unchanged = λ seen c r q.
      same_seen (quiet_call_writes_nothing seen.0 c r q) (quiet_call_shows_nothing seen.1 c r q);
  kept = λ w v f k. tt;
}

-- How many of the calls may have written the text.
abbrev pub writes : List Event → ℕ
writes [] = 0
writes ((c, r) ∷ es) = elim (may_have_written c r) [ true ↦ suc (writes es) | false ↦ writes es ]

-- The window was shown.
abbrev pub was_shown : List Event → Bool
was_shown [] = false
was_shown ((c, r) ∷ es) = has_shown c r || was_shown es

-- The text was handed out only by calls that carry this text, each history entry obeys its policy,
-- no selection was read and no provider was asked.
abbrev pub HandsOutOnly : Text → List Event → Type 0
HandsOutOnly text [] = Unit {0}
HandsOutOnly text ((c, r) ∷ es) = MayCall text false c × HandsOutOnly text es

-- What may be called after a write may be called before it.
pub MayCall-before :
    (text : Text) (written : Bool) (c : Call) → MayCall text written c → MayCall text false c
MayCall-before text written (output_insert _ _ _ _) (w, t) = (refl, t)
MayCall-before text written (clipboard_insert_and_restore _ _ _ _) (w, t) = (refl, t)
MayCall-before text written (clipboard_insert_at_current_focus _ _ _) (w, t) = (refl, t)
MayCall-before text written (temporary_text_show _ _ _ _ _) m = m
MayCall-before text written (clipboard_write_text _) m = m
MayCall-before text written (history_save _ _ _) m = m
MayCall-before text written (targets_read_selected_text _) m = m
MayCall-before text written (clipboard_read_selected_text _) m = m
MayCall-before text written (llm_resolve_route _) m = m
MayCall-before text written (llm_process _ _) m = m
MayCall-before text written _ m = tt

-- After a write no call may write.
pub MayCall-writes_nothing :
    (text : Text) (c : Call) (r : Reply c) → MayCall text true c → may_have_written c r ≡ false
MayCall-writes_nothing text (output_insert _ _ _ _) r (w, t) = cc
MayCall-writes_nothing text (clipboard_insert_and_restore _ _ _ _) r (w, t) = cc
MayCall-writes_nothing text (clipboard_insert_at_current_focus _ _ _) r (w, t) = cc
MayCall-writes_nothing text _ r m = refl
