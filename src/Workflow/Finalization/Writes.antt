-- ===== src/Workflow/Finalization/Writes.antt =====
-- What every run of `deliver` of crates/remtene-application/src/transcription_orchestrator.rs has
-- done with the text.
use rem_tene_public.Base.{
  ℕ, suc, ◌≤◌, ◌⊎◌, inl, inr, Bool, true, false, Option, none, List, [], ◌∷◌, ◌≡◌, ◌≢◌, sym, ◌∙◌,
  ◌||◌, refl, Result, ok, arith,
}
use rem_tene_public.Base.Text.{Text}
use rem_tene_public.Routes.{DirectDeliveryReason}
use rem_tene_public.Ports.{TemporaryTextStatus}
use rem_tene_public.Workflow.State.{
  DeliveryKind, inserted, clipboard_bridge, temporary_text, delivered, Completion, FinishOutcome,
  OrchestratorError,
}
use rem_tene_public.Workflow.Program.Execution.{Event, Runs}
use rem_tene_public.Workflow.Program.Ensures.{Ensures-Runs, AreAllowed, ghost_after}
use rem_tene_public.Workflow.Delivery.Protocol.{
  delivering, may_have_written, has_shown, was_shown, Seen, or_false, HandsOutOnly, writes,
  MayCall-before, MayCall-writes_nothing,
}
use rem_tene_public.Workflow.Delivery.Once.{IsTrueClaim}
use rem_tene_public.Workflow.Finalization.{deliver}
use rem_tene_public.Workflow.Finalization.Once.{Ensures-deliver}

-- A run of allowed calls hands out the one text, and writes it at most once.
AreAllowed-HandsOutOnly :
    (text : Text) (seen : Seen) (es : List Event)
    → AreAllowed (delivering text) seen es
    → HandsOutOnly text es
AreAllowed-HandsOutOnly text seen [] allowed = tt
AreAllowed-HandsOutOnly text seen ((c, r) ∷ es) (now, later) =
    (MayCall-before text seen.0 c now, AreAllowed-HandsOutOnly text _ es later)

AreAllowed-writes :
    (text : Text) (shown : Bool) (es : List Event)
    → (AreAllowed (delivering text) (true, shown) es → writes es ≡ 0)
      × (AreAllowed (delivering text) (false, shown) es
          → (writes es ≤ 1)
            × ((ghost_after (delivering text) (false, shown) es).0 ≡ true → writes es ≡ 1))
AreAllowed-writes text shown [] = (λ _. refl, λ _. (omega arith, λ e. cc))
AreAllowed-writes text shown ((c, r) ∷ es) =
    let rest = AreAllowed-writes text (shown || has_shown c r) es in
    (
      λ (now, later). rw (MayCall-writes_nothing text c r now, writes) (rest.0 later),
      λ (now, later).
          elim (may_have_written c r)
              as (λ m.
                AreAllowed (delivering text) (m, shown || has_shown c r) es
                → (elim m [ true ↦ suc (writes es) | false ↦ writes es ] ≤ 1)
                  × ((ghost_after (delivering text) (m, shown || has_shown c r) es).0 ≡ true
                      → elim m [ true ↦ suc (writes es) | false ↦ writes es ] ≡ 1)) [
                        | true ↦ λ l. let none_left = rest.0 l in (omega arith, λ _. omega arith)
                        | false ↦ λ l. rest.1 l
                      ]
            later,
    )

or_assoc : (a b c : Bool) → ((a || b) || c) ≡ (a || (b || c))
or_assoc a b c = ground arith

-- What the ghost says of the window is what the calls have done.
ghost_after-was_shown :
    (text : Text) (seen : Seen) (es : List Event)
    → (ghost_after (delivering text) seen es).1 ≡ (seen.1 || was_shown es)
ghost_after-was_shown text seen [] = sym (or_false seen.1)
ghost_after-was_shown text seen ((c, r) ∷ es) =
    ghost_after-was_shown text (seen.0 || may_have_written c r, seen.1 || has_shown c r) es
    ∙ or_assoc seen.1 (has_shown c r) (was_shown es)

-- Whatever the ports answer and whatever the other operations do to the shared state between its
-- steps, `deliver` hands out the given text and no other, and of its calls at most one may have
-- written the text into another application: there is no second attempt after an insertion, a
-- clipboard paste or a focus paste that succeeded or whose effect is unknown, nor after a paste that
-- ended in an error.
pub deliver-writes_once :
    (id : ℕ) (text : Text) (reason : Option DirectDeliveryReason)
    (forced : Option TemporaryTextStatus) (es : List Event)
    (a : Result OrchestratorError FinishOutcome)
    → Runs (λ _. Unit) (deliver id text reason forced) es a
    → (writes es ≤ 1) × HandsOutOnly text es
deliver-writes_once id text reason forced es a run =
    let (allowed, _) = Ensures-Runs (Ensures-deliver text id reason forced) run in
    (
      ((AreAllowed-writes text false es).1 allowed).0,
      AreAllowed-HandsOutOnly text (false, false) es allowed,
    )

written_or_shown :
    (seen : Seen) (kind : DeliveryKind)
    → IsTrueClaim seen (ok (delivered kind none))
    → ((kind ≡ temporary_text) × (seen.1 ≡ true)) ⊎ ((kind ≢ temporary_text) × (seen.0 ≡ true))
written_or_shown seen inserted claim = inr ((λ e. cc), claim)
written_or_shown seen clipboard_bridge claim = inr ((λ e. cc), claim)
written_or_shown seen temporary_text claim = inl (refl, claim)

-- When `deliver` reports a completed session, the report names the given text, the calls that hand a
-- text out carry this text, and either the report says that the text is in the temporary window, and a
-- call that opens the window succeeded, or it says that the text was inserted, and exactly one call may
-- have written it.
pub deliver-reports_truly :
    (id : ℕ) (text : Text) (reason : Option DirectDeliveryReason)
    (forced : Option TemporaryTextStatus) (es : List Event) (c : Completion)
    → Runs (λ _. Unit) (deliver id text reason forced) es (ok (FinishOutcome.completed c))
    → (c.final_text ≡ text)
      × HandsOutOnly text es
      × (((c.delivery ≡ temporary_text) × (was_shown es ≡ true))
          ⊎ ((c.delivery ≢ temporary_text) × (writes es ≡ 1)))
deliver-reports_truly id text reason forced es c run =
    let (allowed, (same, claim)) = Ensures-Runs (Ensures-deliver text id reason forced) run in
    (
      same,
      AreAllowed-HandsOutOnly text (false, false) es allowed,
      elim (written_or_shown _ c.delivery claim) [
        | inl (kind, shown) ↦ inl (kind, sym (ghost_after-was_shown text (false, false) es) ∙ shown)
        | inr (kind, written) ↦ inr (kind, ((AreAllowed-writes text false es).1 allowed).1 written)
      ],
    )
