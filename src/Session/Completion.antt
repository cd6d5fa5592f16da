-- ===== src/Session/Completion.antt =====
-- What a session of crates/remtene-domain/src/session.rs has to go through to be completed.
use mathlib.Core.Path.{subst}
use rem_tene_public.Base.{
  Option-cases, ℕ, ◌≡◌, refl, inl, inr, false, none, some, List, [], ◌∷◌, arith,
}
use rem_tene_public.Settings.{SettingsSnapshot, AsrEngine}
use rem_tene_public.Session.{
  SessionPhase, preparing, recording, recognizing, processing, delivering, finalizing, terminated,
  completed, SessionEvent, preflight_passed, reject, finish_recording, cancel_recording, no_speech,
  begin_processing, begin_delivery, begin_finalizing, complete, fail, TranscriptionSession, new,
  apply, Outcome, transition, is_terminated,
}
use rem_tene_public.Session.Life.{run, HasOutcomeOnceOver, apply-HasOutcomeOnceOver}

-- `xs` is what is left of `ys` after events are crossed out.
pub data IsSubsequence : List SessionEvent → List SessionEvent → Type 0 where
  done : {ys : List SessionEvent} → IsSubsequence [] ys
  keep :
      {y : SessionEvent} {xs ys : List SessionEvent}
      → IsSubsequence xs ys
      → IsSubsequence (y ∷ xs) (y ∷ ys)
  skip :
      {y : SessionEvent} {xs ys : List SessionEvent}
      → IsSubsequence xs ys
      → IsSubsequence xs (y ∷ ys)

-- The events that a session in this phase still has to see before it is completed.
abbrev still_needed : SessionPhase → List SessionEvent
still_needed preparing =
    preflight_passed ∷ finish_recording ∷ begin_delivery ∷ begin_finalizing ∷ complete ∷ []
still_needed recording = finish_recording ∷ begin_delivery ∷ begin_finalizing ∷ complete ∷ []
still_needed recognizing = begin_delivery ∷ begin_finalizing ∷ complete ∷ []
still_needed processing = begin_delivery ∷ begin_finalizing ∷ complete ∷ []
still_needed delivering = begin_finalizing ∷ complete ∷ []
still_needed finalizing = complete ∷ []
still_needed terminated = []

-- One event, on a session that goes on: what is needed after it and the event give what is needed.
still_needed-transition :
    (p : SessionPhase) (e : SessionEvent) (s : TranscriptionSession) (es : List SessionEvent)
    → (transition p e s).0.terminal_outcome ≡ none
    → s.phase ≡ p
    → IsSubsequence (still_needed (transition p e s).0.phase) es
    → IsSubsequence (still_needed p) (e ∷ es)
unfolding transition
still_needed-transition preparing preflight_passed s es h q sub = keep sub
still_needed-transition preparing (reject r) s es h q sub = cc
still_needed-transition recording finish_recording s es h q sub = keep sub
still_needed-transition recording cancel_recording s es h q sub = cc
still_needed-transition recognizing no_speech s es h q sub = cc
still_needed-transition recognizing begin_processing s es h q sub = skip sub
still_needed-transition recognizing begin_delivery s es h q sub = keep sub
still_needed-transition processing begin_delivery s es h q sub = keep sub
still_needed-transition delivering begin_finalizing s es h q sub = keep sub
still_needed-transition finalizing complete s es h q sub = cc
still_needed-transition _ (fail c) s es h q sub = cc
still_needed-transition p e s es h q sub =
    skip (subst (λ x. IsSubsequence (still_needed x) es) q sub)

-- The event that completes a session is the one that it still needs.
completed-transition :
    (p : SessionPhase) (e : SessionEvent) (s : TranscriptionSession) (es : List SessionEvent)
    → s.terminal_outcome ≡ none
    → (transition p e s).0.terminal_outcome ≡ some completed
    → IsSubsequence (still_needed p) (e ∷ es)
unfolding transition
completed-transition finalizing complete s es h c = keep done
completed-transition preparing (reject r) s es h c = cc
completed-transition _ (fail r) s es h c = cc
completed-transition _ _ s es h c = cc

run_terminated :
    (s : TranscriptionSession) (es : List SessionEvent) → s.phase ≡ terminated → run s es ≡ s
unfolding run apply
run_terminated s [] h = refl
run_terminated s (e ∷ es) h = ground (arith, run_terminated s es h)

apply_going :
    (s : TranscriptionSession) (e : SessionEvent)
    → is_terminated s ≡ false
    → apply s e ≡ transition s.phase e s
unfolding apply
apply_going s e h = rw h

live :
    (s : TranscriptionSession)
    → s.terminal_outcome ≡ none
    → HasOutcomeOnceOver s
    → is_terminated s ≡ false
unfolding is_terminated
live s n h = ground arith

completed_needs :
    (s : TranscriptionSession) (es : List SessionEvent)
    → s.terminal_outcome ≡ none
    → HasOutcomeOnceOver s
    → (run s es).terminal_outcome ≡ some completed
    → IsSubsequence (still_needed s.phase) es
unfolding run
completed_needs s [] n h c = cc
completed_needs s (e ∷ es) n h c = elim (Option-cases (apply s e).0.terminal_outcome) [
  | inl going ↦ still_needed-transition s.phase e s es (cc (apply_going s e (live s n h))) refl (
      subst (λ (r : Outcome). IsSubsequence (still_needed r.0.phase) es)
        (apply_going s e (live s n h))
        (completed_needs (apply s e).0 es going (apply-HasOutcomeOnceOver s e h) c))
  | inr (o, ended) ↦ completed-transition s.phase e s es n (
      ground (
        arith,
        apply_going s e (live s n h),
        run_terminated (apply s e).0 es,
        apply-HasOutcomeOnceOver s e h,
      ))
]

-- A session is completed only by a sequence of events in which the recording starts, is finished,
-- is delivered and is finalized, in this order.
pub completed_needs_delivery :
    (id created_at : ℕ) (settings : SettingsSnapshot) (selected : AsrEngine)
    (es : List SessionEvent)
    → (run (new id created_at settings selected) es).terminal_outcome ≡ some completed
    → IsSubsequence
        (preflight_passed ∷ finish_recording ∷ begin_delivery ∷ begin_finalizing ∷ complete ∷ [])
        es
unfolding new
completed_needs_delivery id created_at settings selected es c =
    completed_needs _ es refl (ground arith) c
