-- ===== src/Session/Life.antt =====
-- What holds of a session of crates/remtene-domain/src/session.rs over any sequence of events.

use rem_tene_public.Base.{
  ℕ, suc, ◌+◌, ◌≤◌, ◌<◌, ◌≡◌, refl, ◌↔◌, true, List, [], ◌∷◌, arith, ok, err, is_some,
}
use rem_tene_public.Settings.{SettingsSnapshot, AsrEngine}
use rem_tene_public.Session.{
  SessionPhase, preparing, recording, recognizing, processing, delivering, finalizing, terminated,
  SessionEvent, TransitionError, applied, ignored_duplicate, TranscriptionSession, new, apply,
}

-- Every event in turn; a refused one leaves the session to the next.
unfoldable pub run : TranscriptionSession → List SessionEvent → TranscriptionSession
run s [] = s
run s (e ∷ es) = run (apply s e).0 es

abbrev pub HasOutcomeOnceOver : TranscriptionSession → Type 0
HasOutcomeOnceOver s = (s.phase ≡ terminated) ↔ (is_some s.terminal_outcome ≡ true)

abbrev pub SameFrozenFields : TranscriptionSession → TranscriptionSession → Type 0
SameFrozenFields s t =
    (t.id ≡ s.id)
    × (t.created_at ≡ s.created_at)
    × (t.settings ≡ s.settings)
    × (t.selected_asr_engine ≡ s.selected_asr_engine)

pub apply-HasOutcomeOnceOver :
    (s : TranscriptionSession) (e : SessionEvent)
    → HasOutcomeOnceOver s
    → HasOutcomeOnceOver (apply s e).0
unfolding apply
apply-HasOutcomeOnceOver s e h = ground arith

apply-SameFrozenFields :
    (s : TranscriptionSession) (e : SessionEvent) → SameFrozenFields s (apply s e).0
unfolding apply
apply-SameFrozenFields s e = ground arith

run-HasOutcomeOnceOver :
    (s : TranscriptionSession) (es : List SessionEvent)
    → HasOutcomeOnceOver s
    → HasOutcomeOnceOver (run s es)
unfolding run
run-HasOutcomeOnceOver s [] h = h
run-HasOutcomeOnceOver s (e ∷ es) h =
    run-HasOutcomeOnceOver (apply s e).0 es (apply-HasOutcomeOnceOver s e h)

run-SameFrozenFields :
    (s : TranscriptionSession) (es : List SessionEvent) → SameFrozenFields s (run s es)
unfolding run
run-SameFrozenFields s [] = (refl, refl, refl, refl)
run-SameFrozenFields s (e ∷ es) =
    ground (arith, apply-SameFrozenFields s e, run-SameFrozenFields (apply s e).0 es)

-- Whatever events a new session receives, it has an outcome exactly when it is terminated, and its
-- id, creation time, settings and engine are those that it was created with.
pub run-new :
    (id created_at : ℕ) (settings : SettingsSnapshot) (selected : AsrEngine)
    (es : List SessionEvent)
    → let s = run (new id created_at settings selected) es in
      HasOutcomeOnceOver s × SameFrozenFields (new id created_at settings selected) s
unfolding new
run-new id created_at settings selected es =
    (run-HasOutcomeOnceOver _ es (ground arith), run-SameFrozenFields _ es)

-- The terminated session ignores every event, a refused event changes nothing, and an ignored one
-- changes nothing either.
pub apply_unchanged :
    (s : TranscriptionSession) (e : SessionEvent)
    → (s.phase ≡ terminated → apply s e ≡ (s, ok ignored_duplicate))
      × ((x : TransitionError) → (apply s e).1 ≡ err x → (apply s e).0 ≡ s)
      × ((apply s e).1 ≡ ok ignored_duplicate → (apply s e).0 ≡ s)
unfolding apply
apply_unchanged s e = (λ h. ground arith, λ x h. ground arith, λ h. ground arith)

abbrev rank : SessionPhase → ℕ
rank preparing = 0
rank recording = 1
rank recognizing = 2
rank processing = 3
rank delivering = 4
rank finalizing = 5
rank terminated = 6

-- How many of the events are applied.
unfoldable pub applied_events : TranscriptionSession → List SessionEvent → ℕ
applied_events s [] = 0
applied_events s (e ∷ es) =
    let rest = applied_events (apply s e).0 es in
    elim (apply s e).1 [ ok applied ↦ suc rest | ok ignored_duplicate ↦ rest | err x ↦ rest ]

apply-rank :
    (s : TranscriptionSession) (e : SessionEvent)
    → ((apply s e).1 ≡ ok applied → rank s.phase < rank (apply s e).0.phase)
      × (rank s.phase ≤ rank (apply s e).0.phase)
unfolding apply
apply-rank s e = (λ h. ground arith, ground arith)

applied_events-rank :
    (s : TranscriptionSession) (es : List SessionEvent)
    → applied_events s es + rank s.phase ≤ rank (run s es).phase
unfolding applied_events run
applied_events-rank s [] = omega arith
applied_events-rank s (e ∷ es) =
    ground (arith, apply-rank s e, applied_events-rank (apply s e).0 es)

rank-le : (p : SessionPhase) → rank p ≤ 6
rank-le p = ground arith

-- However many events arrive, at most six are ever applied to one session.
pub applied_events-le :
    (s : TranscriptionSession) (es : List SessionEvent) → applied_events s es ≤ 6
applied_events-le s es = omega (arith, applied_events-rank s es, rank-le (run s es).phase)
