-- ===== src/Coordinator/SingleFlight.antt =====
-- At most one session at a time, over any order of calls of
-- crates/remtene-application/src/session_coordinator.rs. The mutex makes every interleaving of
-- threads such an order.
use rem_tene_public.Base.{
  ℕ, suc, ◌≡◌, ◌≢◌, refl, ◌↔◌, true, none, some, List, [], ◌∷◌, arith, ok, err, is_some, ap,
}
use rem_tene_public.Settings.{SettingsSnapshot}
use rem_tene_public.Routes.{ResolvedAsrRoute}
use rem_tene_public.Session.{SessionEvent, terminated}
use rem_tene_public.Coordinator.{
  ActiveSession, SessionCoordinator, accepted, busy, SessionMutation, CoordinatorError,
  session_not_found, try_start, apply,
}

-- The session in the slot has not ended, and recognises with the engine of the frozen route.
abbrev pub IsLive : SessionCoordinator → Type 0
IsLive none = Unit {0}
IsLive (some a) =
    (a.session.terminal_outcome ≡ none)
    × (a.session.phase ≢ terminated)
    × (a.session.selected_asr_engine ≡ a.asr_route.engine)

pub data Call : Type 0 where
  start : ℕ → ℕ → SettingsSnapshot → ResolvedAsrRoute → Call
  event : ℕ → SessionEvent → Call

unfoldable pub step : SessionCoordinator → Call → SessionCoordinator
step c (start id now settings route) = (try_start c id now settings route).0
step c (event id e) = (apply c id e).0

unfoldable pub run : SessionCoordinator → List Call → SessionCoordinator
run c [] = c
run c (x ∷ xs) = run (step c x) xs

apply-IsLive :
    (c : SessionCoordinator) (id : ℕ) (e : SessionEvent) → IsLive c → IsLive (apply c id e).0
unfolding apply
apply-IsLive none id e h = tt
apply-IsLive (some a) id e h = ground arith

try_start-IsLive :
    (c : SessionCoordinator) (id now : ℕ) (s : SettingsSnapshot) (r : ResolvedAsrRoute)
    → IsLive c
    → IsLive (try_start c id now s r).0
unfolding try_start
try_start-IsLive none id now s r h = ground arith
try_start-IsLive (some a) id now s r h = h

run-IsLive : (c : SessionCoordinator) (xs : List Call) → IsLive c → IsLive (run c xs)
unfolding run step
run-IsLive c [] h = h
run-IsLive c (start id now s r ∷ xs) h =
    run-IsLive (step c (start id now s r)) xs (try_start-IsLive c id now s r h)
run-IsLive c (event id e ∷ xs) h = run-IsLive (step c (event id e)) xs (apply-IsLive c id e h)

-- After any calls on a new coordinator, an active session has no outcome, is not terminated, and
-- has the engine of the route that it was started with.
pub run-new-IsLive : (xs : List Call) → IsLive (run none xs)
run-new-IsLive xs = run-IsLive none xs tt

-- A call for another session, or a refused event, leaves the coordinator as it was; an accepted
-- event frees the slot exactly when it ends the session.
pub apply_cases :
    (a : ActiveSession) (id : ℕ) (e : SessionEvent)
    → IsLive (some a)
    → (a.session.id ≢ id → apply (some a) id e ≡ (some a, err session_not_found))
      × ((x : CoordinatorError)
          → (apply (some a) id e).1 ≡ err x
          → (apply (some a) id e).0 ≡ some a)
      × ((m : SessionMutation)
          → (apply (some a) id e).1 ≡ ok m
          → ((apply (some a) id e).0 ≡ none) ↔ (is_some m.terminal_outcome ≡ true))
unfolding apply
apply_cases a id e h =
    (λ h. ground arith, λ x h. ground arith, λ m h. (λ k. ground arith, λ k. ground arith))

-- How many of these starts, each with its id, are accepted.
abbrev pub accepted_starts :
    SessionCoordinator → List (ℕ × ℕ × SettingsSnapshot × ResolvedAsrRoute) → ℕ
accepted_starts c [] = 0
accepted_starts c ((id, now, s, r) ∷ xs) =
    let rest = accepted_starts (try_start c id now s r).0 xs in
    elim (try_start c id now s r).1 [ accepted _ ↦ suc rest | busy _ ↦ rest ]

busy_starts :
    (a : ActiveSession) (xs : List (ℕ × ℕ × SettingsSnapshot × ResolvedAsrRoute))
    → accepted_starts (some a) xs ≡ 0
unfolding try_start
busy_starts a [] = refl
busy_starts a ((id, now, s, r) ∷ xs) = busy_starts a xs

-- Of any contenders that start on a free coordinator, in any order, exactly one is accepted.
pub accepted_starts-one :
    (x : ℕ × ℕ × SettingsSnapshot × ResolvedAsrRoute)
    (xs : List (ℕ × ℕ × SettingsSnapshot × ResolvedAsrRoute))
    → accepted_starts none (x ∷ xs) ≡ 1
unfolding try_start
accepted_starts-one (id, now, s, r) xs = ap suc (busy_starts _ xs)
