-- ===== src/Coordinator.antt =====
-- crates/remtene-application/src/session_coordinator.rs: the one active session. Each method takes
-- the mutex for its whole body, so it is one step on the state; a poisoned lock is not modelled.
pub mod SingleFlight
use rem_tene_public.Base.{
  ℕ, Bool, true, false, Option, none, some, Result, ok, err, ◌==◌, if◌then◌else◌, is_some,
}
use rem_tene_public.Settings.{SettingsSnapshot}
use rem_tene_public.Routes.{ResolvedAsrRoute}
use rem_tene_public.Session
use rem_tene_public.Session.{
  TranscriptionSession, SessionEvent, TransitionError, TransitionEffect, TerminalOutcome,
}

pub record ActiveSession : Type 0 where
  pub session : TranscriptionSession
  pub asr_route : ResolvedAsrRoute

-- The guarded content of `SessionCoordinator::active`.
abbrev pub SessionCoordinator : Type 0
SessionCoordinator = Option ActiveSession

pub data StartSessionOutcome : Type 0 where
  accepted busy : ℕ → StartSessionOutcome

pub record SessionMutation : Type 0 where
  pub effect : TransitionEffect
  pub terminal_outcome : Option TerminalOutcome

pub data CoordinatorError : Type 0 where
  session_not_found : CoordinatorError
  invalid_transition : TransitionError → CoordinatorError

unfoldable pub try_start :
    SessionCoordinator
    → ℕ
    → ℕ
    → SettingsSnapshot
    → ResolvedAsrRoute
    → SessionCoordinator × StartSessionOutcome
unfolding Session.new
try_start (some active) session_id created_at settings route = (some active, busy active.session.id)
try_start none session_id created_at settings route = (
  some (record {
    session = Session.new session_id created_at settings route.engine;
    asr_route = route;
  }),
  accepted session_id,
)

unfoldable pub active_snapshot : SessionCoordinator → Option TranscriptionSession
active_snapshot none = none
active_snapshot (some active) = some active.session

unfoldable pub active_asr_route : SessionCoordinator → Option ResolvedAsrRoute
active_asr_route none = none
active_asr_route (some active) = some active.asr_route

-- After the session's own step: an error keeps the session, an outcome frees the slot.
settle :
    ActiveSession → Session.Outcome → SessionCoordinator × Result CoordinatorError SessionMutation
settle active (session, err error) =
    (some (record active { session = session }), err (invalid_transition error))
settle active (session, ok effect) = (
  if is_some session.terminal_outcome then none else some (record active { session = session }),
  ok (record { effect = effect; terminal_outcome = session.terminal_outcome }),
)

unfoldable pub apply :
    SessionCoordinator
    → ℕ
    → SessionEvent
    → SessionCoordinator × Result CoordinatorError SessionMutation
unfolding settle Session.apply
apply none session_id event = (none, err session_not_found)
apply (some active) session_id event =
    if active.session.id == session_id
    then settle active (Session.apply active.session event)
    else (some active, err session_not_found)
