-- ===== src/Workflow/Start.antt =====
-- `start` of crates/remtene-application/src/transcription_orchestrator.rs: the preparation beside the
-- choice of the engine, the session, and its activation.
use rem_tene_public.Base.{
  ℕ, Bool, true, false, not, Option, none, some, String, Result, ok, err, if◌then◌else◌,
}
use rem_tene_public.Base.Text.{Text}
use rem_tene_public.Settings.{SettingsSnapshot}
use rem_tene_public.Session.{
  asr_unavailable, recording_hud_unavailable, FailureCategory, preflight_passed, reject, fail,
}
use rem_tene_public.Routes.{PortError, ResolvedAsrRoute, TextProcessingRoute}
use rem_tene_public.Coordinator.{CoordinatorError, SessionMutation, StartSessionOutcome, accepted}
use rem_tene_public.Coordinator
use rem_tene_public.Ports.{
  Fallible, CapturedTarget, UserNotificationKind, RecordingHudState, request_recording_access,
  hud_update, clock_now, new_session_id,
}
use rem_tene_public.Workflow.State.{
  RuntimeState, RuntimeStage, OrchestratorError, coordinator, StartOutcome, started, rejected,
  quitting,
}
use rem_tene_public.Workflow.Program.{
  M, pure, throw, ◌>>=◌, ◌>>◌, perform, section, on_runtime, finally, join_futures,
}
use rem_tene_public.Workflow.Sections.{is_current_preparing_capture}
use rem_tene_public.Workflow.Feedback.{record_port_error, raise_user_notification}
use rem_tene_public.Workflow.Ending.{apply_event}
use rem_tene_public.Workflow.Cancel.{guarded}
use rem_tene_public.Workflow.Finish.{finish_recording}
use rem_tene_public.Workflow.Preparation.{
  RecordingPreparation, ready, failed_audio, failed_lifecycle, rejected_hud, aborted,
  still_capturing, claim_capture, cancel_claimed_preparing_capture, prepare_recording,
  resolve_route,
}
use rem_tene_public.Workflow.Reservation.{
  Phase, stop, go, Frozen, lock_gate, unlock_gate, behind_gate, capture_target, after_access,
  if_reserved, promote,
}

-- Ends a start whose session the coordinator has already accepted.
fail_session : ℕ → M StartOutcome
fail_session id = apply_event id (fail FailureCategory.lifecycle) >>= λ _. pure quitting

-- The section that makes the preparing workflow the active one: whether it did, and whether the
-- recording limit has already elapsed.
unfoldable pub activate :
    ℕ → String → ResolvedAsrRoute → RuntimeState → RuntimeState × (Bool × Bool)
unfolding is_current_preparing_capture
activate id held route r =
    if not (is_current_preparing_capture id held r) then (r, (false, false)) else elim r.preparing [
      | none ↦ (r, (false, false))
      | some p ↦ (
        record r {
          preparing = none;
          active = some (record {
            session_id = id;
            settings = p.settings;
            processing_route = p.processing_route;
            asr_route = route;
            target_ref = p.target_ref;
            target_security = p.target_security;
            selected_text = p.selected_text;
            lifecycle = p.lifecycle;
            recording_deadline = p.recording_deadline;
            stage = RuntimeStage.recording held;
          });
        },
        (true, p.recording_limit_elapsed),
      )
    ]

or_coordinator : Result CoordinatorError SessionMutation → M Unit
or_coordinator (ok _) = pure tt
or_coordinator (err error) = throw (coordinator error)

after_activation : ℕ → Bool × Bool → M StartOutcome
unfolding fail_session or_coordinator
after_activation id (activated, limit_elapsed) = if not activated then fail_session id else do
  result ← apply_event id preflight_passed
  or_coordinator result
  if not limit_elapsed then pure (started id) else finish_recording id >>= λ _. pure (started id)

-- The recording HUD could not be shown as ready.
without_hud : ℕ → String → PortError → M StartOutcome
unfolding fail_session
without_hud id held error = do
  record_port_error (some id) "recording_hud_update_ready" error
  was_claimed ← claim_capture id held
  if not was_claimed then fail_session id else do
    cancel_claimed_preparing_capture id held
    apply_event id (reject recording_hud_unavailable)
    pure (rejected recording_hud_unavailable)

after_ready_hud : ℕ → String → ResolvedAsrRoute → Fallible Unit → M StartOutcome
unfolding without_hud after_activation
after_ready_hud id held route (err error) = without_hud id held error
after_ready_hud id held route (ok _) = on_runtime (activate id held route) >>= after_activation id

after_try_start : ℕ → String → ResolvedAsrRoute → StartSessionOutcome → M StartOutcome
unfolding after_ready_hud
after_try_start id held route (accepted _) = do
  reply ← perform (hud_update id RecordingHudState.recording)
  after_ready_hud id held route reply
after_try_start id held route (StartSessionOutcome.busy other) = do
  was_claimed ← claim_capture id held
  if not was_claimed
      then pure (StartOutcome.busy other)
      else do cancel_claimed_preparing_capture id held; pure (StartOutcome.busy other)

open_session : ℕ → SettingsSnapshot → String → ResolvedAsrRoute → M StartOutcome
unfolding after_try_start
open_session id settings held route = do
  current ← still_capturing id held
  if not current then pure quitting else do
    now ← perform clock_now
    outcome ← section (λ w.
        let (sessions, outcome) = Coordinator.try_start w.sessions id now settings route in
        (record w { sessions = sessions }, outcome))
    after_try_start id held route outcome

without_route : ℕ → String → M StartOutcome
without_route id held = do
  was_claimed ← claim_capture id held
  if not was_claimed then pure quitting else do
    cancel_claimed_preparing_capture id held
    raise_user_notification id UserNotificationKind.asr
    pure (rejected asr_unavailable)

with_route :
    ℕ
    → SettingsSnapshot
    → String
    → Result OrchestratorError (Option ResolvedAsrRoute)
    → M StartOutcome
unfolding without_route open_session
with_route id settings held (err error) = throw error
with_route id settings held (ok none) = without_route id held
with_route id settings held (ok (some route)) = open_session id settings held route

after_join :
    ℕ
    → SettingsSnapshot
    → Result OrchestratorError RecordingPreparation
      × Result OrchestratorError (Option ResolvedAsrRoute)
    → M StartOutcome
unfolding with_route
after_join id settings (err error, route) = throw error
after_join id settings (ok (ready held), route) = with_route id settings held route
after_join id settings (ok failed_audio, route) = pure (StartOutcome.failed FailureCategory.audio)
after_join id settings (ok failed_lifecycle, route) =
    pure (StartOutcome.failed FailureCategory.lifecycle)
after_join id settings (ok rejected_hud, route) = pure (rejected recording_hud_unavailable)
after_join id settings (ok aborted, route) = pure quitting

with_microphone :
    ℕ → SettingsSnapshot → TextProcessingRoute → CapturedTarget → Option Text → M StartOutcome
unfolding after_join
with_microphone id settings route target selected = do
  promoted ← section (promote id settings route target selected)
  if not promoted then pure quitting else do
    results ←
        join_futures (prepare_recording id target.display_hint settings.max_recording_duration)
          (resolve_route id settings)
    after_join id settings results

after_capture :
    ℕ
    → SettingsSnapshot
    → TextProcessingRoute
    → Phase (CapturedTarget × Option Text)
    → M StartOutcome
unfolding with_microphone
after_capture id settings route (stop outcome) = pure outcome
after_capture id settings route (go (target, selected)) = do
  reply ← perform request_recording_access
  access ← if_reserved id (after_access id reply)
  elim access [
    | stop outcome ↦ pure outcome
    | go _ ↦ with_microphone id settings route target selected
  ]

after_gate : ℕ → Phase Frozen → M StartOutcome
unfolding after_capture
after_gate id (stop outcome) = pure outcome
after_gate id (go (settings, route)) = do
  captured ← capture_target id settings route
  after_capture id settings route captured

unfoldable pub start : M StartOutcome
unfolding after_gate
start = guarded quitting (do
  id ← perform new_session_id
  lock_gate
  phase ← finally (behind_gate id) unlock_gate
  after_gate id phase)
