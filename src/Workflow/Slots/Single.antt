-- ===== src/Workflow/Slots/Single.antt =====
-- At most one session under way, for all interleavings of the operations of
-- crates/remtene-application/src/transcription_orchestrator.rs.
use rem_tene_public.Base.{
  ℕ, ◌≤◌, ◌≡◌, ◌↔◌, Bool, false, Option, none, some, String, List, [], ◌∷◌, arith,
}
use rem_tene_public.Base.Text.{Text}
use rem_tene_public.Settings.{SettingsSnapshot}
use rem_tene_public.Routes.{ResolvedAsrRoute, TextProcessingRoute}
use rem_tene_public.Ports.{CapturedTarget}
use rem_tene_public.Workflow.State.{
  World, RuntimeState, RuntimeStage, active_session_id, StartOutcome,
}
use rem_tene_public.Workflow.Sections.{
  is_starting, release_start_reservation, set_preparing_capture, set_preparing_deadline,
  claim_preparing_capture, set_stage, begin_recognizing_audio_cleanup,
  complete_recognizing_audio_cleanup, set_audio_cleanup_in_flight, preparing_of, active_of,
}
use rem_tene_public.Workflow.Ending.{take_preparing, take_active, invalidate_fence}
use rem_tene_public.Workflow.Cancel.{select_cancellation}
use rem_tene_public.Workflow.Finish.{claim_recording}
use rem_tene_public.Workflow.Retry.{select_retry, note_limit}
use rem_tene_public.Workflow.Reservation.{reserve, promote}
use rem_tene_public.Workflow.Start.{activate}
use rem_tene_public.Workflow.Quit.{take_all, restore_preparing, restore_active}
use rem_tene_public.Workflow.Slots.{
  Flight, Section, reserving, releasing, promoting, storing_capture, storing_deadline,
  claiming_capture, activating, setting_stage, beginning_cleanup, completing_cleanup,
  setting_in_flight, cancelling, claiming_recording, retrying, noting_limit, dropping_preparing,
  dropping_active, taking_all, restoring_preparing, restoring_active, enter, run, held, IsSingle,
}

-- A section that fills no slot.
abbrev Fills : RuntimeState → RuntimeState → Type 0
Fills r s = (held s ≤ held r) × (s.quitting ≡ r.quitting)

release-Fills : (id : ℕ) (r : RuntimeState) → Fills r (release_start_reservation id r)
unfolding release_start_reservation
release-Fills id r = ground arith

capture-Fills : (id : ℕ) (c : String) (r : RuntimeState) → Fills r (set_preparing_capture id c r).0
unfolding set_preparing_capture preparing_of
capture-Fills id c r = ground arith

stage-Fills : (id : ℕ) (s : RuntimeStage) (r : RuntimeState) → Fills r (set_stage id s r).0
unfolding set_stage
stage-Fills id s r = ground arith

begin-Fills : (id q : ℕ) (r : RuntimeState) → Fills r (begin_recognizing_audio_cleanup id q r).0
unfolding begin_recognizing_audio_cleanup
begin-Fills id q r = ground arith

cancel-Fills : (id : ℕ) (r : RuntimeState) → Fills r (select_cancellation id r).0
unfolding select_cancellation
cancel-Fills id r = ground arith

activate-Fills :
    (id : ℕ) (c : String) (route : ResolvedAsrRoute) (r : RuntimeState)
    → Fills r (activate id c route r).0
unfolding activate
activate-Fills id c route r = ground arith

deadline-Fills :
    (id : ℕ) (c : String) (d : ℕ) (r : RuntimeState) → Fills r (set_preparing_deadline id c d r).0
unfolding set_preparing_deadline preparing_of
deadline-Fills id c d r = ground arith

claim-Fills : (id : ℕ) (c : String) (r : RuntimeState) → Fills r (claim_preparing_capture id c r).0
unfolding claim_preparing_capture preparing_of
claim-Fills id c r = ground arith

complete-Fills :
    (id q : ℕ) (a : String) (r : RuntimeState)
    → Fills r (complete_recognizing_audio_cleanup id q a r).0
unfolding complete_recognizing_audio_cleanup
complete-Fills id q a r = ground arith

in_flight-Fills :
    (id : ℕ) (b : Bool) (r : RuntimeState) → Fills r (set_audio_cleanup_in_flight id b r)
unfolding set_audio_cleanup_in_flight
in_flight-Fills id b r = ground arith

finish-Fills : (id : ℕ) (r : RuntimeState) → Fills r (claim_recording id r).0
unfolding claim_recording
finish-Fills id r = ground arith

retry-Fills : (id : ℕ) (r : RuntimeState) → Fills r (select_retry id r).0
unfolding select_retry
retry-Fills id r = ground arith

limit-Fills : (id : ℕ) (r : RuntimeState) → Fills r (note_limit id r).0
unfolding note_limit
limit-Fills id r = ground arith

drop_preparing-Fills : (id : ℕ) (w : World) → Fills w.runtime (take_preparing id w).0.runtime
unfolding take_preparing invalidate_fence preparing_of
drop_preparing-Fills id w = ground arith

drop_active-Fills : (id : ℕ) (w : World) → Fills w.runtime (take_active id w).0.runtime
unfolding take_active invalidate_fence active_of
drop_active-Fills id w = ground arith

promote-Fills :
    (id : ℕ) (s : SettingsSnapshot) (route : TextProcessingRoute) (t : CapturedTarget)
    (text : Option Text) (w : World)
    → Fills w.runtime (promote id s route t text w).0.runtime
unfolding promote is_starting
promote-Fills id s route t text w = ground arith

Fills-IsSingle :
    (f : Flight) (w : World)
    → Fills f.world.runtime w.runtime
    → IsSingle f
    → IsSingle (record f { world = w })
Fills-IsSingle f w fills single =
    (omega (arith, fills.0, single.0), λ e. single.1 (cc (e, fills.1)))

reserve-IsSingle : (id : ℕ) (f : Flight) → IsSingle f → IsSingle (enter (reserving id) f)
unfolding enter reserve active_session_id
reserve-IsSingle id f single = ground arith

take_all-IsSingle : (f : Flight) → IsSingle f → IsSingle (enter taking_all f)
unfolding enter take_all
take_all-IsSingle f single = ground arith

restore_preparing-IsSingle : (f : Flight) → IsSingle f → IsSingle (enter restoring_preparing f)
unfolding enter restore_preparing
restore_preparing-IsSingle f single = ground arith

restore_active-IsSingle : (f : Flight) → IsSingle f → IsSingle (enter restoring_active f)
unfolding enter restore_active
restore_active-IsSingle f single = ground arith

enter-IsSingle : (s : Section) (f : Flight) → IsSingle f → IsSingle (enter s f)
unfolding enter
enter-IsSingle (reserving id) f h = reserve-IsSingle id f h
enter-IsSingle taking_all f h = take_all-IsSingle f h
enter-IsSingle restoring_preparing f h = restore_preparing-IsSingle f h
enter-IsSingle restoring_active f h = restore_active-IsSingle f h
enter-IsSingle (promoting id s route t text) f h =
    Fills-IsSingle f (enter (promoting id s route t text) f).world
      (promote-Fills id s route t text f.world) h
enter-IsSingle (dropping_preparing id) f h =
    Fills-IsSingle f (enter (dropping_preparing id) f).world (drop_preparing-Fills id f.world) h
enter-IsSingle (dropping_active id) f h =
    Fills-IsSingle f (enter (dropping_active id) f).world (drop_active-Fills id f.world) h
enter-IsSingle (releasing id) f h =
    Fills-IsSingle f (enter (releasing id) f).world (release-Fills id f.world.runtime) h
enter-IsSingle (storing_capture id c) f h =
    Fills-IsSingle f (enter (storing_capture id c) f).world (capture-Fills id c f.world.runtime) h
enter-IsSingle (storing_deadline id c d) f h =
    Fills-IsSingle f (enter (storing_deadline id c d) f).world
      (deadline-Fills id c d f.world.runtime) h
enter-IsSingle (claiming_capture id c) f h =
    Fills-IsSingle f (enter (claiming_capture id c) f).world (claim-Fills id c f.world.runtime) h
enter-IsSingle (activating id c route) f h =
    Fills-IsSingle f (enter (activating id c route) f).world
      (activate-Fills id c route f.world.runtime) h
enter-IsSingle (setting_stage id stage) f h =
    Fills-IsSingle f (enter (setting_stage id stage) f).world (stage-Fills id stage f.world.runtime)
      h
enter-IsSingle (beginning_cleanup id q) f h =
    Fills-IsSingle f (enter (beginning_cleanup id q) f).world (begin-Fills id q f.world.runtime) h
enter-IsSingle (completing_cleanup id q a) f h =
    Fills-IsSingle f (enter (completing_cleanup id q a) f).world
      (complete-Fills id q a f.world.runtime) h
enter-IsSingle (setting_in_flight id b) f h =
    Fills-IsSingle f (enter (setting_in_flight id b) f).world (in_flight-Fills id b f.world.runtime)
      h
enter-IsSingle (cancelling id) f h =
    Fills-IsSingle f (enter (cancelling id) f).world (cancel-Fills id f.world.runtime) h
enter-IsSingle (claiming_recording id) f h =
    Fills-IsSingle f (enter (claiming_recording id) f).world (finish-Fills id f.world.runtime) h
enter-IsSingle (retrying id) f h =
    Fills-IsSingle f (enter (retrying id) f).world (retry-Fills id f.world.runtime) h
enter-IsSingle (noting_limit id) f h =
    Fills-IsSingle f (enter (noting_limit id) f).world (limit-Fills id f.world.runtime) h

-- Whatever critical sections the operations enter, in any number and any order: while no session is
-- under way or exactly one is, counting the workflow that a failed exit may put back, this stays so,
-- and a workflow is put aside only when the application quits.
pub run-IsSingle : (f : Flight) (ss : List Section) → IsSingle f → IsSingle (run f ss)
unfolding run
run-IsSingle f [] h = h
run-IsSingle f (s ∷ ss) h = run-IsSingle (enter s f) ss (enter-IsSingle s f h)

-- A reservation is let through exactly when the application does not quit, no slot is held and no
-- audio cleanup is owed, and whatever is not let through leaves the state as it was.
pub reserve_free :
    (id : ℕ) (r : RuntimeState)
    → (((reserve id r).1 ≡ none)
        ↔ ((r.quitting ≡ false) × (held r ≡ 0) × (r.audio_cleanup_debts ≡ [])))
      × ((o : StartOutcome) → (reserve id r).1 ≡ some o → (reserve id r).0 ≡ r)
unfolding reserve active_session_id
reserve_free id r = ((λ e. ground arith, λ e. ground arith), λ o e. ground arith)
