-- ===== src/Workflow/Slots.antt =====
-- The slots of `RuntimeState` in crates/remtene-application/src/transcription_orchestrator.rs
-- (`starting`, `preparing` and `active`) under the critical sections of all operations, in any order.
pub mod Single
use rem_tene_public.Base.{
  ℕ, ◌+◌, ◌≤◌, ◌≡◌, refl, ◌↔◌, Bool, true, false, Option, none, some, String, List, [], ◌∷◌, arith,
  Option-cases, inl, inr,
}
use rem_tene_public.Base.Text.{Text}
use rem_tene_public.Settings.{SettingsSnapshot}
use rem_tene_public.Routes.{ResolvedAsrRoute, TextProcessingRoute}
use rem_tene_public.Ports.{CapturedTarget}
use rem_tene_public.Workflow.State.{
  World, RuntimeState, RuntimeStage, PreparingWorkflow, ActiveWorkflow, AudioCleanupDebt,
  active_session_id, StartOutcome, quitting,
}
use rem_tene_public.Workflow.Sections.{
  is_starting, release_start_reservation, set_preparing_capture, set_preparing_deadline,
  claim_preparing_capture, set_stage, begin_recognizing_audio_cleanup,
  complete_recognizing_audio_cleanup, set_audio_cleanup_in_flight, preparing_of, active_of,
  is_current_preparing_capture,
}
use rem_tene_public.Workflow.Ending.{take_preparing, take_active, invalidate_fence}
use rem_tene_public.Workflow.Cancel.{select_cancellation}
use rem_tene_public.Workflow.Finish.{claim_recording}
use rem_tene_public.Workflow.Retry.{select_retry, note_limit}
use rem_tene_public.Workflow.Reservation.{reserve, promote}
use rem_tene_public.Workflow.Start.{activate}
use rem_tene_public.Workflow.Quit.{take_all, restore_preparing, restore_active}

-- The shared state, and the workflows that the leader of an exit has taken and may put back.
pub record Flight : Type 0 where
  pub world : World
  pub taken_preparing : Option PreparingWorkflow
  pub taken_active : Option ActiveWorkflow

-- The critical sections that write the slots or what stands in them.
pub data Section : Type 0 where
  reserving releasing : ℕ → Section
  promoting : ℕ → SettingsSnapshot → TextProcessingRoute → CapturedTarget → Option Text → Section
  storing_capture : ℕ → String → Section
  storing_deadline : ℕ → String → ℕ → Section
  claiming_capture : ℕ → String → Section
  activating : ℕ → String → ResolvedAsrRoute → Section
  setting_stage : ℕ → RuntimeStage → Section
  beginning_cleanup : ℕ → ℕ → Section
  completing_cleanup : ℕ → ℕ → String → Section
  setting_in_flight : ℕ → Bool → Section
  cancelling claiming_recording retrying noting_limit : ℕ → Section
  dropping_preparing dropping_active : ℕ → Section
  taking_all restoring_preparing restoring_active : Section

abbrev pub on : Flight → RuntimeState → Flight
on f r = record f { world = record (f.world) { runtime = r } }

unfoldable pub enter : Section → Flight → Flight
enter (reserving id) f = on f (reserve id f.world.runtime).0
enter (releasing id) f = on f (release_start_reservation id f.world.runtime)
enter (promoting id s route t text) f = record f { world = (promote id s route t text f.world).0 }
enter (storing_capture id c) f = on f (set_preparing_capture id c f.world.runtime).0
enter (storing_deadline id c d) f = on f (set_preparing_deadline id c d f.world.runtime).0
enter (claiming_capture id c) f = on f (claim_preparing_capture id c f.world.runtime).0
enter (activating id c route) f = on f (activate id c route f.world.runtime).0
enter (setting_stage id stage) f = on f (set_stage id stage f.world.runtime).0
enter (beginning_cleanup id q) f = on f (begin_recognizing_audio_cleanup id q f.world.runtime).0
enter (completing_cleanup id q a) f =
    on f (complete_recognizing_audio_cleanup id q a f.world.runtime).0
enter (setting_in_flight id b) f = on f (set_audio_cleanup_in_flight id b f.world.runtime)
enter (cancelling id) f = on f (select_cancellation id f.world.runtime).0
enter (claiming_recording id) f = on f (claim_recording id f.world.runtime).0
enter (retrying id) f = on f (select_retry id f.world.runtime).0
enter (noting_limit id) f = on f (note_limit id f.world.runtime).0
enter (dropping_preparing id) f = record f { world = (take_preparing id f.world).0 }
enter (dropping_active id) f = record f { world = (take_active id f.world).0 }
enter taking_all f = record (on f (take_all f.world.runtime).0) {
  taken_preparing = f.world.runtime.preparing;
  taken_active = f.world.runtime.active;
}
enter restoring_preparing f = record (on f (restore_preparing f.taken_preparing f.world.runtime)) {
  taken_preparing = none;
}
enter restoring_active f = record (on f (restore_active f.taken_active f.world.runtime)) {
  taken_active = none;
}

unfoldable pub run : Flight → List Section → Flight
run f [] = f
run f (s ∷ ss) = run (enter s f) ss

abbrev pub one : {A : Type 0} → Option A → ℕ
one o = elim o [ none ↦ 0 | some _ ↦ 1 ]

abbrev pub held : RuntimeState → ℕ
held r = one r.starting + (one r.preparing + one r.active)

abbrev pub taken : Flight → ℕ
taken f = one f.taken_preparing + one f.taken_active

-- No two sessions, and nothing is put aside unless the application quits.
abbrev pub IsSingle : Flight → Type 0
IsSingle f = (held f.world.runtime + taken f ≤ 1) × (f.world.runtime.quitting ≡ false → taken f ≡ 0)
