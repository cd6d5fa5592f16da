-- ===== src/Tests/Slots.antt =====
-- The slots and the exit of crates/remtene-application/src/transcription_orchestrator.rs on concrete
-- values.
use rem_tene_public.Base.{suc, ◌≤◌, ◌≡◌, refl, ◌↔◌, false, none, some, [], ◌∷◌, ok, err, arith}
use rem_tene_public.Workflow.State.{World, StartOutcome, complete, terminated, audio_cleanup_failed}
use rem_tene_public.Workflow.Reservation.{reserve}
use rem_tene_public.Workflow.Slots
use rem_tene_public.Workflow.Slots.{
  Flight, reserving, storing_capture, claiming_recording, taking_all, restoring_active,
  dropping_active, IsSingle, held,
}
use rem_tene_public.Workflow.Slots.Single.{run-IsSingle, reserve_free}
use rem_tene_public.Workflow.Quit.{begin_exit, ended}
use rem_tene_public.Workflow.Quit.Election
use rem_tene_public.Workflow.Quit.Election.{
  begins, concludes, leaders, failures, leaders-failures, complete_run,
}
use rem_tene_public.Tests.Delivery.{recognizing_world, broken}

-- Session 7 recognizes.
abbrev flight : Flight
flight = record { world = recognizing_world; taken_preparing = none; taken_active = none }

run-IsSingle_example : IsSingle (
    Slots.run flight (
      reserving 8
      ∷ claiming_recording 7
      ∷ taking_all
      ∷ reserving 9
      ∷ restoring_active
      ∷ dropping_active 7
      ∷ []))
run-IsSingle_example =
    run-IsSingle flight
      (reserving 8
        ∷ claiming_recording 7
        ∷ taking_all
        ∷ reserving 9
        ∷ restoring_active
        ∷ dropping_active 7
        ∷ [])
      (omega arith, λ e. refl)

reserve_free_example :
    (((reserve 8 recognizing_world.runtime).1 ≡ none) ↔ (
      (recognizing_world.runtime.quitting ≡ false)
      × (held recognizing_world.runtime ≡ 0)
      × (recognizing_world.runtime.audio_cleanup_debts ≡ [])))
    × ((o : StartOutcome)
        → (reserve 8 recognizing_world.runtime).1 ≡ some o
        → (reserve 8 recognizing_world.runtime).0 ≡ recognizing_world.runtime)
reserve_free_example = reserve_free 8 recognizing_world.runtime

leaders-failures_example :
    leaders recognizing_world
      (begins ∷ begins ∷ concludes 0 (err (audio_cleanup_failed 7 "audio" broken)) ∷ begins ∷ [])
    ≤ suc (
        failures (
          begins
          ∷ begins
          ∷ concludes 0 (err (audio_cleanup_failed 7 "audio" broken))
          ∷ begins
          ∷ []))
leaders-failures_example =
    leaders-failures recognizing_world
      (begins ∷ begins ∷ concludes 0 (err (audio_cleanup_failed 7 "audio" broken)) ∷ begins ∷ [])

-- The exit of session 7 has succeeded.
abbrev over : World
over = record recognizing_world { exit = complete (terminated 7) }

complete_run_example :
    (begin_exit (Election.run over (begins ∷ concludes 3 (ok (terminated 8)) ∷ []))).1
    ≡ ended (terminated 7)
complete_run_example =
    complete_run over (terminated 7) (begins ∷ concludes 3 (ok (terminated 8)) ∷ []) refl
