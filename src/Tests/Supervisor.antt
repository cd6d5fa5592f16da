-- ===== src/Tests/Supervisor.antt =====
-- Runs of the supervisor (crates/remtene-adapters/src/asr_worker.rs) on concrete turns.
use rem_tene_public.Base.{
  ℕ, ◌≡◌, ◌+◌, refl, Bool, true, false, Option, none, some, List, [], ◌∷◌, map, Result, ok, err,
}
use rem_tene_public.Settings.{qwen}
use rem_tene_public.Contract.Messages.{
  WorkerEngineId, HealthStatus, WorkerToCoreMessage, WorkerToCoreEnvelope,
}
use rem_tene_public.Supervisor.{
  WorkerLaunchConfig, Launch, answers, Outside, PendingHealth, SupervisorActor, new,
  SupervisorCommand, health, shutdown,
}
use rem_tene_public.Supervisor.Deadlines.{enforce_deadlines}
use rem_tene_public.Supervisor.Loop.{Turn, command, timeout, run}
use rem_tene_public.Supervisor.Ledger.{answered, waiting}
use rem_tene_public.Supervisor.Ledger.Runs.{commands, run-answers}
use rem_tene_public.Supervisor.Sound.{IsSound}
use rem_tene_public.Supervisor.Sound.Runs.{any_late, run-IsSound, over-answers}
use rem_tene_public.Supervisor.Timing.{IsTimely, enforce_deadlines-IsTimely}
use rem_tene_public.Tests.Contract.{stamp, of_worker, ready_message}

abbrev config : WorkerLaunchConfig
config = record {
  core_version = 49 ∷ [];
  qwen_model_id = 113 ∷ [];
  whisper_model_id = 119 ∷ [];
  health_timeout = 2000;
  cancel_timeout = 500;
  shutdown_timeout = 1000;
}

-- At this time everything works, and a new worker greets as it should.
abbrev fine : ℕ → Outside
fine now = record {
  now = now;
  deadline_after = λ duration. now + duration;
  new_id = 5;
  hello_id = 3;
  message_id = 4;
  sent_at = stamp;
  hello_written = true;
  written = true;
  launch = answers (of_worker none none ready_message);
  source = ok (some "a.wav");
  granted = ok 6;
  revoked = true;
}

abbrev turn_at : ℕ → List WorkerToCoreEnvelope → Option (SupervisorCommand) → Turn
turn_at now envelopes c = record {
  output = map (λ e. (fine now, ok e)) envelopes;
  clock = fine now;
  received = elim c [ none ↦ timeout | some c ↦ command (fine now) c ];
}

abbrev healthy : WorkerToCoreEnvelope
healthy = of_worker none (some 5) (
    WorkerToCoreMessage.health_result record {
      engine_id = WorkerEngineId.qwen;
      model_id = 113 ∷ [];
      model_version = 49 ∷ [];
      status = HealthStatus.healthy;
      device_class = 49 ∷ [];
      safe_error_code = none;
    })

abbrev shut_down : WorkerToCoreEnvelope
shut_down =
    of_worker none none (WorkerToCoreMessage.shutdown_complete record { worker_version = 49 ∷ [] })

-- A health check on channel 1 that is answered, and a shutdown on channel 2 that completes.
abbrev day : List Turn
day =
    turn_at 10 [] (some (health qwen 1))
    ∷ turn_at 20 (healthy ∷ []) (some (shutdown true 2))
    ∷ turn_at 30 (shut_down ∷ []) none
    ∷ []

run-answers_example :
    answered 1 (run day (new config)).0 + waiting 1 (run day (new config)).0
    ≡ commands 1 day (new config)
run-answers_example = run-answers 1 config day

-- No command comes late on this day, it ends with the supervisor, and the health check was answered.
day_ends :
    (any_late day (new config) ≡ false)
    × ((run day (new config)).1 ≡ true)
    × (answered 1 (run day (new config)).0 ≡ 1)
unfolding any_late rem_tene_public.Supervisor.Sound.Runs.is_late run new enforce_deadlines
    rem_tene_public.Supervisor.Loop.drain_worker_output rem_tene_public.Supervisor.Loop.turn
    rem_tene_public.Supervisor.Shutdown.handle_command
    rem_tene_public.Supervisor.Deadlines.read_output
    rem_tene_public.Supervisor.Commands.start_health
    rem_tene_public.Supervisor.Process.ensure_worker rem_tene_public.Supervisor.Process.send
    rem_tene_public.Contract.State.observe_core rem_tene_public.Contract.State.observe_worker
    rem_tene_public.Contract.Validation.validate_core
    rem_tene_public.Contract.Validation.validate_worker rem_tene_public.Contract.State.new
    rem_tene_public.Supervisor.Process.core_envelope
    rem_tene_public.Contract.Timestamp.is_utc_rfc3339 rem_tene_public.Base.Text.is_empty
    rem_tene_public.Base.Text.trim rem_tene_public.Base.Text.is_whitespace
    rem_tene_public.Supervisor.Commands.worker_engine rem_tene_public.Supervisor.model_id
    rem_tene_public.Supervisor.Process.send_to_worker
    rem_tene_public.Supervisor.Shutdown.start_shutdown rem_tene_public.Supervisor.Process.emit
    rem_tene_public.Supervisor.Process.fail_process
    rem_tene_public.Supervisor.Process.terminate_process rem_tene_public.Contract.State.step_core
    rem_tene_public.Contract.State.step_worker rem_tene_public.Contract.State.first_missing
    rem_tene_public.Base.Sets.all_fresh rem_tene_public.Supervisor.Answers.handle_worker_envelope
    rem_tene_public.Supervisor.Answers.complete_health
    rem_tene_public.Supervisor.Answers.complete_shutdown answered
day_ends = (refl, refl, refl)

run-IsSound_example : IsSound (run day (new config)).0
run-IsSound_example = run-IsSound config day day_ends.0

over-answers_example : answered 2 (run day (new config)).0 ≡ commands 2 day (new config)
over-answers_example = over-answers 2 config day day_ends.0 day_ends.1

-- A health check whose deadline is over.
abbrev waits : SupervisorActor
waits = record (new config) {
  pending_health =
      some
        record { request_id = 5; engine = qwen; model_id = 113 ∷ []; deadline = 100; response = 1 };
}

enforce_deadlines-IsTimely_example : IsTimely 100 (enforce_deadlines (fine 100) waits)
enforce_deadlines-IsTimely_example = enforce_deadlines-IsTimely (fine 100) waits

-- The shutdown is not answered in time, and a health check on channel 3 comes in the turn that finds
-- this out.
abbrev late_day : List Turn
late_day =
    turn_at 10 [] (some (health qwen 1))
    ∷ turn_at 20 (healthy ∷ []) (some (shutdown true 2))
    ∷ turn_at 2000 [] (some (health qwen 3))
    ∷ turn_at 2010 [] none
    ∷ []

-- The loop is over, and the late health check still waits for an answer.
late_health_waits :
    (any_late late_day (new config) ≡ true)
    × ((run late_day (new config)).1 ≡ true)
    × (answered 3 (run late_day (new config)).0 ≡ 0)
    × (waiting 3 (run late_day (new config)).0 ≡ 1)
unfolding any_late rem_tene_public.Supervisor.Sound.Runs.is_late run new enforce_deadlines
    rem_tene_public.Supervisor.Loop.drain_worker_output rem_tene_public.Supervisor.Loop.turn
    rem_tene_public.Supervisor.Shutdown.handle_command
    rem_tene_public.Supervisor.Deadlines.read_output
    rem_tene_public.Supervisor.Commands.start_health
    rem_tene_public.Supervisor.Process.ensure_worker rem_tene_public.Supervisor.Process.send
    rem_tene_public.Contract.State.observe_core rem_tene_public.Contract.State.observe_worker
    rem_tene_public.Contract.Validation.validate_core
    rem_tene_public.Contract.Validation.validate_worker rem_tene_public.Contract.State.new
    rem_tene_public.Supervisor.Process.core_envelope
    rem_tene_public.Contract.Timestamp.is_utc_rfc3339 rem_tene_public.Base.Text.is_empty
    rem_tene_public.Base.Text.trim rem_tene_public.Base.Text.is_whitespace
    rem_tene_public.Supervisor.Commands.worker_engine rem_tene_public.Supervisor.model_id
    rem_tene_public.Supervisor.Process.send_to_worker
    rem_tene_public.Supervisor.Shutdown.start_shutdown rem_tene_public.Supervisor.Process.emit
    rem_tene_public.Supervisor.Process.fail_process
    rem_tene_public.Supervisor.Process.terminate_process rem_tene_public.Contract.State.step_core
    rem_tene_public.Contract.State.step_worker rem_tene_public.Contract.State.first_missing
    rem_tene_public.Base.Sets.all_fresh rem_tene_public.Supervisor.Answers.handle_worker_envelope
    rem_tene_public.Supervisor.Answers.complete_health
    rem_tene_public.Supervisor.Answers.complete_shutdown answered waiting
    rem_tene_public.Supervisor.Process.fail_all
late_health_waits = (refl, refl, refl, refl)
