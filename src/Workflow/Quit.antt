-- ===== src/Workflow/Quit.antt =====
-- `quit` of crates/remtene-application/src/transcription_orchestrator.rs: one leader ends the active
-- work and waits for everything that has begun; the other callers wait for its result.
pub mod Election
use rem_tene_public.Base.{
  ℕ, ◌+◌, true, Option, none, some, is_some, String, ok, err, ◌==◌, if◌then◌else◌,
}
use rem_tene_public.Session.{FailureCategory, fail}
use rem_tene_public.Fence
use rem_tene_public.Ports.{asr_cancel, llm_cancel}
use rem_tene_public.Workflow.State.{
  World, RuntimeState, PreparingStage, PreparingWorkflow, RuntimeStage, ActiveWorkflow,
  AudioCleanupDebt, orchestrator_error, QuitOutcome, idle, terminated, QuitResult, ExitState,
  not_begun, running, complete,
}
use rem_tene_public.Workflow.Program.{
  atom, done, M, pure, throw, ◌>>=◌, ◌>>◌, attempt, perform, section, on_runtime,
}
use rem_tene_public.Workflow.Feedback.{note_error, drop_deadline, hide_recording_hud}
use rem_tene_public.Workflow.Audio.{
  cancel_capture, cleanup_audio, first_audio_cleanup_debt, retry_all_audio_cleanup_debts,
}
use rem_tene_public.Workflow.Ending.{apply_event, invalidate_fence}

pub data ExitRole : Type 0 where
  leader follower : ℕ → ExitRole
  ended : QuitOutcome → ExitRole

-- `ExitCompletion::begin`
unfoldable pub begin_exit : World → World × ExitRole
begin_exit w = elim w.exit [
  | not_begun ↦ (
    record w { exit = running w.next_attempt; next_attempt = w.next_attempt + 1 },
    leader w.next_attempt,
  )
  | running attempt ↦ (w, follower attempt)
  | complete outcome ↦ (w, ended outcome)
]

set_attempt : (ℕ → Option QuitResult) → ℕ → QuitResult → ℕ → Option QuitResult
set_attempt attempts n result j = if j == n then some result else attempts j

after_exit : QuitResult → ExitState
after_exit (ok outcome) = complete outcome
after_exit (err _) = not_begun

-- `ExitCompletion::complete`: the attempt gets its result, then the exit state follows if this
-- attempt is still the current one.
unfoldable pub publish_attempt : ℕ → QuitResult → World → World
unfolding set_attempt
publish_attempt n result w = record w { attempts = set_attempt w.attempts n result }

unfoldable pub conclude_exit : ℕ → QuitResult → World → World
unfolding after_exit
conclude_exit n result w = elim w.exit [
  | running current ↦ if current == n then record w { exit = after_exit result } else w
  | not_begun ↦ w
  | complete _ ↦ w
]

-- The section that takes everything over.
unfoldable pub take_all :
    RuntimeState → RuntimeState × (Option ℕ × Option PreparingWorkflow × Option ActiveWorkflow)
take_all r = (
  record r { quitting = true; starting = none; preparing = none; active = none },
  (r.starting, r.preparing, r.active),
)

preparing_deadline : Option PreparingWorkflow → Option ℕ
preparing_deadline none = none
preparing_deadline (some p) = p.recording_deadline

active_deadline : Option ActiveWorkflow → Option ℕ
active_deadline none = none
active_deadline (some a) = a.recording_deadline

-- The workflows without their deadline guards.
disarmed_preparing : Option PreparingWorkflow → Option PreparingWorkflow
disarmed_preparing none = none
disarmed_preparing (some p) = some (record p { recording_deadline = none })

disarmed_active : Option ActiveWorkflow → Option ActiveWorkflow
disarmed_active none = none
disarmed_active (some a) = some (record a { recording_deadline = none })

invalidate : ℕ → M Unit
invalidate fence = section (λ w. (invalidate_fence fence w, tt))

remove_audio : ℕ → Option String → M Unit
remove_audio id none = pure tt
remove_audio id (some audio) = attempt (cleanup_audio id audio) >>= λ _. pure tt

-- The `match &active.stage` of `run_leader_quit`.
stop_stage : ℕ → RuntimeStage → M Unit
unfolding remove_audio
stop_stage id (RuntimeStage.recording held) = attempt (cancel_capture id held) >>= λ _. pure tt
stop_stage id (RuntimeStage.finishing_audio held) =
    attempt (cancel_capture id held) >>= λ _. pure tt
stop_stage id (RuntimeStage.recognizing request audio) = do
  reply ← perform (asr_cancel request)
  note_error id "asr_cancel" reply
  remove_audio id audio
stop_stage id (RuntimeStage.processing request) = do
  reply ← perform (llm_cancel request)
  note_error id "llm_cancel" reply
stop_stage id (RuntimeStage.cancelling _ _ _) = pure tt
stop_stage id (RuntimeStage.cleaning_audio _ _ _) = pure tt
stop_stage id (RuntimeStage.delivering _) = pure tt
stop_stage id (RuntimeStage.finalizing _) = pure tt

stop_preparing_stage : ℕ → PreparingStage → M Unit
stop_preparing_stage id PreparingStage.starting_audio = pure tt
stop_preparing_stage id (PreparingStage.capturing held) =
    attempt (cancel_capture id held) >>= λ _. pure tt
stop_preparing_stage id (PreparingStage.cancelling held in_flight) =
    if in_flight then pure tt else attempt (cancel_capture id held) >>= λ _. pure tt

-- The outcome, and the fence to wait for.
stop_work : Option ℕ → Option PreparingWorkflow → Option ActiveWorkflow → M (QuitOutcome × Option ℕ)
unfolding invalidate stop_stage stop_preparing_stage
stop_work starting preparing (some a) = do
  invalidate a.lifecycle
  apply_event a.session_id (fail FailureCategory.lifecycle)
  stop_stage a.session_id a.stage
  hide_recording_hud a.session_id
  pure (terminated a.session_id, some a.lifecycle)
stop_work starting (some p) none = do
  invalidate p.lifecycle
  stop_preparing_stage p.session_id p.stage
  hide_recording_hud p.session_id
  pure (terminated p.session_id, some p.lifecycle)
stop_work (some id) none none = pure (terminated id, none)
stop_work none none none = pure (idle, none)

wait_operations : M Unit
wait_operations = atom (λ w. Fence.is_quiescent w.operations) (λ w. w) (λ _. done (ok tt))

wait_fence : Option ℕ → M Unit
wait_fence none = pure tt
wait_fence (some fence) =
    atom (λ w. Fence.is_quiescent (w.fences fence)) (λ w. w) (λ _. done (ok tt))

-- A failed exit puts the workflow back where nothing else is.
unfoldable pub restore_preparing : Option PreparingWorkflow → RuntimeState → RuntimeState
restore_preparing none r = r
restore_preparing (some p) r = if is_some r.preparing then r else record r { preparing = some p }

unfoldable pub restore_active : Option ActiveWorkflow → RuntimeState → RuntimeState
restore_active none r = r
restore_active (some a) r = if is_some r.active then r else record r { active = some a }

conclude :
    QuitOutcome
    → Option PreparingWorkflow
    → Option ActiveWorkflow
    → Option AudioCleanupDebt
    → M QuitOutcome
conclude outcome preparing active none = pure outcome
conclude outcome preparing active (some debt) = do
  on_runtime (λ r. (restore_preparing preparing r, tt))
  on_runtime (λ r. (restore_active active r, tt))
  throw (orchestrator_error debt)

unfoldable pub run_leader_quit : M QuitOutcome
unfolding preparing_deadline active_deadline disarmed_preparing disarmed_active stop_work
    wait_operations wait_fence conclude
run_leader_quit = do
  section (λ w. (record w { operations = Fence.invalidate w.operations }, tt))
  (starting, preparing, active) ← on_runtime take_all
  drop_deadline (preparing_deadline preparing)
  drop_deadline (active_deadline active)
  (outcome, fence) ← stop_work starting (disarmed_preparing preparing) (disarmed_active active)
  wait_operations
  wait_fence fence
  retry_all_audio_cleanup_debts
  debt ← first_audio_cleanup_debt
  conclude outcome (disarmed_preparing preparing) (disarmed_active active) debt

-- The result of an attempt, once it is there; the default is never read behind the test.
unfoldable pub result_or : Option QuitResult → QuitResult
result_or none = ok idle
result_or (some result) = result

follow : ExitRole → M QuitOutcome
follow (leader n) = attempt run_leader_quit >>= λ result. do
  section (λ w. (publish_attempt n result w, tt))
  section (λ w. (conclude_exit n result w, tt))
  done result
follow (follower n) =
    atom (λ w. is_some (w.attempts n)) (λ w. w) (λ w. done (result_or (w.attempts n)))
follow (ended outcome) = pure outcome

unfoldable pub quit : M QuitOutcome
unfolding follow
quit = section begin_exit >>= follow
