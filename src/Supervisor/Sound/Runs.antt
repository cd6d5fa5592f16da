-- ===== src/Supervisor/Sound/Runs.antt =====
-- When the loop of the supervisor is over, nothing is left without an answer.
use rem_tene_public.Base.{
  ◌≡◌, refl, ℕ, Bool, true, false, not, ◌&&◌, ◌||◌, none, List, [], ◌∷◌, Result, ok, err, arith,
  if◌then◌else◌, is_some,
}
use rem_tene_public.Routes.{PortError}
use rem_tene_public.Contract.Messages.{CoreToWorkerMessage, WorkerToCoreEnvelope}
use rem_tene_public.Supervisor.{
  Outside, SupervisorActor, WorkerLaunchConfig, new, SupervisorCommand, health, transcribe, cancel,
  shutdown, plain_answer,
}
use rem_tene_public.Supervisor.Errors.{worker_busy_error, supervisor_closed_error}
use rem_tene_public.Supervisor.Process.{emit, terminate_process, fail_all, send_to_worker}
use rem_tene_public.Supervisor.Commands.{envelope_of, is_busy}
use rem_tene_public.Supervisor.Shutdown.{
  close_health, sent_shutdown, start_shutdown, handle_command,
}
use rem_tene_public.Supervisor.Deadlines.{enforce_deadlines, read_output, disconnect}
use rem_tene_public.Supervisor.Loop.{
  Received, command, timeout, disconnected, Turn, drain_worker_output, finish, receive, turn,
  unless_over, run,
}
use rem_tene_public.Supervisor.Ledger.{answered}
use rem_tene_public.Supervisor.Ledger.Failures.{
  IsIdle, idle-waiting, fail_all_lem, fail_process_lem,
}
use rem_tene_public.Supervisor.Ledger.Runs.{commands, run-answers}
use rem_tene_public.Supervisor.Sound.{IsSound, idle-IsSound, read_output-IsSound}
use rem_tene_public.Supervisor.Sound.Deadlines.{enforce_deadlines-IsSound}
use rem_tene_public.Supervisor.Sound.Commands.{handle_command-IsSound}

abbrev pub is_command : Received → Bool
is_command (command _ _) = true
is_command timeout = false
is_command (disconnected _) = false

-- The deadlines of the turn close the supervisor, and yet a command is taken in the same turn.
unfoldable pub is_late : Turn → SupervisorActor → Bool
is_late t s =
    let drained = drain_worker_output t.output s in
    not drained.closed && ((enforce_deadlines t.clock drained).closed && is_command t.received)

unfoldable pub any_late : List Turn → SupervisorActor → Bool
any_late [] s = false
any_late (t ∷ ts) s =
    let rest = any_late ts (turn t s).0 in is_late t s || (if (turn t s).1 then false else rest)

drain-IsSound :
    (output : List (Outside × Result (Unit {0}) WorkerToCoreEnvelope)) (s : SupervisorActor)
    → IsSound s
    → IsSound (drain_worker_output output s)
unfolding drain_worker_output
drain-IsSound [] s h = h
drain-IsSound ((outside, event) ∷ events) s h =
    drain-IsSound events (read_output outside event s) (read_output-IsSound outside event s h)

-- Sound, and idle if the loop is over.
abbrev Ends : SupervisorActor × Bool → Type 0
Ends r = IsSound r.0 × (r.1 ≡ true → IsIdle r.0)

idle-Ends : (s : SupervisorActor) → IsIdle s → Ends (terminate_process s, true)
unfolding terminate_process
idle-Ends s h = (idle-IsSound (terminate_process s) h, λ _. h)

finish-Ends : (r : SupervisorActor × Bool) → Ends r → Ends (finish r)
unfolding finish
finish-Ends (s, true) h = idle-Ends s (h.1 refl)
finish-Ends (s, false) h = h

sent_shutdown_over :
    (outside : Outside) (close : Bool) (r : ℕ)
    (sent : SupervisorActor × Result PortError (Unit {0}))
    → (sent_shutdown outside close r sent).1 ≡ true
    → IsIdle (sent_shutdown outside close r sent).0
unfolding sent_shutdown
sent_shutdown_over outside close r (s, err error) h = (fail_process_lem 0 outside error _).1
sent_shutdown_over outside close r (s, ok _) h = cc

if_over :
    (b : Bool) (x y : SupervisorActor × Bool)
    → (b ≡ true → x.1 ≡ true → IsIdle x.0)
    → (y.1 ≡ true → IsIdle y.0)
    → (if b then x else y).1 ≡ true
    → IsIdle (if b then x else y).0
if_over true x y h k = h refl
if_over false x y h k = k

-- A shutdown that ends the loop leaves nothing pending.
start_shutdown_over :
    (outside : Outside) (close : Bool) (r : ℕ) (s : SupervisorActor)
    → IsSound s
    → (start_shutdown outside close r s).1 ≡ true
    → IsIdle (start_shutdown outside close r s).0
unfolding start_shutdown emit IsSound
start_shutdown_over outside close r s (none_idle, _, _, _) =
    let e =
      envelope_of outside none none
        (CoreToWorkerMessage.shutdown record { grace_period_ms = s.config.shutdown_timeout }) in
    let sent = send_to_worker outside e (close_health s.pending_health s) in
    let stop : SupervisorActor × Bool = (emit (plain_answer r (ok tt)) s, close) in
    let busy : SupervisorActor × Bool = (emit (plain_answer r (err worker_busy_error)) s, false) in
    let down = sent_shutdown outside close r sent in
    if_over (is_some s.pending_shutdown)
      (emit (plain_answer r (err supervisor_closed_error)) s, false)
      (if not close && is_busy s then busy else if not (is_some s.process) then stop else down)
      (λ _ x. cc)
      (if_over (not close && is_busy s) busy (if not (is_some s.process) then stop else down)
        (λ _ x. cc)
        (if_over (not (is_some s.process)) stop down (λ gone _. none_idle (ground arith))
          (sent_shutdown_over outside close r sent)))

handle_command-Ends :
    (outside : Outside) (c : SupervisorCommand) (s : SupervisorActor)
    → s.closed ≡ false
    → IsSound s
    → Ends (handle_command outside c s)
unfolding handle_command
handle_command-Ends outside (health engine r) s o h =
    (handle_command-IsSound outside (health engine r) s o h, λ x. cc)
handle_command-Ends outside (transcribe request r) s o h =
    (handle_command-IsSound outside (transcribe request r) s o h, λ x. cc)
handle_command-Ends outside (cancel request r) s o h =
    (handle_command-IsSound outside (cancel request r) s o h, λ x. cc)
handle_command-Ends outside (shutdown close r) s o h = (
  handle_command-IsSound outside (shutdown close r) s o h,
  start_shutdown_over outside close r s h,
)

receive-Ends :
    (r : Received) (s : SupervisorActor)
    → s.closed && is_command r ≡ false
    → IsSound s
    → Ends (receive r s)
unfolding receive disconnect
receive-Ends (command outside c) s o h =
    finish-Ends (handle_command outside c s) (handle_command-Ends outside c s (ground arith) h)
receive-Ends timeout s o h = (h, λ x. cc)
receive-Ends (disconnected outside) s o h =
    idle-Ends (fail_all outside supervisor_closed_error s)
      (fail_all_lem 0 outside supervisor_closed_error s).1

if-Ends :
    (b : Bool) (x y : SupervisorActor × Bool)
    → (b ≡ true → Ends x)
    → (b ≡ false → Ends y)
    → Ends (if b then x else y)
if-Ends true x y h k = h refl
if-Ends false x y h k = k refl

closed-IsIdle : (s : SupervisorActor) → IsSound s → s.closed ≡ true → IsIdle s
unfolding IsSound
closed-IsIdle s (_, _, _, h) = h

turn-Ends : (t : Turn) (s : SupervisorActor) → is_late t s ≡ false → IsSound s → Ends (turn t s)
unfolding turn is_late
turn-Ends t s o h =
    let drained = drain_worker_output t.output s in
    let sound = drain-IsSound t.output s h in
    let enforced = enforce_deadlines t.clock drained in
    if-Ends drained.closed (terminate_process drained, true) (receive t.received enforced)
      (λ over. idle-Ends drained (closed-IsIdle drained sound over))
      (λ going.
        receive-Ends t.received enforced (ground arith)
          (enforce_deadlines-IsSound t.clock drained sound))

unless_over-Ends :
    (rest : SupervisorActor → SupervisorActor × Bool) (r : SupervisorActor × Bool)
    → Ends r
    → (r.1 ≡ false → IsSound r.0 → Ends (rest r.0))
    → Ends (unless_over rest r)
unfolding unless_over
unless_over-Ends rest (s, true) h k = h
unless_over-Ends rest (s, false) h k = k refl h.0

run-Ends :
    (ts : List Turn) (s : SupervisorActor) → any_late ts s ≡ false → IsSound s → Ends (run ts s)
unfolding run any_late
run-Ends [] s o h = (h, λ x. cc)
run-Ends (t ∷ ts) s o h =
    unless_over-Ends (run ts) (turn t s) (turn-Ends t s (ground arith) h)
      (λ going sound. run-Ends ts (turn t s).0 (ground arith) sound)

new-IsSound : (config : WorkerLaunchConfig) → IsSound (new config)
unfolding new IsSound
new-IsSound config = ground arith

-- As long as no command is taken in the turn in which a deadline closes the supervisor, after any
-- turns of the loop: nothing is pending without a worker process, nor in a closed supervisor; a
-- shutdown leaves no health check pending; and no health check and transcription are pending together.
pub run-IsSound :
    (config : WorkerLaunchConfig) (ts : List Turn)
    → any_late ts (new config) ≡ false
    → IsSound (run ts (new config)).0
run-IsSound config ts o = (run-Ends ts (new config) o (new-IsSound config)).0

-- As long as no command is taken in the turn in which a deadline closes the supervisor: when the
-- loop is over, each response channel was answered exactly as often as a command came with it.
pub over-answers :
    (i : ℕ) (config : WorkerLaunchConfig) (ts : List Turn)
    → any_late ts (new config) ≡ false
    → (run ts (new config)).1 ≡ true
    → answered i (run ts (new config)).0 ≡ commands i ts (new config)
over-answers i config ts o over =
    let left =
      idle-waiting i (run ts (new config)).0
        ((run-Ends ts (new config) o (new-IsSound config)).1 over) in
    let account = run-answers i config ts in omega arith
