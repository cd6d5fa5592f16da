-- ===== src/Supervisor/Ledger/Runs.antt =====
-- The account of each response channel over a run of the supervisor.
use rem_tene_public.Base.{
  ◌≡◌, refl, ◌∙◌, ℕ, ◌+◌, Bool, true, false, List, [], ◌∷◌, Result, arith, one, ◌==◌, if◌then◌else◌,
}
use rem_tene_public.Contract.Messages.{WorkerToCoreEnvelope}
use rem_tene_public.Supervisor.{Outside, SupervisorActor, WorkerLaunchConfig, new}
use rem_tene_public.Supervisor.Errors.{supervisor_closed_error}
use rem_tene_public.Supervisor.Process.{terminate_process}
use rem_tene_public.Supervisor.Shutdown.{handle_command}
use rem_tene_public.Supervisor.Deadlines.{enforce_deadlines, disconnect}
use rem_tene_public.Supervisor.Loop.{
  Received, command, timeout, disconnected, Turn, drain_worker_output, finish, receive, turn,
  unless_over, run,
}
use rem_tene_public.Supervisor.Ledger.{answered, waiting, response_of}
use rem_tene_public.Supervisor.Ledger.Failures.{owed, fail_all_lem}
use rem_tene_public.Supervisor.Ledger.Answers.{Keeps, read_output-Keeps}
use rem_tene_public.Supervisor.Ledger.Deadlines.{enforce_deadlines-Keeps}
use rem_tene_public.Supervisor.Ledger.Commands.{handle_command-Owes}

-- Whether this was a command for the channel.
abbrev pub asks_for : ℕ → Received → ℕ
asks_for i (command _ c) = one (response_of c == i)
asks_for i timeout = 0
asks_for i (disconnected _) = 0

-- How many commands with this channel a turn takes from the queue, and a run.
unfoldable pub taken : ℕ → Turn → SupervisorActor → ℕ
taken i t s = if (drain_worker_output t.output s).closed then 0 else asks_for i t.received

unfoldable pub commands : ℕ → List Turn → SupervisorActor → ℕ
unfolding taken
commands i [] s = 0
commands i (t ∷ ts) s =
    let rest = commands i ts (turn t s).0 in taken i t s + (if (turn t s).1 then 0 else rest)

drain-Keeps :
    (i : ℕ) (output : List (Outside × Result (Unit {0}) WorkerToCoreEnvelope)) (s : SupervisorActor)
    → Keeps i s (drain_worker_output output s)
unfolding drain_worker_output
drain-Keeps i [] s = refl
drain-Keeps i ((outside, event) ∷ events) s =
    drain-Keeps i events _ ∙ read_output-Keeps i outside event s

terminate-Keeps : (i : ℕ) (s : SupervisorActor) → Keeps i s (terminate_process s)
unfolding terminate_process answered waiting
terminate-Keeps i s = refl

finish-Keeps : (i : ℕ) (r : SupervisorActor × Bool) → Keeps i r.0 (finish r).0
unfolding finish
finish-Keeps i (s, true) = terminate-Keeps i s
finish-Keeps i (s, false) = refl

receive-owed :
    (i : ℕ) (r : Received) (s : SupervisorActor) → owed i (receive r s).0 ≡ asks_for i r + owed i s
unfolding receive disconnect
receive-owed i (command outside c) s =
    finish-Keeps i (handle_command outside c s) ∙ handle_command-Owes i outside c s
receive-owed i timeout s = omega arith
receive-owed i (disconnected outside) s =
    terminate-Keeps i _ ∙ (fail_all_lem i outside supervisor_closed_error s).0 ∙ omega arith

turn-owed : (i : ℕ) (t : Turn) (s : SupervisorActor) → owed i (turn t s).0 ≡ taken i t s + owed i s
unfolding turn taken
turn-owed i t s =
    let drained = drain_worker_output t.output s in
    let kept = drain-Keeps i t.output s in
    let late = terminate-Keeps i drained in
    let enforced = enforce_deadlines-Keeps i t.clock drained in
    let handled = receive-owed i t.received (enforce_deadlines t.clock drained) in ground arith

unless_over-owed :
    (i n : ℕ) (rest : SupervisorActor → SupervisorActor × Bool) (r : SupervisorActor × Bool)
    → owed i (rest r.0).0 ≡ n + owed i r.0
    → owed i (unless_over rest r).0 ≡ (if r.1 then 0 else n) + owed i r.0
unfolding unless_over
unless_over-owed i n rest (s, true) h = omega arith
unless_over-owed i n rest (s, false) h = h

run-owed :
    (i : ℕ) (ts : List Turn) (s : SupervisorActor)
    → owed i (run ts s).0 ≡ commands i ts s + owed i s
unfolding run commands
run-owed i [] s = omega arith
run-owed i (t ∷ ts) s =
    let later =
      unless_over-owed i (commands i ts (turn t s).0) (run ts) (turn t s)
        (run-owed i ts (turn t s).0) in
    let now = turn-owed i t s in omega arith

new-owed : (i : ℕ) (config : WorkerLaunchConfig) → owed i (new config) ≡ 0
unfolding new answered waiting
new-owed i config = omega arith

-- After any turns of the loop, and for each response channel: the answers that it was given and the
-- places that still wait to give it one are together as many as the commands that came with it.
pub run-answers :
    (i : ℕ) (config : WorkerLaunchConfig) (ts : List Turn)
    → answered i (run ts (new config)).0 + waiting i (run ts (new config)).0
      ≡ commands i ts (new config)
run-answers i config ts =
    let account = run-owed i ts (new config) in let start = new-owed i config in omega arith
