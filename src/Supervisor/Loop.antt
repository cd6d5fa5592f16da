-- ===== src/Supervisor/Loop.antt =====
-- The loop of `SupervisorActor::run` (crates/remtene-adapters/src/asr_worker.rs), one turn at a
-- time: the worker's output is read, the deadlines are enforced, and one command is awaited.
use rem_tene_public.Base.{Bool, true, false, List, [], ◌∷◌, Result, if◌then◌else◌}
use rem_tene_public.Contract.Messages.{WorkerToCoreEnvelope}
use rem_tene_public.Supervisor.{Outside, SupervisorCommand, SupervisorActor}
use rem_tene_public.Supervisor.Process.{terminate_process}
use rem_tene_public.Supervisor.Shutdown.{handle_command}
use rem_tene_public.Supervisor.Deadlines.{enforce_deadlines, read_output, disconnect}

-- What `recv_timeout` gives.
pub data Received : Type 0 where
  command : Outside → SupervisorCommand → Received
  timeout : Received
  disconnected : Outside → Received

pub record Turn : Type 0 where
  pub output : List (Outside × Result (Unit {0}) WorkerToCoreEnvelope)
  pub clock : Outside
  pub received : Received

unfoldable pub drain_worker_output :
    List (Outside × Result (Unit {0}) WorkerToCoreEnvelope) → SupervisorActor → SupervisorActor
drain_worker_output [] s = s
drain_worker_output ((outside, event) ∷ events) s =
    drain_worker_output events (read_output outside event s)

-- The end of the loop.
unfoldable pub finish : SupervisorActor × Bool → SupervisorActor × Bool
unfolding terminate_process
finish (s, true) = (terminate_process s, true)
finish (s, false) = (s, false)

unfoldable pub receive : Received → SupervisorActor → SupervisorActor × Bool
unfolding finish
receive (command outside c) s = finish (handle_command outside c s)
receive timeout s = (s, false)
receive (disconnected outside) s = (disconnect outside s, true)

-- The state after a turn, and whether the loop is over.
unfoldable pub turn : Turn → SupervisorActor → SupervisorActor × Bool
unfolding receive terminate_process
turn t s =
    let drained = drain_worker_output t.output s in
    if drained.closed
    then (terminate_process drained, true)
    else receive t.received (enforce_deadlines t.clock drained)

-- Nothing follows when the loop is over.
unfoldable pub unless_over :
    (SupervisorActor → SupervisorActor × Bool) → SupervisorActor × Bool → SupervisorActor × Bool
unless_over rest (s, true) = (s, true)
unless_over rest (s, false) = rest s

unfoldable pub run : List Turn → SupervisorActor → SupervisorActor × Bool
unfolding unless_over
run [] s = (s, false)
run (t ∷ ts) s = unless_over (run ts) (turn t s)
