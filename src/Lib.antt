-- ===== src/Lib.antt =====
-- A dictation application: a recording is started by a shortcut, recognised by a local engine,
-- rewritten by a provider if the user wants it, and delivered into the application that has the
-- focus. This library models the core in crates/remtene-domain/src and crates/remtene-application/src,
-- the protocol with the recognition worker in crates/remtene-contracts/src, and the supervisor of that
-- worker and the store of the history in crates/remtene-adapters/src.
--
-- How the parts interact. A session (Session, crates/remtene-domain/src/session.rs) is the state
-- machine of one recording; Coordinator (crates/remtene-application/src/session_coordinator.rs) holds
-- the one active session. Routes (asr_route.rs and text_route.rs of crates/remtene-application/src)
-- choose an engine and whether a provider is asked. Fence (LifecycleFence of
-- crates/remtene-application/src/ports.rs) counts irreversible actions that have begun. Ports has the
-- types that cross the port traits of ports.rs, and `Call`, one constructor for each method that the
-- orchestrator calls. Workflow is
-- crates/remtene-application/src/transcription_orchestrator.rs, which drives all of these:
-- * Workflow/State has RuntimeState, the stages and the outcomes; Workflow/Sections has the bodies of
--   the critical sections as functions on that state, under the names of the methods.
-- * Workflow/Program has the programs: an async function is a tree of port calls and critical
--   sections. Between two sections any other operation may run, and every reply is possible
--   (Workflow/Program/Execution). Workflow/Program/Ensures is a logic for all runs of a program.
-- * Workflow/Debts and Workflow/Audio are the audio cleanup debts; Workflow/Feedback and
--   Workflow/Ending the diagnostics, the HUD and the end of a session.
-- * Workflow/Reservation, Workflow/Preparation and Workflow/Start are start and prepare_recording;
--   Workflow/Finish and Workflow/Processing are finish_recording and process_with_llm;
--   Workflow/Delivery and Workflow/Finalization are deliver; Workflow/Cancel, Workflow/Retry and
--   Workflow/Quit are cancel_recording, retry_audio_cleanup with recording_limit_elapsed, and quit.
-- * Workflow/Slots has all sections that write the slots of RuntimeState as one step function;
--   Workflow/Slots/Single, Workflow/Quit/Election, Workflow/Reservation/Selection,
--   Workflow/Processing/Provenance, Workflow/Delivery/Once, Workflow/Finalization/Once and
--   Workflow/Finalization/Writes are proofs about these, and the files named Calm and Rules serve them.
-- A large function is split at its awaits: a helper named after_x is the rest of it after x.
-- Contract is the protocol between the core and the recognition worker
-- (crates/remtene-contracts/src/worker.rs): Contract/Messages has the messages, Contract/Validation and
-- Contract/Timestamp what makes an envelope valid, Contract/Artifact the text of an artifact id, and
-- Contract/State the protocol state that both ends keep, with Contract/State/Requests and
-- Contract/State/Handshake as its proofs. Supervisor is the actor that owns the worker process
-- (crates/remtene-adapters/src/asr_worker.rs): it checks each envelope with Contract/State.
-- Supervisor/Process starts and fails the process, Supervisor/Commands and Supervisor/Shutdown take the
-- commands, Supervisor/Answers the messages of the worker, Supervisor/Deadlines the clock, and
-- Supervisor/Loop is the loop; Supervisor/Frames cuts the worker's output into envelopes, with
-- Supervisor/Frames/Stream, Supervisor/Frames/Lines and Supervisor/Frames/Ends as proofs;
-- Supervisor/Ledger, Supervisor/Sound and Supervisor/Timing are proofs.
-- History is crates/remtene-adapters/src/file_history_store.rs: History/Policy is the retention policy,
-- History/Store the operations on the file. Modifier is the press state of
-- crates/remtene-platform/src/modifier_shortcut.rs.
-- Settings is crates/remtene-domain/src/settings.rs. Base has the names that all files share, Tests
-- the runs on concrete values.
--
-- Choices. Texts are lists of Unicode scalar values, UUIDs and timestamps are numbers, durations
-- are milliseconds, opaque references are the strings that they wrap. Programs are well-founded
-- trees, so no fuel is needed; only the thread that reads the worker's output has fuel, one for
-- each frame, and one more than the buffers and bytes of the output is shown to be enough. A mutex
-- is held for one section; waiting for the gate, for the barrier or for the result of an exit is a
-- section with a test, and is entered only where the test holds. An adapter is an arbitrary reply
-- to each call. The supervisor is given, for each step, what the outside does in it: the clock, the
-- new ids, whether a write succeeds, and how a new worker greets. A file operation is given the
-- outcome of each of its system calls, and a call on a file that fails may leave any content in it.
-- The deadline that a duration leads to is given to the supervisor like the clock. A duration below
-- one millisecond has no form. JSON and the text of UUIDs are parameters with the law that what is
-- written is read back.
--
-- Not modelled: poisoned locks (but that of the history store) and the errors that report them,
-- trace output, wakers, Debug output, the controllers of history, settings, engines and providers,
-- the contracts of the views, the other adapters, the launch configuration of the worker process,
-- the directory of grants, the rest of the platform, the worker itself and the desktop shell.
pub mod Base
pub mod Settings
pub mod Session
pub mod Routes
pub mod Coordinator
pub mod Fence
pub mod Contract
pub mod Supervisor
pub mod History
pub mod Modifier
pub mod Ports
pub mod Workflow
pub mod Tests
