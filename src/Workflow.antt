-- ===== src/Workflow.antt =====
-- crates/remtene-application/src/transcription_orchestrator.rs: the workflow that takes one
-- recording from the shortcut to the delivered text. The children hold its parts.
pub mod State
pub mod Program
pub mod Sections
pub mod Debts
pub mod Feedback
pub mod Audio
pub mod Ending
pub mod Delivery
pub mod Finalization
pub mod Cancel
pub mod Processing
pub mod Finish
pub mod Retry
pub mod Preparation
pub mod Reservation
pub mod Start
pub mod Quit
pub mod Slots
