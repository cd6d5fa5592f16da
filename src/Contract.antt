-- ===== src/Contract.antt =====
-- crates/remtene-contracts/src: the messages between the application and the worker process that
-- recognises speech, their validation, and the protocol state that both ends keep.
pub mod Artifact
pub mod Messages
pub mod Timestamp
pub mod Validation
pub mod State
