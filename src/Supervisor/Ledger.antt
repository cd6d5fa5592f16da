-- ===== src/Supervisor/Ledger.antt =====
-- What the log of the supervisor owes: for each response channel the answers and the places that
-- wait for one, and for each artifact grant its creation, its revocation and its holder.
pub mod Failures
pub mod Answers
pub mod Deadlines
pub mod Commands
pub mod Runs
use rem_tene_public.Base.{ℕ, ◌+◌, Bool, true, false, Option, none, some, List, [], ◌∷◌, ◌==◌, one}
use rem_tene_public.Supervisor.{
  PendingHealth, PendingTranscription, PendingShutdown, Event, health_answer, transcript_answer,
  plain_answer, granted, revoked, SupervisorActor, SupervisorCommand, health, transcribe, cancel,
  shutdown,
}

abbrev pub is_answer : ℕ → Event → Bool
is_answer i (health_answer r _) = r == i
is_answer i (transcript_answer r _) = r == i
is_answer i (plain_answer r _) = r == i
is_answer i _ = false

abbrev pub answers_in : ℕ → List Event → ℕ
answers_in i [] = 0
answers_in i (e ∷ es) = one (is_answer i e) + answers_in i es

abbrev pub waits_health : ℕ → Option PendingHealth → ℕ
waits_health i none = 0
waits_health i (some p) = one (p.response == i)

abbrev pub waits_cancel : ℕ → Option ℕ → ℕ
waits_cancel i none = 0
waits_cancel i (some r) = one (r == i)

abbrev pub waits_transcription : ℕ → Option PendingTranscription → ℕ
waits_transcription i none = 0
waits_transcription i (some p) = one (p.response == i) + waits_cancel i p.cancel_response

abbrev pub waits_shutdown : ℕ → Option PendingShutdown → ℕ
waits_shutdown i none = 0
waits_shutdown i (some p) = one (p.response == i)

-- How often the channel was answered, and how often it waits.
unfoldable pub answered : ℕ → SupervisorActor → ℕ
answered i s = answers_in i s.log

unfoldable pub waiting : ℕ → SupervisorActor → ℕ
waiting i s =
    waits_health i s.pending_health
    + (waits_transcription i s.pending_transcription + waits_shutdown i s.pending_shutdown)

unfoldable pub response_of : SupervisorCommand → ℕ
response_of (health _ r) = r
response_of (transcribe _ r) = r
response_of (cancel _ r) = r
response_of (shutdown _ r) = r
