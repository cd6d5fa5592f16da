-- ===== src/Workflow/Audio.antt =====
-- Removing captures and recordings in crates/remtene-application/src/transcription_orchestrator.rs:
-- a removal that fails is recorded as a debt, one that succeeds clears it.
pub mod Calm
use rem_tene_public.Base.{
  ℕ, Bool, false, Option, none, some, List, [], ◌∷◌, String, Result, ok, err,
}
use rem_tene_public.Routes.{PortError}
use rem_tene_public.Ports.{Fallible, audio_cancel, audio_cleanup}
use rem_tene_public.Workflow.State.{
  RuntimeState, AudioCleanupDebt, AudioCleanupResource, capture, finalized, OrchestratorError,
  orchestrator_error,
}
use rem_tene_public.Workflow.Program.{M, pure, throw, ◌>>=◌, ◌>>◌, attempt, perform, on_runtime}
use rem_tene_public.Workflow.Sections.{set_audio_cleanup_in_flight}
use rem_tene_public.Workflow.Debts.{record_debt, clear_debt, first_debt}
use rem_tene_public.Workflow.Feedback.{record_port_error, read_runtime}

abbrev pub with_debts :
    (List AudioCleanupDebt → List AudioCleanupDebt) → RuntimeState → RuntimeState × Unit {0}
with_debts f r = (record r { audio_cleanup_debts = f r.audio_cleanup_debts }, tt)

unfoldable pub record_audio_cleanup_debt : AudioCleanupDebt → M Unit
record_audio_cleanup_debt debt = on_runtime (with_debts (record_debt debt))

unfoldable pub clear_audio_cleanup_debt : ℕ → AudioCleanupResource → M Unit
clear_audio_cleanup_debt id resource = on_runtime (with_debts (clear_debt id resource))

unfoldable pub first_audio_cleanup_debt : M (Option AudioCleanupDebt)
first_audio_cleanup_debt = read_runtime (λ r. first_debt r.audio_cleanup_debts)

-- The two halves of `match self.ports.audio.…await` that `cancel_capture` and `cleanup_audio` share.
unfoldable pub settle_removal : ℕ → String → AudioCleanupResource → Fallible Unit → M Unit
settle_removal id phase resource (ok _) = clear_audio_cleanup_debt id resource
settle_removal id phase resource (err error) =
    let debt : AudioCleanupDebt = record {
      session_id = id;
      phase = phase;
      resource = resource;
      error = error;
    } in
    do
      record_port_error (some id) phase error
      record_audio_cleanup_debt debt
      throw (orchestrator_error debt)

unfoldable pub cancel_capture : ℕ → String → M Unit
cancel_capture id held = do
  reply ← perform (audio_cancel held)
  settle_removal id "audio_cancel" (capture held) reply

unfoldable pub cleanup_audio : ℕ → String → M Unit
cleanup_audio id audio = do
  reply ← perform (audio_cleanup audio)
  settle_removal id "audio_cleanup" (finalized audio) reply

unfoldable pub remove_resource : ℕ → AudioCleanupResource → M Unit
remove_resource id (capture held) = cancel_capture id held
remove_resource id (finalized audio) = cleanup_audio id audio

unfoldable pub set_in_flight : ℕ → Bool → M Unit
set_in_flight id value = on_runtime (λ r. (set_audio_cleanup_in_flight id value r, tt))

-- `if let Err(error) = … { self.set_audio_cleanup_in_flight_if_current(…, false)?; return Err(error) }`
unfoldable pub release_on_error : ℕ → Result OrchestratorError (Unit {0}) → M Unit
release_on_error id (ok _) = pure tt
release_on_error id (err error) = set_in_flight id false >> throw error

unfoldable pub or_release : ℕ → M Unit → M Unit
or_release id removal = attempt removal >>= release_on_error id

retry_debts : List AudioCleanupDebt → M Unit
retry_debts [] = pure tt
retry_debts (debt ∷ debts) = do
  attempt (remove_resource debt.session_id debt.resource)
  retry_debts debts

unfoldable pub retry_all_audio_cleanup_debts : M Unit
unfolding retry_debts
retry_all_audio_cleanup_debts = do
  debts ← read_runtime (λ r. r.audio_cleanup_debts)
  retry_debts debts
