-- ===== src/Workflow/Audio/Calm.antt =====
-- The removals of crates/remtene-application/src/transcription_orchestrator.rs are quiet.
use rem_tene_public.Base.{ℕ, Bool, false, some, List, refl, String, Result, ok, err, arith}
use rem_tene_public.Ports.{audio_cancel, audio_cleanup, Fallible}
use rem_tene_public.Workflow.State.{
  RuntimeState, AudioCleanupDebt, context_of, AudioCleanupResource, OrchestratorError,
}
use rem_tene_public.Workflow.Program.{M, on_runtime}
use rem_tene_public.Workflow.Program.Quiet.{
  Quiet, IsFrozen, Quiet-perform, Quiet-on_runtime, Quiet-pure, Quiet-bind, Quiet-throw,
  Quiet-attempt,
}
use rem_tene_public.Workflow.Audio.{
  record_audio_cleanup_debt, clear_audio_cleanup_debt, settle_removal, cancel_capture,
  cleanup_audio, set_in_flight, with_debts, release_on_error, or_release,
}
use rem_tene_public.Workflow.Sections.{set_audio_cleanup_in_flight}
use rem_tene_public.Workflow.Feedback.Calm.{IsFrozen-refl, Quiet-record_port_error}

set_in_flight-IsFrozen :
    (id : ℕ) (v : Bool) (r : RuntimeState) → IsFrozen r (set_audio_cleanup_in_flight id v r)
unfolding set_audio_cleanup_in_flight context_of
set_in_flight-IsFrozen id v r = ground arith

Quiet-with_debts :
    (f : List AudioCleanupDebt → List AudioCleanupDebt) → Quiet (on_runtime (with_debts f))
Quiet-with_debts f = Quiet-on_runtime _ IsFrozen-refl

pub Quiet-set_in_flight : (id : ℕ) (v : Bool) → Quiet (set_in_flight id v)
unfolding set_in_flight
Quiet-set_in_flight id v = Quiet-on_runtime _ (set_in_flight-IsFrozen id v)

pub Quiet-settle_removal :
    (id : ℕ) (phase : String) (resource : AudioCleanupResource) (r : Fallible Unit)
    → Quiet (settle_removal id phase resource r)
unfolding settle_removal record_audio_cleanup_debt clear_audio_cleanup_debt
Quiet-settle_removal id phase resource (ok _) = Quiet-with_debts _
Quiet-settle_removal id phase resource (err e) =
    Quiet-bind (Quiet-record_port_error (some id) phase e)
      λ _. Quiet-bind (Quiet-with_debts _) λ _. Quiet-throw _

pub Quiet-cancel_capture : (id : ℕ) (held : String) → Quiet (cancel_capture id held)
unfolding cancel_capture
Quiet-cancel_capture id held =
    Quiet-bind (Quiet-perform (audio_cancel held) refl) (Quiet-settle_removal id "audio_cancel" _)

pub Quiet-cleanup_audio : (id : ℕ) (audio : String) → Quiet (cleanup_audio id audio)
unfolding cleanup_audio
Quiet-cleanup_audio id audio =
    Quiet-bind (Quiet-perform (audio_cleanup audio) refl)
      (Quiet-settle_removal id "audio_cleanup" _)

Quiet-release_on_error :
    (id : ℕ) (r : Result OrchestratorError (Unit {0})) → Quiet (release_on_error id r)
unfolding release_on_error
Quiet-release_on_error id (ok _) = Quiet-pure tt
Quiet-release_on_error id (err e) = Quiet-bind (Quiet-set_in_flight id false) λ _. Quiet-throw e

pub Quiet-or_release : (id : ℕ) {m : M Unit} → Quiet m → Quiet (or_release id m)
unfolding or_release
Quiet-or_release id q = Quiet-bind (Quiet-attempt q) (Quiet-release_on_error id)
