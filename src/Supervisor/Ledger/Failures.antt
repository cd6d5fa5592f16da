-- ===== src/Supervisor/Ledger/Failures.antt =====
-- Failing the worker process answers everything that waits.
use rem_tene_public.Base.{◌≡◌, refl, ◌∙◌, ℕ, ◌+◌, Option, none, arith}
use rem_tene_public.Routes.{PortError}
use rem_tene_public.Supervisor.{
  Outside, PendingHealth, PendingTranscription, PendingShutdown, SupervisorActor,
}
use rem_tene_public.Supervisor.Process.{
  fail_health, fail_transcription, fail_shutdown, fail_all, fail_process, terminate_process,
}
use rem_tene_public.Supervisor.Ledger.{answered, waiting}

-- Answered or waiting.
abbrev pub owed : ℕ → SupervisorActor → ℕ
owed i s = answered i s + waiting i s

-- Nothing waits for the worker.
abbrev pub IsIdle : SupervisorActor → Type 0
IsIdle s =
    (s.pending_health ≡ none) × (s.pending_transcription ≡ none) × (s.pending_shutdown ≡ none)

pub idle-waiting : (i : ℕ) (s : SupervisorActor) → IsIdle s → waiting i s ≡ 0
unfolding waiting
idle-waiting i s (a, b, c) = rw (a, b, c) refl

fail_health_lem :
    (i : ℕ) (e : PortError) (o : Option PendingHealth) (s : SupervisorActor)
    → s.pending_health ≡ o
    → (owed i (fail_health e o s) ≡ owed i s)
      × ((fail_health e o s).pending_health ≡ none)
      × ((fail_health e o s).pending_transcription ≡ s.pending_transcription)
      × ((fail_health e o s).pending_shutdown ≡ s.pending_shutdown)
unfolding answered waiting fail_health
fail_health_lem i e o s h = ground arith

fail_transcription_lem :
    (i : ℕ) (outside : Outside) (e : PortError) (o : Option PendingTranscription)
    (s : SupervisorActor)
    → s.pending_transcription ≡ o
    → (owed i (fail_transcription outside e o s) ≡ owed i s)
      × ((fail_transcription outside e o s).pending_transcription ≡ none)
      × ((fail_transcription outside e o s).pending_health ≡ s.pending_health)
      × ((fail_transcription outside e o s).pending_shutdown ≡ s.pending_shutdown)
unfolding answered waiting fail_transcription
fail_transcription_lem i outside e o s h = ground arith

fail_shutdown_lem :
    (i : ℕ) (e : PortError) (o : Option PendingShutdown) (s : SupervisorActor)
    → s.pending_shutdown ≡ o
    → (owed i (fail_shutdown e o s) ≡ owed i s)
      × ((fail_shutdown e o s).pending_shutdown ≡ none)
      × ((fail_shutdown e o s).pending_health ≡ s.pending_health)
      × ((fail_shutdown e o s).pending_transcription ≡ s.pending_transcription)
unfolding answered waiting fail_shutdown
fail_shutdown_lem i e o s h = ground arith

pub fail_all_lem :
    (i : ℕ) (outside : Outside) (e : PortError) (s : SupervisorActor)
    → (owed i (fail_all outside e s) ≡ owed i s) × IsIdle (fail_all outside e s)
unfolding fail_all
fail_all_lem i outside e s =
    let (a, ha, ta, sa) = fail_health_lem i e s.pending_health s refl in
    let first = fail_health e s.pending_health s in
    let (b, tb, hb, sb) = fail_transcription_lem i outside e s.pending_transcription first ta in
    let second = fail_transcription outside e s.pending_transcription first in
    let (c, sc, hc, tc) = fail_shutdown_lem i e s.pending_shutdown second (sb ∙ sa) in
    (c ∙ b ∙ a, (hc ∙ hb ∙ ha, tc ∙ tb, sc))

pub fail_process_lem :
    (i : ℕ) (outside : Outside) (e : PortError) (s : SupervisorActor)
    → (owed i (fail_process outside e s) ≡ owed i s)
      × IsIdle (fail_process outside e s)
      × ((fail_process outside e s).process ≡ none)
unfolding fail_process terminate_process answered waiting
fail_process_lem i outside e s = let all = fail_all_lem i outside e s in ground arith
