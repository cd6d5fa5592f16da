-- ===== src/Tests/Shared.antt =====
-- The routes, the coordinator, the fences and the debts of crates/remtene-application/src on concrete
-- values.
use rem_tene_public.Base.{
  ℕ, ◌≡◌, ◌≢◌, ◌≤◌, ◌↔◌, refl, true, false, none, some, List, [], ◌∷◌, ok, err, is_some,
  if◌then◌else◌,
}
use rem_tene_public.Settings.{qwen, engine, prefer_qwen, faithful, raw}
use rem_tene_public.Session
use rem_tene_public.Session.{preflight_passed, cancel_recording, complete}
use rem_tene_public.Routes.{
  ResolvedAsrRoute, ResolvedLlmRoute, healthy, missing, health_of, resolve_asr_route, ready,
  llm_route, text_processing_route, resolve_asr_route-engine, text_processing_route-llm,
}
use rem_tene_public.Coordinator
use rem_tene_public.Coordinator.{
  ActiveSession, CoordinatorError, session_not_found, SessionMutation,
}
use rem_tene_public.Coordinator.SingleFlight.{
  Call, start, event, IsLive, run-new-IsLive, apply_cases, accepted_starts, accepted_starts-one,
}
use rem_tene_public.Coordinator.SingleFlight
use rem_tene_public.Fence
use rem_tene_public.Fence.{is_quiescent, begin_commit}
use rem_tene_public.Fence.Quiescence.{begins, ends, closes, is_quiescent-run, closed_run}
use rem_tene_public.Fence.Quiescence
use rem_tene_public.Workflow.State.{AudioCleanupDebt, AudioCleanupResource}
use rem_tene_public.Workflow.Debts.{record_debt, clear_debt, is_debt_for}
use rem_tene_public.Workflow.Debts.Ledger.{
  owed, same_key, IsLedger, records, clears, owed-record_debt, owed-clear_debt, run-IsLedger,
}
use rem_tene_public.Workflow.Debts.Ledger as Ledger
use rem_tene_public.Tests.{settings}

abbrev pub asr : ResolvedAsrRoute
asr = record { engine = qwen }

resolve_asr_route-engine_example : (resolve_asr_route prefer_qwen healthy missing ≡ ok asr) ↔ (
    (asr.engine ≡ engine prefer_qwen) × (health_of (engine prefer_qwen) healthy missing ≡ healthy))
resolve_asr_route-engine_example = resolve_asr_route-engine prefer_qwen healthy missing asr

abbrev provider_route : ResolvedLlmRoute
provider_route = record { provider_ref = []; endpoint = 117 ∷ []; model = 109 ∷ []; secret_id = [] }

text_processing_route-llm_example :
    (text_processing_route faithful (ready provider_route) ≡ llm_route provider_route)
    ↔ ((faithful ≡ raw → ⊥) × (ready provider_route ≡ ready provider_route))
text_processing_route-llm_example =
    text_processing_route-llm faithful (ready provider_route) provider_route

-- Two starts, of which the second is refused, and an event for the first.
abbrev calls : List Call
calls = start 1 10 settings asr ∷ start 2 11 settings asr ∷ event 1 preflight_passed ∷ []

run-new-IsLive_example : IsLive (Coordinator.SingleFlight.run none calls)
run-new-IsLive_example = run-new-IsLive calls

abbrev live : ActiveSession
live = record { session = Session.new 1 10 settings qwen; asr_route = asr }

apply_cases_example :
    (live.session.id ≢ 2
      → Coordinator.apply (some live) 2 complete ≡ (some live, err session_not_found))
    × ((x : CoordinatorError)
        → (Coordinator.apply (some live) 2 complete).1 ≡ err x
        → (Coordinator.apply (some live) 2 complete).0 ≡ some live)
    × ((m : SessionMutation)
        → (Coordinator.apply (some live) 2 complete).1 ≡ ok m
        → ((Coordinator.apply (some live) 2 complete).0 ≡ none)
          ↔ (is_some m.terminal_outcome ≡ true))
unfolding Session.new
apply_cases_example = apply_cases live 2 complete (refl, (λ e. cc), refl)

accepted_starts-one_example :
    accepted_starts none ((1, 10, settings, asr) ∷ (2, 11, settings, asr) ∷ []) ≡ 1
accepted_starts-one_example =
    accepted_starts-one (1, 10, settings, asr) ((2, 11, settings, asr) ∷ [])

is_quiescent-run_example :
    let f = Fence.Quiescence.run Fence.new (begins ∷ begins ∷ closes ∷ ends ∷ []) in
    (f.in_flight ≡ 1) × ((is_quiescent f ≡ true) ↔ (◌≡◌ {A = ℕ} 1 0))
unfolding Fence.Quiescence.held
is_quiescent-run_example = is_quiescent-run (begins ∷ begins ∷ closes ∷ ends ∷ []) 1 refl

-- A closed fence with two guards.
abbrev closed : Fence.Fence
closed = record { is_open = false; in_flight = 2 }

closed_run_example :
    ((begin_commit (Fence.Quiescence.run closed (ends ∷ begins ∷ []))).1 ≡ false)
    × ((Fence.Quiescence.run closed (ends ∷ begins ∷ [])).in_flight ≤ 2)
closed_run_example = closed_run closed (ends ∷ begins ∷ []) refl

abbrev debt : AudioCleanupDebt
debt = record {
  session_id = 1;
  phase = "audio_cancel";
  resource = AudioCleanupResource.capture "c";
  error = record { code = "io"; safe_message_key = "audio"; retryable = true };
}

owed-record_debt_example : owed 1 (AudioCleanupResource.capture "c") (record_debt debt []) ≡ (
    if is_debt_for 1 (AudioCleanupResource.capture "c") debt
    then some debt
    else owed 1 (AudioCleanupResource.capture "c") [])
owed-record_debt_example = owed-record_debt 1 (AudioCleanupResource.capture "c") debt []

owed-clear_debt_example :
    owed 1
      (AudioCleanupResource.capture "c")
      (clear_debt 1 (AudioCleanupResource.finalized "c") (debt ∷ []))
    ≡ (if same_key 1 (AudioCleanupResource.capture "c") 1 (AudioCleanupResource.finalized "c")
        then none
        else owed 1 (AudioCleanupResource.capture "c") (debt ∷ []))
owed-clear_debt_example =
    owed-clear_debt 1 (AudioCleanupResource.capture "c") 1 (AudioCleanupResource.finalized "c")
      (debt ∷ [])

run-IsLedger_example :
    IsLedger
      (Ledger.run (debt ∷ []) (records debt ∷ clears 1 (AudioCleanupResource.finalized "c") ∷ []))
run-IsLedger_example =
    run-IsLedger (debt ∷ []) (records debt ∷ clears 1 (AudioCleanupResource.finalized "c") ∷ [])
      (refl, tt)
