-- ===== src/Workflow/Processing/Provenance.antt =====
-- Where the text comes from that `process_with_llm` of
-- crates/remtene-application/src/transcription_orchestrator.rs delivers.
use rem_tene_public.Base.{
  ℕ, not, Option, none, some, List, ◌≡◌, refl, sym, inl, inr, Result, ok, err, arith,
}
use mathlib.Core.Path.{subst}
use rem_tene_public.Base.Text.{Text}
use rem_tene_public.Routes.{ResolvedLlmRoute}
use rem_tene_public.Ports.{
  Fallible, TextProcessingRequest, TextProcessingResult, llm_process, diagnostics_record,
  elapsed_ms, new_request_id, TemporaryTextStatus,
}
use rem_tene_public.Routes.{DirectDeliveryReason}
use rem_tene_public.Workflow.State.{ActiveContext, FinishOutcome, discarded, OrchestratorError}
use rem_tene_public.Workflow.Program.{M, ◌>>=◌}
use rem_tene_public.Workflow.Program.Execution.{Event, Runs}
use rem_tene_public.Workflow.Program.Ensures.{Ensures, Ensures-Runs, AreAllowed, ghost_after}
use rem_tene_public.Workflow.Program.Quiet.{Quiet, Quiet-perform}
use rem_tene_public.Workflow.Program.Rules.{
  Ensures-pure, Ensures-if, Ensures-option, Ensures-perform, Ensures-silently, Ensures-map,
}
use rem_tene_public.Workflow.Feedback.Calm.{
  Quiet-context, Quiet-in_stage, Quiet-record_port_error, Quiet-record_late_response,
  Quiet-update_recording_hud,
}
use rem_tene_public.Workflow.Ending.Calm.{Quiet-apply_if_current, Quiet-set_stage_if_current}
use rem_tene_public.Workflow.Delivery.Protocol.{delivering, Seen}
use rem_tene_public.Workflow.Finalization.{deliver}
use rem_tene_public.Workflow.Finalization.Once.{IsTrueOutcome, Ensures-deliver}
use rem_tene_public.Workflow.Processing.{
  is_blank, valid_llm_result, after_llm, ask_llm, process_with_llm,
}
use rem_tene_public.Workflow.Processing.Protocol.{
  answer_to, IsSource, processing_of, IsSourced, MayCall-MayProcess, MayCall-answer_of,
  processing_of-IsCalm,
}

module _ (transcript : Text) where
  abbrev Processes : Option Text → M FinishOutcome → Type 0
  Processes answer p = Ensures (processing_of transcript) (IsSourced transcript) answer p

  -- The delivery of a text that has a source.
  outcome-IsSourced :
      (text : Text) (seen : Seen) (answer : Option Text)
      (r : Result OrchestratorError FinishOutcome)
      → IsSource transcript answer text
      → IsTrueOutcome text seen r
      → IsSourced transcript answer r
  outcome-IsSourced text seen answer (ok (FinishOutcome.completed c)) s (e, claim) =
      subst (IsSource transcript answer) (sym e) s
  outcome-IsSourced text seen answer _ s claim = tt

  Processes-deliver :
      (answer : Option Text) (id : ℕ) (text : Text) (reason : Option DirectDeliveryReason)
      (forced : Option TemporaryTextStatus)
      → IsSource transcript answer text
      → Processes answer (deliver id text reason forced)
  Processes-deliver answer id text reason forced source =
      Ensures-map {S = delivering text} {T = processing_of transcript}
        (λ seen a. IsSource transcript a text) (λ w k. tt) (λ w k. tt)
        (λ seen a c s m. MayCall-MayProcess transcript text seen.0 a c s m)
        (λ seen a c r s m.
          subst (λ b. IsSource transcript b text) (sym (MayCall-answer_of text seen.0 a c r m)) s)
        (λ seen a r s q. outcome-IsSourced text seen a r s q) source
        (Ensures-deliver text id reason forced)

  module _ {answer : Option Text} where
    -- A quiet step before the rest.
    after_step :
        {B : Type 0} {m : M B} {f : B → M FinishOutcome}
        → Quiet m
        → ((b : B) → Processes answer (f b))
        → Processes answer (m >>= f)
    after_step q rest = Ensures-silently (processing_of-IsCalm transcript) q rest (λ e. tt)

  Processes-after_llm :
      (id request : ℕ) (asked : TextProcessingRequest) (r : Fallible TextProcessingResult)
      → asked.session_id ≡ id
      → asked.request_id ≡ request
      → Processes (answer_to asked r) (after_llm id request transcript r)
  unfolding after_llm valid_llm_result
  Processes-after_llm id request asked (ok result) i q =
      Ensures-if (not (valid_llm_result result id request))
        (λ _.
          after_step (Quiet-record_late_response id _)
            λ _. Processes-deliver _ id transcript none _ (inl refl))
        (λ valid.
          Ensures-if (is_blank result.final_text)
            (λ _.
              after_step (Quiet-record_late_response id _)
                λ _. Processes-deliver _ id transcript none _ (inl refl))
            (λ filled. Processes-deliver _ id result.final_text none none (inr (ground arith))))
  Processes-after_llm id request asked (err e) i q =
      after_step (Quiet-record_port_error (some id) "llm" e)
        λ _. Processes-deliver _ id transcript none _ (inl refl)

  -- The request that is sent.
  abbrev request_of : ℕ → ℕ → ActiveContext → TextProcessingRequest
  request_of id request c = record {
    session_id = id;
    request_id = request;
    processing_mode = c.settings.processing_mode;
    raw_transcript = transcript;
    selected_text = c.selected_text;
  }

  Processes-ask_llm :
      (id request : ℕ) (route : ResolvedLlmRoute) (c : ActiveContext)
      → Processes none (ask_llm id request route transcript c)
  unfolding ask_llm
  Processes-ask_llm id request route c = after_step (Quiet-perform (diagnostics_record _) refl) λ _.
      Ensures-perform (llm_process route (request_of id request c)) (refl, refl)
        λ result. after_step (Quiet-perform elapsed_ms refl) λ elapsed.
          after_step (Quiet-perform (diagnostics_record _) refl) λ _.
            after_step (Quiet-in_stage id _) λ expected.
              Ensures-if (not expected)
                (λ _. after_step (Quiet-record_late_response id _) λ _. Ensures-pure discarded tt)
                (λ _. Processes-after_llm id request (request_of id request c) result refl refl)

  Processes-process_with_llm :
      (id : ℕ) (route : ResolvedLlmRoute) → Processes none (process_with_llm id route transcript)
  unfolding process_with_llm
  Processes-process_with_llm id route = after_step (Quiet-context id) λ found.
      Ensures-option found (Ensures-pure discarded tt) λ c.
        after_step (Quiet-apply_if_current id _) λ applied.
          Ensures-if (not applied) (λ _. Ensures-pure discarded tt)
            λ _. after_step (Quiet-perform new_request_id refl) λ request.
              after_step (Quiet-set_stage_if_current id _) λ staged.
                Ensures-if (not staged) (λ _. Ensures-pure discarded tt)
                  λ _.
                    after_step (Quiet-update_recording_hud id _)
                      λ _. Processes-ask_llm id request route c

-- In every run of `process_with_llm`, whatever the ports answer and the other operations do: the
-- provider is asked about this transcript only; each text that is handed out or saved is the
-- transcript, or the text of a non-blank answer that names the session and the request; history is
-- saved only where its policy is enabled; and a completed session reports such a text.
pub process_with_llm-sources :
    (id : ℕ) (route : ResolvedLlmRoute) (transcript : Text) (es : List Event)
    (r : Result OrchestratorError FinishOutcome)
    → Runs (λ _. Unit) (process_with_llm id route transcript) es r
    → AreAllowed (processing_of transcript) none es
      × IsSourced transcript (ghost_after (processing_of transcript) none es) r
process_with_llm-sources id route transcript es r run =
    Ensures-Runs (Processes-process_with_llm transcript id route) run
