-- ===== src/Workflow/Processing/Protocol.antt =====
-- What `process_with_llm` of crates/remtene-application/src/transcription_orchestrator.rs may do
-- with the transcript and the answer.
use rem_tene_public.Base.{
  Bool, true, ◌&&◌, Option, none, some, ◌≡◌, refl, sym, ◌⊎◌, Result, ok, err, ◌==◌, if◌then◌else◌,
}
use mathlib.Core.Path.{subst}
use rem_tene_public.Base.Text.{Text}
use rem_tene_public.Ports.{
  Call, Reply, Fallible, TextProcessingRequest, TextProcessingResult, targets_read_selected_text,
  llm_resolve_route, llm_process, output_insert, clipboard_read_selected_text,
  clipboard_insert_and_restore, clipboard_insert_at_current_focus, clipboard_write_text,
  temporary_text_show, history_save,
}
use rem_tene_public.Workflow.State.{FinishOutcome, OrchestratorError}
use rem_tene_public.Workflow.Program.Ensures.{Protocol}
use rem_tene_public.Workflow.Program.Quiet.{is_quiet, IsCalm}
use rem_tene_public.Workflow.Delivery.Protocol.{MayCall}
use rem_tene_public.Workflow.Processing.{is_blank}

-- The text of an answer that counts: it names the session and the request, and is not blank.
abbrev pub answer_to : TextProcessingRequest → Fallible TextProcessingResult → Option Text
answer_to request (ok result) =
    if (result.session_id == request.session_id) && (result.request_id == request.request_id)
    then (if is_blank result.final_text then none else some result.final_text)
    else none
answer_to request (err error) = none

abbrev pub answer_of : (c : Call) → Reply c → Option Text → Option Text
answer_of (llm_process route request) reply before = answer_to request reply
answer_of _ reply before = before

-- A text that may be delivered, given the answer.
abbrev pub IsSource : Text → Option Text → Text → Type 0
IsSource transcript answer t = (t ≡ transcript) ⊎ (answer ≡ some t)

abbrev pub MayProcess : Text → Option Text → Call → Type 0
MayProcess transcript answer (output_insert _ t _ _) = IsSource transcript answer t
MayProcess transcript answer (clipboard_insert_and_restore _ t _ _) = IsSource transcript answer t
MayProcess transcript answer (clipboard_insert_at_current_focus t _ _) =
    IsSource transcript answer t
MayProcess transcript answer (clipboard_write_text t) = IsSource transcript answer t
MayProcess transcript answer (temporary_text_show _ _ t _ _) = IsSource transcript answer t
MayProcess transcript answer (history_save saved settings _) =
    IsSource transcript answer saved.final_text × (settings.history_policy.enabled ≡ true)
MayProcess transcript answer (llm_process _ request) =
    (request.raw_transcript ≡ transcript) × (answer ≡ none)
MayProcess transcript answer (llm_resolve_route _) = ⊥
MayProcess transcript answer (targets_read_selected_text _) = ⊥
MayProcess transcript answer (clipboard_read_selected_text _) = ⊥
MayProcess transcript answer _ = Unit

abbrev pub processing_of : Text → Protocol
processing_of transcript = record {
  Ghost = Option Text;
  allows = MayProcess transcript;
  after = λ answer c r. answer_of c r answer;
  keeps = λ w. Unit;
}

-- A completed delivery reports a text that was allowed.
abbrev pub IsSourced : Text → Option Text → Result OrchestratorError FinishOutcome → Type 0
IsSourced transcript answer (ok (FinishOutcome.completed c)) =
    IsSource transcript answer c.final_text
IsSourced transcript answer _ = Unit {0}

pub MayCall-MayProcess :
    (transcript text : Text) (written : Bool) (answer : Option Text) (c : Call)
    → IsSource transcript answer text
    → MayCall text written c
    → MayProcess transcript answer c
MayCall-MayProcess transcript text written answer (output_insert _ t _ _) s (w, e) =
    subst (IsSource transcript answer) (sym e) s
MayCall-MayProcess transcript text written answer (clipboard_insert_and_restore _ t _ _) s (w, e) =
    subst (IsSource transcript answer) (sym e) s
MayCall-MayProcess transcript text written answer (clipboard_insert_at_current_focus t _ _) s
      (w, e) =
    subst (IsSource transcript answer) (sym e) s
MayCall-MayProcess transcript text written answer (clipboard_write_text t) s e =
    subst (IsSource transcript answer) (sym e) s
MayCall-MayProcess transcript text written answer (temporary_text_show _ _ t _ _) s e =
    subst (IsSource transcript answer) (sym e) s
MayCall-MayProcess transcript text written answer (history_save saved settings _) s (e, on) =
    (subst (IsSource transcript answer) (sym e) s, on)
MayCall-MayProcess transcript text written answer (llm_process _ _) s m = elim m [ ]
MayCall-MayProcess transcript text written answer (llm_resolve_route _) s m = m
MayCall-MayProcess transcript text written answer (targets_read_selected_text _) s m = m
MayCall-MayProcess transcript text written answer (clipboard_read_selected_text _) s m = m
MayCall-MayProcess transcript text written answer _ s m = tt

pub MayCall-answer_of :
    (text : Text) (written : Bool) (answer : Option Text) (c : Call) (r : Reply c)
    → MayCall text written c
    → answer_of c r answer ≡ answer
MayCall-answer_of text written answer (llm_process _ _) r m = elim m [ ]
MayCall-answer_of text written answer _ r m = refl

quiet-MayProcess :
    (transcript : Text) (answer : Option Text) (c : Call)
    → is_quiet c ≡ true
    → MayProcess transcript answer c
quiet-MayProcess transcript answer (output_insert _ _ _ _) q = cc
quiet-MayProcess transcript answer (clipboard_insert_and_restore _ _ _ _) q = cc
quiet-MayProcess transcript answer (clipboard_insert_at_current_focus _ _ _) q = cc
quiet-MayProcess transcript answer (clipboard_write_text _) q = cc
quiet-MayProcess transcript answer (temporary_text_show _ _ _ _ _) q = cc
quiet-MayProcess transcript answer (history_save _ _ _) q = cc
quiet-MayProcess transcript answer (llm_process _ _) q = cc
quiet-MayProcess transcript answer (llm_resolve_route _) q = cc
quiet-MayProcess transcript answer (targets_read_selected_text _) q = cc
quiet-MayProcess transcript answer (clipboard_read_selected_text _) q = cc
quiet-MayProcess transcript answer _ q = tt

quiet-answer_of :
    (answer : Option Text) (c : Call) (r : Reply c)
    → is_quiet c ≡ true
    → answer_of c r answer ≡ answer
quiet-answer_of answer (llm_process _ _) r q = cc
quiet-answer_of answer _ r q = refl

pub processing_of-IsCalm : (transcript : Text) → IsCalm (processing_of transcript)
processing_of-IsCalm transcript = record {
  allowed = quiet-MayProcess transcript;
  unchanged = quiet-answer_of;
  kept = λ w v f k. tt;
}
