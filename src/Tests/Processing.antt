-- ===== src/Tests/Processing.antt =====
-- A provider's answer in crates/remtene-application/src/transcription_orchestrator.rs on concrete
-- values.
use rem_tene_public.Base.{Option, none, some, List, [], ◌∷◌, Result, ok}
use rem_tene_public.Base.Text.{Text, trim, is_empty, is_whitespace}
use rem_tene_public.Session
use rem_tene_public.Session.{recognizing}
use rem_tene_public.Routes.{ResolvedLlmRoute}
use rem_tene_public.Fence
use rem_tene_public.Ports
use rem_tene_public.Ports.{Call, Reply}
use rem_tene_public.Workflow.State.{
  World, DeliveryKind, FinishOutcome, OrchestratorError, context_of,
}
use rem_tene_public.Workflow.Program.Execution.{Event, Runs, execute, execute-IsRunOf}
use rem_tene_public.Workflow.Finalization.{deliver, auto_copy, finalize, save_history}
use rem_tene_public.Workflow.Processing.{process_with_llm, is_blank, valid_llm_result}
use rem_tene_public.Workflow.Processing.Protocol.{processing_of, IsSourced}
use rem_tene_public.Workflow.Processing.Provenance.{process_with_llm-sources}
use rem_tene_public.Workflow.Program.Ensures.{AreAllowed, ghost_after}
use rem_tene_public.Workflow.Program.{◌>>=◌, on_runtime, section, pure, perform, throw}
use rem_tene_public.Workflow.Feedback.{
  context, read_runtime, in_stage, drop_deadline, hide_recording_hud, note_error,
  publish_recording_hud_terminal, raise_user_notification, record_port_error, update_recording_hud,
}
use rem_tene_public.Workflow.Sections.{
  active_context, is_current_stage, set_stage, active_of, expects_llm, expects_delivery,
  expects_finalization,
}
use rem_tene_public.Workflow.Ending.{
  apply_if_current, apply_event, set_stage_if_current, clear_active_if_current, fail_current,
  invalidate_fence, set_fence, take_active,
}
use rem_tene_public.Coordinator
use rem_tene_public.Workflow.Delivery.{
  hand_over, if_expected, show_temporary_text, try_clipboard_or_temporary,
  try_user_directed_or_temporary,
}
use rem_tene_public.Tests.Delivery.{answers, recognizing_world, text}

-- "Hi", of the request it answers.
abbrev rewritten : Text
rewritten = 72 ∷ 105 ∷ []

abbrev with_answer : (c : Call) → Reply c
with_answer (Ports.llm_process route request) = ok (record {
  session_id = request.session_id;
  request_id = request.request_id;
  intent = Ports.dictation;
  final_text = rewritten;
})
with_answer c = answers Ports.InsertOutcome.inserted c

abbrev route : ResolvedLlmRoute
route = record { provider_ref = []; endpoint = 117 ∷ []; model = 109 ∷ []; secret_id = [] }

abbrev processing_run : Option (World × List Event × Result OrchestratorError FinishOutcome)
processing_run = execute with_answer recognizing_world (process_with_llm 7 route text)

abbrev calls : List Event
calls = elim processing_run [ none ↦ [] | some (w, es, a) ↦ es ]

abbrev outcome : Result OrchestratorError FinishOutcome
outcome = ok (
    FinishOutcome.completed (record {
      final_text = rewritten;
      delivery = DeliveryKind.inserted;
      direct_delivery_reason = none;
      warnings = [];
    }))

answered_run : Runs (λ _. Unit) (process_with_llm 7 route text) calls outcome
unfolding execute process_with_llm is_blank trim is_empty is_whitespace valid_llm_result expects_llm
    deliver Fence.invalidate Session.apply Session.is_terminated Session.terminate Coordinator.apply
    ◌>>=◌ on_runtime section pure perform throw context read_runtime in_stage drop_deadline
    hide_recording_hud note_error publish_recording_hud_terminal raise_user_notification
    record_port_error update_recording_hud active_context is_current_stage set_stage active_of
    expects_delivery expects_finalization apply_if_current apply_event set_stage_if_current
    clear_active_if_current fail_current invalidate_fence set_fence take_active hand_over
    if_expected show_temporary_text try_clipboard_or_temporary try_user_directed_or_temporary
    auto_copy finalize save_history context_of
answered_run = execute-IsRunOf with_answer recognizing_world (process_with_llm 7 route text)

process_with_llm-sources_example :
    AreAllowed (processing_of text) none calls
    × IsSourced text (ghost_after (processing_of text) none calls) outcome
process_with_llm-sources_example = process_with_llm-sources 7 route text calls outcome answered_run
