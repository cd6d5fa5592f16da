-- ===== src/Tests/Delivery.antt =====
-- A delivery of crates/remtene-application/src/transcription_orchestrator.rs on concrete values.
use rem_tene_public.Base.{
  ℕ, ◌≡◌, ◌≢◌, ◌≤◌, ◌⊎◌, refl, true, false, Option, none, some, List, [], ◌∷◌, Result, ok, err,
}
use rem_tene_public.Base.Text.{Text}
use rem_tene_public.Settings.{qwen}
use rem_tene_public.Session
use rem_tene_public.Session.{recognizing}
use rem_tene_public.Routes.{PortError, missing, direct_asr, raw_mode, no_configuration}
use rem_tene_public.Fence
use rem_tene_public.Ports
use rem_tene_public.Ports.{Call, Reply}
use rem_tene_public.Workflow.State.{
  World, RuntimeStage, ExitState, Completion, DeliveryKind, FinishOutcome, OrchestratorError,
  context_of,
}
use rem_tene_public.Workflow.Program.Execution.{Event, Runs, execute, execute-IsRunOf}
use rem_tene_public.Workflow.Delivery.Protocol.{writes, was_shown, HandsOutOnly}
use rem_tene_public.Workflow.Finalization.{deliver, auto_copy, finalize, save_history}
use rem_tene_public.Workflow.Finalization.Writes.{deliver-writes_once, deliver-reports_truly}
use rem_tene_public.Workflow.Program.{◌>>=◌, on_runtime, section, pure, perform, throw}
use rem_tene_public.Workflow.Feedback.{
  context, read_runtime, in_stage, drop_deadline, hide_recording_hud, note_error,
  publish_recording_hud_terminal, raise_user_notification, record_port_error, update_recording_hud,
}
use rem_tene_public.Workflow.Sections.{
  active_context, is_current_stage, set_stage, active_of, expects_delivery, expects_finalization,
}
use rem_tene_public.Workflow.Ending.{
  apply_if_current, apply_event, set_stage_if_current, clear_active_if_current, fail_current,
  invalidate_fence, set_fence, take_active,
}
use rem_tene_public.Coordinator
use rem_tene_public.Workflow.Delivery.{
  hand_over, if_expected, show_temporary_text, try_clipboard_or_temporary,
  try_user_directed_or_temporary,
}
use rem_tene_public.Tests.{settings}
use rem_tene_public.Tests.Shared.{asr}

abbrev pub broken : PortError
broken = record { code = "io"; safe_message_key = "io"; retryable = true }

-- Every port works, and an insertion ends as given.
abbrev pub answers : Ports.InsertOutcome → (c : Call) → Reply c
answers insertion Ports.settings_load = ok settings
answers insertion Ports.targets_capture = err broken
answers insertion (Ports.targets_read_selected_text _) = err broken
answers insertion (Ports.targets_revalidate t) = ok (Ports.valid t)
answers insertion Ports.request_recording_access = ok Ports.granted
answers insertion (Ports.audio_start _) = ok "capture"
answers insertion (Ports.audio_finish _) = err broken
answers insertion (Ports.audio_cancel _) = ok tt
answers insertion (Ports.audio_cleanup _) = ok tt
answers insertion (Ports.cue_play _) = ok tt
answers insertion (Ports.deadline_schedule _ _) = ok 1
answers insertion (Ports.deadline_cancel _) = tt
answers insertion (Ports.hud_show _ _ _ _) = ok tt
answers insertion (Ports.hud_update _ _) = ok tt
answers insertion (Ports.hud_publish_terminal _ _) = ok tt
answers insertion (Ports.hud_hide _) = ok tt
answers insertion (Ports.notify _ _) = ok tt
answers insertion (Ports.asr_health _) = ok missing
answers insertion (Ports.asr_transcribe _) = err broken
answers insertion (Ports.asr_cancel _) = ok tt
answers insertion (Ports.llm_resolve_route _) = no_configuration
answers insertion (Ports.llm_process _ _) = err broken
answers insertion (Ports.llm_cancel _) = ok tt
answers insertion (Ports.output_insert _ _ _ _) = ok insertion
answers insertion (Ports.clipboard_read_selected_text _) = err broken
answers insertion (Ports.clipboard_insert_and_restore _ _ _ _) = ok insertion
answers insertion (Ports.clipboard_insert_at_current_focus _ _ _) = err broken
answers insertion (Ports.clipboard_write_text _) = ok tt
answers insertion (Ports.temporary_text_show _ _ _ _ _) = ok tt
answers insertion (Ports.history_save _ _ _) = ok tt
answers insertion (Ports.diagnostics_record _) = tt
answers insertion Ports.clock_now = 200
answers insertion Ports.elapsed_ms = 5
answers insertion Ports.new_session_id = 8
answers insertion Ports.new_request_id = 9
answers insertion Ports.new_delivery_id = 3
answers insertion Ports.poll_first = true

-- Session 7 recognizes; its fence is number 0.
abbrev pub recognizing_world : World
recognizing_world = record {
  runtime = record {
    quitting = false;
    starting = none;
    preparing = none;
    active = some (record {
      session_id = 7;
      settings = settings;
      processing_route = direct_asr raw_mode;
      asr_route = asr;
      target_ref = "editor";
      target_security = Ports.safe;
      selected_text = none;
      lifecycle = 0;
      recording_deadline = none;
      stage = RuntimeStage.recognizing 2 none;
    });
    audio_cleanup_debts = [];
  };
  sessions = some (record {
    session = record {
      id = 7;
      phase = recognizing;
      created_at = 100;
      settings = settings;
      selected_asr_engine = qwen;
      terminal_outcome = none;
    };
    asr_route = asr;
  });
  gate_held = false;
  operations = record { is_open = true; in_flight = 0 };
  fences = λ n. record { is_open = true; in_flight = 0 };
  next_fence = 1;
  exit = ExitState.not_begun;
  attempts = λ n. none;
  next_attempt = 0;
}

abbrev pub text : Text
text = 104 ∷ 105 ∷ []

abbrev delivery_run :
    Ports.InsertOutcome → Option (World × List Event × Result OrchestratorError FinishOutcome)
delivery_run insertion =
    execute (answers insertion) recognizing_world (deliver 7 text (some raw_mode) none)

abbrev completion : DeliveryKind → Completion
completion kind = record {
  final_text = text;
  delivery = kind;
  direct_delivery_reason = some raw_mode;
  warnings = [];
}

-- What the run wrote and reported.
abbrev report : Ports.InsertOutcome → Option (ℕ × Result OrchestratorError FinishOutcome)
report insertion = elim (delivery_run insertion) [
  | none ↦ none
  | some (w, es, a) ↦ some (writes es, a)
]

inserted_report :
    report Ports.InsertOutcome.inserted
    ≡ some (1, ok (FinishOutcome.completed (completion DeliveryKind.inserted)))
unfolding execute deliver Fence.invalidate Session.apply Session.is_terminated Session.terminate
    Coordinator.apply ◌>>=◌ on_runtime section pure perform throw context read_runtime in_stage
    drop_deadline hide_recording_hud note_error publish_recording_hud_terminal
    raise_user_notification record_port_error update_recording_hud active_context is_current_stage
    set_stage active_of expects_delivery expects_finalization apply_if_current apply_event
    set_stage_if_current clear_active_if_current fail_current invalidate_fence set_fence take_active
    hand_over if_expected show_temporary_text try_clipboard_or_temporary
    try_user_directed_or_temporary auto_copy finalize save_history context_of
inserted_report = refl

-- An insertion of unknown effect is not repeated: the text goes to the temporary window.
doubtful_report :
    report Ports.InsertOutcome.indeterminate
    ≡ some (1, ok (FinishOutcome.completed (completion DeliveryKind.temporary_text)))
unfolding execute deliver Fence.invalidate Session.apply Session.is_terminated Session.terminate
    Coordinator.apply ◌>>=◌ on_runtime section pure perform throw context read_runtime in_stage
    drop_deadline hide_recording_hud note_error publish_recording_hud_terminal
    raise_user_notification record_port_error update_recording_hud active_context is_current_stage
    set_stage active_of expects_delivery expects_finalization apply_if_current apply_event
    set_stage_if_current clear_active_if_current fail_current invalidate_fence set_fence take_active
    hand_over if_expected show_temporary_text try_clipboard_or_temporary
    try_user_directed_or_temporary auto_copy finalize save_history context_of
doubtful_report = refl

-- The calls of the run.
abbrev calls_of : Ports.InsertOutcome → List Event
calls_of insertion = elim (delivery_run insertion) [ none ↦ [] | some (w, es, a) ↦ es ]

doubtful_run :
    Runs
      (λ _. Unit)
      (deliver 7 text (some raw_mode) none)
      (calls_of Ports.InsertOutcome.indeterminate)
      (ok (FinishOutcome.completed (completion DeliveryKind.temporary_text)))
unfolding execute deliver Fence.invalidate Session.apply Session.is_terminated Session.terminate
    Coordinator.apply ◌>>=◌ on_runtime section pure perform throw context read_runtime in_stage
    drop_deadline hide_recording_hud note_error publish_recording_hud_terminal
    raise_user_notification record_port_error update_recording_hud active_context is_current_stage
    set_stage active_of expects_delivery expects_finalization apply_if_current apply_event
    set_stage_if_current clear_active_if_current fail_current invalidate_fence set_fence take_active
    hand_over if_expected show_temporary_text try_clipboard_or_temporary
    try_user_directed_or_temporary auto_copy finalize save_history context_of
doubtful_run =
    execute-IsRunOf (answers Ports.InsertOutcome.indeterminate) recognizing_world
      (deliver 7 text (some raw_mode) none)

deliver-writes_once_example :
    (writes (calls_of Ports.InsertOutcome.indeterminate) ≤ 1)
    × HandsOutOnly text (calls_of Ports.InsertOutcome.indeterminate)
deliver-writes_once_example =
    deliver-writes_once 7 text (some raw_mode) none (calls_of Ports.InsertOutcome.indeterminate)
      (ok (FinishOutcome.completed (completion DeliveryKind.temporary_text))) doubtful_run

deliver-reports_truly_example :
    (text ≡ text)
    × HandsOutOnly text (calls_of Ports.InsertOutcome.indeterminate)
    × (((DeliveryKind.temporary_text ≡ DeliveryKind.temporary_text)
          × (was_shown (calls_of Ports.InsertOutcome.indeterminate) ≡ true))
        ⊎ ((DeliveryKind.temporary_text ≢ DeliveryKind.temporary_text)
            × (writes (calls_of Ports.InsertOutcome.indeterminate) ≡ 1)))
deliver-reports_truly_example =
    deliver-reports_truly 7 text (some raw_mode) none (calls_of Ports.InsertOutcome.indeterminate)
      (completion DeliveryKind.temporary_text) doubtful_run
