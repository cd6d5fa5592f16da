-- ===== src/Tests/Selection.antt =====
-- The reading of a selection in crates/remtene-application/src/transcription_orchestrator.rs on
-- concrete values.
use rem_tene_public.Base.{true, false, Option, none, some, List, [], ◌∷◌, Result, ok}
use rem_tene_public.Base.Text.{Text}
use rem_tene_public.Settings.{SettingsSnapshot}
use rem_tene_public.Routes.{TextProcessingRoute, llm_route}
use rem_tene_public.Ports
use rem_tene_public.Ports.{Call, Reply, CapturedTarget}
use rem_tene_public.Workflow.State.{World, OrchestratorError}
use rem_tene_public.Workflow.Program.{◌>>=◌, on_runtime, pure, perform}
use rem_tene_public.Workflow.Program.Execution.{Event, Runs, execute, execute-IsRunOf}
use rem_tene_public.Workflow.Program.Ensures.{AreAllowed}
use rem_tene_public.Workflow.Feedback.{read_runtime, record_port_error}
use rem_tene_public.Workflow.Sections.{start_reservation_is_current, is_starting}
use rem_tene_public.Workflow.Preparation.{reserved}
use rem_tene_public.Workflow.Reservation.{Phase, go, if_reserved, read_selection, capture_target}
use rem_tene_public.Workflow.Reservation.Selection.{reading, capture_target-reads}
use rem_tene_public.Tests.{settings}
use rem_tene_public.Tests.Delivery.{answers, recognizing_world}

abbrev reading_settings : SettingsSnapshot
reading_settings = record settings { read_selected_text = true }

abbrev provider : TextProcessingRoute
provider =
    llm_route (record { provider_ref = []; endpoint = 117 ∷ []; model = 109 ∷ []; secret_id = [] })

abbrev editor : CapturedTarget
editor = record {
  target_ref = "editor";
  security = Ports.safe;
  has_selection = true;
  display_hint = none;
}

abbrev chosen : Text
chosen = 111 ∷ 107 ∷ []

abbrev with_editor : (c : Call) → Reply c
with_editor Ports.targets_capture = ok editor
with_editor (Ports.clipboard_read_selected_text _) =
    ok (record { text = some chosen; anchor_normalized_to_end = false; exceeded_limit = false })
with_editor c = answers Ports.InsertOutcome.inserted c

-- Session 8 has the reservation.
abbrev starting_world : World
starting_world = record recognizing_world {
  runtime = record (recognizing_world.runtime) { starting = some 8; active = none };
  sessions = none;
}

abbrev calls : List Event
calls = elim (execute with_editor starting_world (capture_target 8 reading_settings provider)) [
  | none ↦ []
  | some (w, es, a) ↦ es
]

abbrev captured : Result OrchestratorError (Phase (CapturedTarget × Option Text))
captured = ok (go (editor, some chosen))

captured_run : Runs (λ _. Unit) (capture_target 8 reading_settings provider) calls captured
unfolding execute capture_target read_selection if_reserved reserved read_runtime
    start_reservation_is_current is_starting record_port_error ◌>>=◌ on_runtime pure perform
captured_run =
    execute-IsRunOf with_editor starting_world (capture_target 8 reading_settings provider)

capture_target-reads_example : AreAllowed (reading reading_settings provider) (none, false) calls
capture_target-reads_example =
    capture_target-reads reading_settings provider 8 calls captured captured_run
