-- ===== src/Workflow/Feedback/Calm.antt =====
-- The feedback calls of crates/remtene-application/src/transcription_orchestrator.rs are quiet.
use rem_tene_public.Base.{ℕ, Bool, Option, none, some, refl, String, ok, err}
use rem_tene_public.Session.{TerminalOutcome}
use rem_tene_public.Routes.{PortError}
use rem_tene_public.Ports.{
  diagnostics_record, deadline_cancel, Fallible, UserNotificationKind, RecordingHudState,
  RecordingCue,
}
use rem_tene_public.Workflow.State.{RuntimeState, RuntimeStage}
use rem_tene_public.Workflow.Program.Quiet.{
  Quiet, IsFrozen, IsSameContext, quiet_rules, Quiet-perform, Quiet-on_runtime,
}
use rem_tene_public.Workflow.Feedback.{
  event_of, record_port_error, record_no_speech, record_late_response, note_error,
  raise_user_notification, update_recording_hud, publish_recording_hud_terminal, hide_recording_hud,
  play_recording_cue, drop_deadline, read_runtime, context, in_stage,
}

pub IsFrozen-refl : (r : RuntimeState) → IsFrozen r r
IsFrozen-refl r = elim r.active as (λ a. IsSameContext a a) [ none ↦ tt | some a ↦ (refl, refl) ]

pub Quiet-record_port_error :
    (id : Option ℕ) (phase : String) (e : PortError) → Quiet (record_port_error id phase e)
unfolding record_port_error
Quiet-record_port_error id phase e =
    Quiet-perform (diagnostics_record (event_of id phase "failed" (some e.code))) refl

pub Quiet-note_error : (id : ℕ) (phase : String) (r : Fallible Unit) → Quiet (note_error id phase r)
unfolding note_error
Quiet-note_error id phase (ok _) = search quiet_rules
Quiet-note_error id phase (err e) = Quiet-record_port_error (some id) phase e

pub Quiet-raise_user_notification :
    (id : ℕ) (kind : UserNotificationKind) → Quiet (raise_user_notification id kind)
unfolding raise_user_notification
Quiet-raise_user_notification id kind = search (quiet_rules, Quiet-note_error)

pub Quiet-update_recording_hud :
    (id : ℕ) (s : RecordingHudState) → Quiet (update_recording_hud id s)
unfolding update_recording_hud
Quiet-update_recording_hud id s = search (quiet_rules, Quiet-note_error)

pub Quiet-publish_recording_hud_terminal :
    (id : ℕ) (o : TerminalOutcome) → Quiet (publish_recording_hud_terminal id o)
unfolding publish_recording_hud_terminal
Quiet-publish_recording_hud_terminal id o = search (quiet_rules, Quiet-note_error)

pub Quiet-hide_recording_hud : (id : ℕ) → Quiet (hide_recording_hud id)
unfolding hide_recording_hud
Quiet-hide_recording_hud id = search (quiet_rules, Quiet-note_error)

pub Quiet-play_recording_cue : (id : ℕ) (c : RecordingCue) → Quiet (play_recording_cue id c)
unfolding play_recording_cue
Quiet-play_recording_cue id c = search (quiet_rules, Quiet-note_error)

pub Quiet-drop_deadline : (d : Option ℕ) → Quiet (drop_deadline d)
unfolding drop_deadline
Quiet-drop_deadline none = search quiet_rules
Quiet-drop_deadline (some g) = Quiet-perform (deadline_cancel g) refl

pub Quiet-read_runtime : {A : Type 0} (f : RuntimeState → A) → Quiet (read_runtime f)
unfolding read_runtime
Quiet-read_runtime f = Quiet-on_runtime _ IsFrozen-refl

pub Quiet-context : (id : ℕ) → Quiet (context id)
unfolding context
Quiet-context id = Quiet-read_runtime _

pub Quiet-in_stage : (id : ℕ) (p : RuntimeStage → Bool) → Quiet (in_stage id p)
unfolding in_stage
Quiet-in_stage id p = Quiet-read_runtime _

pub Quiet-record_no_speech : (id : ℕ) (phase : String) → Quiet (record_no_speech id phase)
unfolding record_no_speech
Quiet-record_no_speech id phase =
    Quiet-perform (diagnostics_record (event_of (some id) phase "no_speech" none)) refl

pub Quiet-record_late_response : (id : ℕ) (phase : String) → Quiet (record_late_response id phase)
unfolding record_late_response
Quiet-record_late_response id phase =
    Quiet-perform
      (diagnostics_record
        (event_of (some id) phase "discarded" (some "late_or_mismatched_response")))
      refl
