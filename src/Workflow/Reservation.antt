-- ===== src/Workflow/Reservation.antt =====
-- The first half of `start` of crates/remtene-application/src/transcription_orchestrator.rs, up to
-- the preparing workflow. Each helper is the rest of the function after one of its awaits; `stop` is
-- an early return.
pub mod Selection
use rem_tene_public.Base.{
  ℕ, ◌+◌, Bool, true, false, not, ◌&&◌, Option, none, some, String, ok, err, if◌then◌else◌,
}
use rem_tene_public.Base.Text.{Text}
use rem_tene_public.Settings.{SettingsSnapshot}
use rem_tene_public.Session.{selection_too_long, permission_unavailable, FailureCategory}
use rem_tene_public.Routes.{TextProcessingRoute, direct_asr, llm_route}
use rem_tene_public.Fence
use rem_tene_public.Ports.{
  Fallible, CapturedTarget, SelectionSnapshot, MicrophoneAccess, granted, UserNotificationKind,
  settings_load, targets_capture, targets_read_selected_text, clipboard_read_selected_text,
}
use rem_tene_public.Workflow.State.{
  World, RuntimeState, PreparingStage, active_session_id, StartOutcome, rejected, quitting,
}
use rem_tene_public.Workflow.Program.{
  atom, done, M, pure, ◌>>=◌, ◌>>◌, perform, section, on_runtime,
}
use rem_tene_public.Workflow.Sections.{is_starting, release_start_reservation}
use rem_tene_public.Workflow.Feedback.{record_port_error, raise_user_notification}
use rem_tene_public.Workflow.Delivery.{is_safe}
use rem_tene_public.Workflow.Ending.{set_fence}
use rem_tene_public.Workflow.Preparation.{reserved, resolve_text_processing_route}

pub data Phase (A : Type 0) : Type 0 where
  stop : StartOutcome → Phase A
  go : A → Phase A

-- `self.configuration_gate.lock().await` waits until the gate is free.
unfoldable pub lock_gate : M Unit
lock_gate = atom (λ w. not w.gate_held) (λ w. record w { gate_held = true }) (λ _. done (ok tt))

unfoldable pub unlock_gate : M Unit
unlock_gate = section (λ w. (record w { gate_held = false }, tt))

unfoldable pub release_reservation : ℕ → M Unit
release_reservation id = on_runtime (λ r. (release_start_reservation id r, tt))

-- The first section: a session that may start reserves the slot.
unfoldable pub reserve : ℕ → RuntimeState → RuntimeState × Option StartOutcome
reserve id r = if r.quitting then (r, some quitting) else elim (active_session_id r) [
  | some other ↦ (r, some (StartOutcome.busy other))
  | none ↦ (record r { starting = some id }, none)
]

abbrev pub Frozen : Type 0
Frozen = SettingsSnapshot × TextProcessingRoute

after_load : ℕ → Fallible SettingsSnapshot → M (Phase Frozen)
after_load id (err error) = do
  record_port_error (some id) "preparing" error
  release_reservation id
  pure (stop (StartOutcome.failed FailureCategory.storage))
after_load id (ok settings) = do
  current ← reserved id
  if not current then pure (stop quitting) else do
    route ← resolve_text_processing_route id settings
    current' ← reserved id
    pure (if current' then go (settings, route) else stop quitting)

-- What `start` does while it holds the configuration gate.
unfoldable pub behind_gate : ℕ → M (Phase Frozen)
unfolding after_load
behind_gate id = on_runtime (reserve id) >>= elim [
  | some outcome ↦ pure (stop outcome)
  | none ↦ do reply ← perform settings_load; after_load id reply
]

-- A reply that arrives after the reservation is lost is dropped.
unfoldable pub if_reserved : {A : Type 0} → ℕ → M (Phase A) → M (Phase A)
if_reserved id rest = do current ← reserved id; if current then rest else pure (stop quitting)

after_selection : ℕ → Fallible SelectionSnapshot → M (Phase (Option Text))
after_selection id (ok selection) =
    if selection.exceeded_limit
    then release_reservation id >> pure (stop (rejected selection_too_long))
    else pure (go selection.text)
after_selection id (err error) = do
  record_port_error (some id) "selection_read" error
  release_reservation id
  pure (stop (rejected permission_unavailable))

-- The selection read natively, and by the clipboard only where that failed and is allowed.
after_native_selection :
    ℕ → SettingsSnapshot → String → Fallible SelectionSnapshot → M (Phase (Option Text))
unfolding after_selection if_reserved
after_native_selection id settings target (ok selection) = after_selection id (ok selection)
after_native_selection id settings target (err error) =
    if not settings.clipboard_bridge_allowed then after_selection id (err error) else do
      record_port_error (some id) "selection_read_native" error
      reply ← perform (clipboard_read_selected_text target)
      if_reserved id (after_selection id reply)

abbrev pub is_llm : TextProcessingRoute → Bool
is_llm (llm_route _) = true
is_llm (direct_asr _) = false

unfoldable pub read_selection :
    ℕ → SettingsSnapshot → TextProcessingRoute → CapturedTarget → M (Phase (Option Text))
unfolding after_selection after_native_selection
read_selection id settings route target =
    if is_safe target.security
      && (target.has_selection && (settings.read_selected_text && is_llm route))
    then (do
      reply ← perform (targets_read_selected_text target.target_ref)
      if_reserved id (after_native_selection id settings target.target_ref reply))
    else pure (go none)

without_microphone : ℕ → M (Phase Unit)
without_microphone id = do
  release_reservation id
  raise_user_notification id UserNotificationKind.microphone_permission
  pure (stop (rejected permission_unavailable))

unfoldable pub after_access : ℕ → Fallible MicrophoneAccess → M (Phase Unit)
unfolding without_microphone
after_access id (ok granted) = pure (go tt)
after_access id (ok _) = without_microphone id
after_access id (err error) =
    record_port_error (some id) "microphone_permission" error >> without_microphone id

-- The section that turns the reservation into a preparing workflow with a fence of its own.
unfoldable pub promote :
    ℕ → SettingsSnapshot → TextProcessingRoute → CapturedTarget → Option Text → World → World × Bool
unfolding is_starting Fence.new set_fence
promote id settings route target selected w =
    if w.runtime.quitting
    then (w, false)
    else if not (is_starting w.runtime id)
    then (w, false)
    else (
      record w {
        runtime = record (w.runtime) {
          starting = none;
          preparing = some (record {
            session_id = id;
            settings = settings;
            processing_route = route;
            target_ref = target.target_ref;
            target_security = target.security;
            selected_text = selected;
            lifecycle = w.next_fence;
            recording_deadline = none;
            recording_limit_elapsed = false;
            stage = PreparingStage.starting_audio;
          });
        };
        fences = set_fence w.fences w.next_fence Fence.new;
        next_fence = w.next_fence + 1;
      },
      true,
    )

with_target : CapturedTarget → Phase (Option Text) → Phase (CapturedTarget × Option Text)
with_target target (stop outcome) = stop outcome
with_target target (go selected) = go (target, selected)

after_target :
    ℕ
    → SettingsSnapshot
    → TextProcessingRoute
    → Fallible CapturedTarget
    → M (Phase (CapturedTarget × Option Text))
unfolding with_target
after_target id settings route (ok target) = do
  selected ← read_selection id settings route target
  pure (with_target target selected)
after_target id settings route (err error) = do
  record_port_error (some id) "target_capture" error
  release_reservation id
  pure (stop (rejected permission_unavailable))

-- Everything between the gate and the microphone's answer: the target and the selected text.
unfoldable pub capture_target :
    ℕ → SettingsSnapshot → TextProcessingRoute → M (Phase (CapturedTarget × Option Text))
unfolding after_target
capture_target id settings route = do
  reply ← perform targets_capture
  if_reserved id (after_target id settings route reply)
