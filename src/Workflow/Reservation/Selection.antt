-- ===== src/Workflow/Reservation/Selection.antt =====
-- When `start` of crates/remtene-application/src/transcription_orchestrator.rs reads the user's
-- selected text.
use rem_tene_public.Base.{
  ℕ, Bool, true, false, not, ◌&&◌, Option, none, some, List, String, ◌≡◌, refl, Result, ok, err,
  arith, Bool-cases, inl, inr,
}
use rem_tene_public.Base.Text.{Text}
use rem_tene_public.Settings.{SettingsSnapshot}
use rem_tene_public.Routes.{TextProcessingRoute}
use rem_tene_public.Ports.{
  Call, Reply, Fallible, CapturedTarget, SelectionSnapshot, targets_capture,
  targets_read_selected_text, llm_resolve_route, llm_process, output_insert,
  clipboard_read_selected_text, clipboard_insert_and_restore, clipboard_insert_at_current_focus,
  clipboard_write_text, temporary_text_show, history_save,
}
use rem_tene_public.Workflow.State.{RuntimeState, OrchestratorError}
use rem_tene_public.Workflow.Program.{M, ◌>>=◌}
use rem_tene_public.Workflow.Program.Execution.{Event, Runs}
use rem_tene_public.Workflow.Program.Ensures.{Protocol, Ensures, Ensures-Runs, AreAllowed}
use rem_tene_public.Workflow.Program.Quiet.{IsFrozen, is_quiet, IsCalm, Quiet, Quiet-on_runtime}
use rem_tene_public.Workflow.Program.Rules.{
  Ensures-pure, Ensures-if, Ensures-perform, Ensures-silently, Ensures-bind,
}
use rem_tene_public.Workflow.Sections.{release_start_reservation, is_starting}
use rem_tene_public.Workflow.Feedback.Calm.{
  IsFrozen-refl, Quiet-record_port_error, Quiet-read_runtime,
}
use rem_tene_public.Workflow.Delivery.{is_safe}
use rem_tene_public.Workflow.Finalization.Once.{not-false}
use rem_tene_public.Workflow.Preparation.{reserved}
use rem_tene_public.Workflow.Reservation.{
  Phase, release_reservation, if_reserved, after_selection, after_native_selection, is_llm,
  read_selection, after_target, capture_target,
}

-- What has been seen: the captured target, and whether the native reading has failed.
abbrev pub Seen : Type 0
Seen = Option CapturedTarget × Bool

abbrev pub seen_after : Seen → (c : Call) → Reply c → Seen
seen_after (target, failed) targets_capture (ok captured) = (some captured, failed)
seen_after (target, failed) (targets_read_selected_text _) (err _) = (target, true)
seen_after seen _ _ = seen

-- The selection of this target may be read: the target is safe and has one.
abbrev pub HasSelection : Option CapturedTarget → String → Type 0
HasSelection none ref = ⊥
HasSelection (some t) ref =
    (t.target_ref ≡ ref) × (is_safe t.security ≡ true) × (t.has_selection ≡ true)

release-IsFrozen : (id : ℕ) (r : RuntimeState) → IsFrozen r (release_start_reservation id r)
unfolding release_start_reservation is_starting
release-IsFrozen id r = elim (Bool-cases (is_starting r id)) [
  | inl here ↦ rw here (IsFrozen-refl r)
  | inr other ↦ rw other (IsFrozen-refl r)
]

Quiet-release_reservation : (id : ℕ) → Quiet (release_reservation id)
unfolding release_reservation
Quiet-release_reservation id = Quiet-on_runtime _ (release-IsFrozen id)

module _ (settings : SettingsSnapshot) (route : TextProcessingRoute) where
  abbrev pub MayRead : Seen → Call → Type 0
  MayRead (target, failed) (targets_read_selected_text ref) =
      HasSelection target ref × (settings.read_selected_text ≡ true) × (is_llm route ≡ true)
  MayRead (target, failed) (clipboard_read_selected_text ref) =
      HasSelection target ref
      × (settings.read_selected_text ≡ true)
      × (is_llm route ≡ true)
      × (settings.clipboard_bridge_allowed ≡ true)
      × (failed ≡ true)
  MayRead _ (llm_resolve_route _) = ⊥
  MayRead _ (llm_process _ _) = ⊥
  MayRead _ (output_insert _ _ _ _) = ⊥
  MayRead _ (clipboard_insert_and_restore _ _ _ _) = ⊥
  MayRead _ (clipboard_insert_at_current_focus _ _ _) = ⊥
  MayRead _ (clipboard_write_text _) = ⊥
  MayRead _ (temporary_text_show _ _ _ _ _) = ⊥
  MayRead _ (history_save _ _ _) = ⊥
  MayRead _ _ = Unit

  abbrev pub reading : Protocol
  reading = record { Ghost = Seen; allows = MayRead; after = seen_after; keeps = λ w. Unit }

  abbrev Reads : {A : Type 0} → Seen → M A → Type 0
  Reads seen p = Ensures reading (λ s r. Unit {0}) seen p

  quiet-MayRead : (seen : Seen) (c : Call) → is_quiet c ≡ true → MayRead seen c
  quiet-MayRead seen targets_capture q = cc
  quiet-MayRead seen (targets_read_selected_text _) q = cc
  quiet-MayRead seen (clipboard_read_selected_text _) q = cc
  quiet-MayRead seen (llm_resolve_route _) q = cc
  quiet-MayRead seen (llm_process _ _) q = cc
  quiet-MayRead seen (output_insert _ _ _ _) q = cc
  quiet-MayRead seen (clipboard_insert_and_restore _ _ _ _) q = cc
  quiet-MayRead seen (clipboard_insert_at_current_focus _ _ _) q = cc
  quiet-MayRead seen (clipboard_write_text _) q = cc
  quiet-MayRead seen (temporary_text_show _ _ _ _ _) q = cc
  quiet-MayRead seen (history_save _ _ _) q = cc
  quiet-MayRead seen _ q = tt

  quiet-seen_after :
      (seen : Seen) (c : Call) (r : Reply c) → is_quiet c ≡ true → seen_after seen c r ≡ seen
  quiet-seen_after seen targets_capture r q = cc
  quiet-seen_after seen (targets_read_selected_text _) r q = cc
  quiet-seen_after seen _ r q = refl

  reading-IsCalm : IsCalm reading
  reading-IsCalm = record {
    allowed = quiet-MayRead;
    unchanged = quiet-seen_after;
    kept = λ w v f k. tt;
  }

  after_step :
      {A B : Type 0} (seen : Seen) {m : M B} {f : B → M A}
      → Quiet m
      → ((b : B) → Reads seen (f b))
      → Reads seen (m >>= f)
  after_step seen q rest = Ensures-silently reading-IsCalm q rest (λ e. tt)

  Reads-if_reserved :
      {A : Type 0} (seen : Seen) (id : ℕ) {rest : M (Phase A)}
      → Reads seen rest
      → Reads seen (if_reserved id rest)
  unfolding if_reserved reserved
  Reads-if_reserved seen id rest =
      after_step seen (Quiet-read_runtime _)
        λ current. Ensures-if current (λ _. rest) (λ _. Ensures-pure _ tt)

  Reads-after_selection :
      (seen : Seen) (id : ℕ) (r : Fallible SelectionSnapshot) → Reads seen (after_selection id r)
  unfolding after_selection
  Reads-after_selection seen id (ok selection) =
      Ensures-if selection.exceeded_limit
        (λ _. after_step seen (Quiet-release_reservation id) λ _. Ensures-pure _ tt)
        (λ _. Ensures-pure _ tt)
  Reads-after_selection seen id (err e) =
      after_step seen (Quiet-record_port_error (some id) "selection_read" e)
        λ _. after_step seen (Quiet-release_reservation id) λ _. Ensures-pure _ tt

  -- The conditions under which the selection of this target is read.
  abbrev MayReadOf : CapturedTarget → Type 0
  MayReadOf t =
      HasSelection (some t) t.target_ref
      × (settings.read_selected_text ≡ true)
      × (is_llm route ≡ true)

  MayReadOf-tests :
      (t : CapturedTarget)
      → (is_safe t.security && (t.has_selection && (settings.read_selected_text && is_llm route)))
        ≡ true
      → MayReadOf t
  MayReadOf-tests t e = ground arith

  Reads-after_native_selection :
      (failed : Bool) (id : ℕ) (t : CapturedTarget) (r : Fallible SelectionSnapshot)
      → MayReadOf t
      → Reads
          (seen_after (some t, failed) (targets_read_selected_text t.target_ref) r)
          (after_native_selection id settings t.target_ref r)
  unfolding after_native_selection
  Reads-after_native_selection failed id t (ok selection) may =
      Reads-after_selection _ id (ok selection)
  Reads-after_native_selection failed id t (err e) may =
      Ensures-if (not settings.clipboard_bridge_allowed) (λ _. Reads-after_selection _ id (err e))
        (λ allowed. after_step _ (Quiet-record_port_error (some id) "selection_read_native" e) λ _.
          Ensures-perform (clipboard_read_selected_text t.target_ref)
            (may.0, may.1, may.2, not-false allowed, refl)
            λ r. Reads-if_reserved _ id (Reads-after_selection _ id r))

  Reads-read_selection :
      (failed : Bool) (id : ℕ) (t : CapturedTarget)
      → Reads (some t, failed) (read_selection id settings route t)
  unfolding read_selection
  Reads-read_selection failed id t =
      Ensures-if
        (is_safe t.security && (t.has_selection && (settings.read_selected_text && is_llm route)))
        (λ tests.
          Ensures-perform (targets_read_selected_text t.target_ref) (MayReadOf-tests t tests) λ r.
            Reads-if_reserved _ id
              (Reads-after_native_selection failed id t r (MayReadOf-tests t tests)))
        (λ _. Ensures-pure _ tt)

  Reads-after_target :
      (id : ℕ) (r : Fallible CapturedTarget)
      → Reads (seen_after (none, false) targets_capture r) (after_target id settings route r)
  unfolding after_target
  Reads-after_target id (ok t) =
      Ensures-bind (Reads-read_selection false id t) (λ seen selected _. Ensures-pure _ tt)
        (λ seen e _. tt)
  Reads-after_target id (err e) =
      after_step _ (Quiet-record_port_error (some id) "target_capture" e)
        λ _. after_step _ (Quiet-release_reservation id) λ _. Ensures-pure _ tt

  Reads-capture_target : (id : ℕ) → Reads (none, false) (capture_target id settings route)
  unfolding capture_target
  Reads-capture_target id =
      Ensures-perform targets_capture tt λ r. Reads-if_reserved _ id (Reads-after_target id r)

-- In every run of the part of `start` between the gate and the microphone, whatever the ports answer:
-- the selected text is read only of the target that was captured in this run, if that target is safe
-- and has a selection, the settings allow the reading and the text will go to a provider; it is read
-- by the clipboard only after the native reading has failed and if the settings allow the clipboard;
-- and no text is handed out, saved or sent to a provider.
pub capture_target-reads :
    (settings : SettingsSnapshot) (route : TextProcessingRoute) (id : ℕ) (es : List Event)
    (r : Result OrchestratorError (Phase (CapturedTarget × Option Text)))
    → Runs (λ _. Unit) (capture_target id settings route) es r
    → AreAllowed (reading settings route) (none, false) es
capture_target-reads settings route id es r run =
    (Ensures-Runs (Reads-capture_target settings route id) run).0
