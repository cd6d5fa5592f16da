-- ===== src/Tests.antt =====
-- Runs of the domain and of the shared structures on concrete values: sessions of
-- crates/remtene-domain/src/session.rs, settings, routes, the coordinator, fences and debts.
pub mod Delivery
pub mod Shared
pub mod Slots
pub mod Selection
pub mod Processing
pub mod Contract
pub mod History
pub mod Supervisor
pub mod Frames
pub mod Modifier
use rem_tene_public.Base.{
  ℕ, ◌≡◌, ◌≢◌, ◌≤◌, ◌<◌, ◌↔◌, refl, Bool, true, false, Option, none, some, List, [], ◌∷◌, Result,
  ok, err, arith, is_some, if◌then◌else◌,
}
use rem_tene_public.Base.Text.{Text, trim, is_empty, is_control, any, len}
use rem_tene_public.Settings.{
  toggle, raw, faithful, ProcessingMode, SettingsSnapshot, LlmNonSecretSettings,
  default_history_policy, new_snapshot, new_llm, qwen, whisper, prefer_qwen, prefer_whisper, engine,
  max_llm_base_url_bytes, max_llm_model_bytes,
}
use rem_tene_public.Settings.Validation.{
  IsValid, IsValidLlm, IsCleanText, new_snapshot-IsValid, new_llm-IsValidLlm,
}
use rem_tene_public.Session
use rem_tene_public.Session.{
  SessionEvent, preflight_passed, finish_recording, cancel_recording, begin_delivery,
  begin_finalizing, complete, terminated, TranscriptionSession, TransitionError, ignored_duplicate,
  completed, fail, FailureCategory,
}
use rem_tene_public.Session.Life.{
  run-new, apply_unchanged, applied_events-le, applied_events, HasOutcomeOnceOver, SameFrozenFields,
}
use rem_tene_public.Session.Life
use rem_tene_public.Session.Completion.{IsSubsequence, completed_needs_delivery}

-- A minute at most, raw mode, with the history on.
abbrev pub settings : SettingsSnapshot
settings = record {
  version = 1;
  recording_mode = toggle;
  max_recording_duration = 60000;
  recording_shortcut = none;
  processing_mode = raw;
  asr_preference = prefer_qwen;
  llm = none;
  read_selected_text = false;
  clipboard_bridge_allowed = true;
  auto_copy_result = true;
  local_diagnostics_enabled = false;
  history_policy = default_history_policy;
}

new_snapshot-IsValid_example :
    (new_snapshot settings ≡ ok settings) ↔ (IsValid settings × (settings ≡ settings))
new_snapshot-IsValid_example = new_snapshot-IsValid settings settings

-- " u" and "m".
abbrev url : Text
url = 32 ∷ 117 ∷ []

abbrev model : Text
model = 109 ∷ []

abbrev provider : LlmNonSecretSettings
provider = record { base_url = 117 ∷ []; model = model }

new_llm-IsValidLlm_example :
    IsValidLlm provider × (provider.base_url ≡ trim url) × (provider.model ≡ trim model)
unfolding is_empty trim rem_tene_public.Base.Text.is_whitespace len any is_control new_llm
new_llm-IsValidLlm_example = new_llm-IsValidLlm url model provider refl

abbrev whole_life : List SessionEvent
whole_life = preflight_passed ∷ finish_recording ∷ begin_delivery ∷ begin_finalizing ∷ complete ∷ []

run-new_example :
    let s = Session.Life.run (Session.new 7 100 settings qwen) whole_life in
    HasOutcomeOnceOver s × SameFrozenFields (Session.new 7 100 settings qwen) s
run-new_example = run-new 7 100 settings qwen whole_life

apply_unchanged_example :
    let s = Session.new 7 100 settings qwen in
    (s.phase ≡ terminated → Session.apply s complete ≡ (s, ok ignored_duplicate))
    × ((x : TransitionError)
        → (Session.apply s complete).1 ≡ err x
        → (Session.apply s complete).0 ≡ s)
    × ((Session.apply s complete).1 ≡ ok ignored_duplicate → (Session.apply s complete).0 ≡ s)
apply_unchanged_example = apply_unchanged (Session.new 7 100 settings qwen) complete

applied_events-le_example : applied_events (Session.new 7 100 settings qwen) whole_life ≤ 6
applied_events-le_example = applied_events-le (Session.new 7 100 settings qwen) whole_life

completed_needs_delivery_example : IsSubsequence whole_life (
    preflight_passed ∷ finish_recording ∷ complete ∷ begin_delivery ∷ begin_finalizing ∷ complete
    ∷ [])
unfolding Session.Life.run Session.new Session.apply
completed_needs_delivery_example =
    completed_needs_delivery 7 100 settings qwen
      (preflight_passed ∷ finish_recording ∷ complete ∷ begin_delivery ∷ begin_finalizing ∷ complete
        ∷ [])
      refl
