-- ===== src/Settings.antt =====
-- crates/remtene-domain/src/settings.rs: the settings that a recording freezes, and the validated
-- constructors. Texts are lists of scalar values, durations are milliseconds.
pub mod Validation
use rem_tene_public.Base.{
  ℕ, ◌*◌, Bool, true, Option, none, some, Result, ok, err, ltb, ◌==◌, if◌then◌else◌, is_some_and,
}
use rem_tene_public.Base.Text.{Text, trim, is_empty, is_control, any, len}

pub data RecordingMode : Type 0 where
  toggle push_to_talk : RecordingMode

pub data ProcessingMode : Type 0 where
  raw faithful structured : ProcessingMode

pub data AsrPreference : Type 0 where
  prefer_qwen prefer_whisper : AsrPreference

pub data AsrEngine : Type 0 where
  qwen whisper : AsrEngine

unfoldable pub engine : AsrPreference → AsrEngine
engine prefer_qwen = qwen
engine prefer_whisper = whisper

unfoldable pub from_engine : AsrEngine → AsrPreference
from_engine qwen = prefer_qwen
from_engine whisper = prefer_whisper

pub data SettingsValidationError : Type 0 where
  zero_recording_duration empty_recording_shortcut recording_shortcut_too_long :
      SettingsValidationError
  recording_shortcut_contains_control zero_history_limit zero_history_retention :
      SettingsValidationError
  empty_llm_base_url llm_base_url_too_long llm_base_url_contains_control : SettingsValidationError
  empty_llm_model llm_model_too_long llm_model_contains_control : SettingsValidationError

abbrev pub max_llm_base_url_bytes : ℕ
max_llm_base_url_bytes = 8 * 1024

abbrev pub max_llm_model_bytes : ℕ
max_llm_model_bytes = 512

abbrev pub max_recording_shortcut_bytes : ℕ
max_recording_shortcut_bytes = 128

pub record RecordingShortcut : Type 0 where
  pub value : Text

unfoldable pub new_shortcut : Text → Result SettingsValidationError RecordingShortcut
new_shortcut input =
    let value = trim input in
    if is_empty value
    then err empty_recording_shortcut
    else if ltb max_recording_shortcut_bytes (len value)
    then err recording_shortcut_too_long
    else if any is_control value
    then err recording_shortcut_contains_control
    else ok (record { value = value })

pub record HistoryPolicy : Type 0 where
  pub enabled : Bool
  pub limit : ℕ
  pub retention_days : Option ℕ

abbrev pub default_history_policy : HistoryPolicy
default_history_policy = record { enabled = true; limit = 10; retention_days = none }

pub record LlmNonSecretSettings : Type 0 where
  pub base_url : Text
  pub model : Text

unfoldable pub new_llm : Text → Text → Result SettingsValidationError LlmNonSecretSettings
new_llm url_input model_input =
    let base_url = trim url_input in
    let model = trim model_input in
    if is_empty base_url
    then err empty_llm_base_url
    else if ltb max_llm_base_url_bytes (len base_url)
    then err llm_base_url_too_long
    else if any is_control base_url
    then err llm_base_url_contains_control
    else if is_empty model
    then err empty_llm_model
    else if ltb max_llm_model_bytes (len model)
    then err llm_model_too_long
    else if any is_control model
    then err llm_model_contains_control
    else ok (record { base_url = base_url; model = model })

pub record SettingsSnapshot : Type 0 where
  pub version : ℕ
  pub recording_mode : RecordingMode
  pub max_recording_duration : ℕ
  pub recording_shortcut : Option RecordingShortcut
  pub processing_mode : ProcessingMode
  pub asr_preference : AsrPreference
  pub llm : Option LlmNonSecretSettings
  pub read_selected_text : Bool
  pub clipboard_bridge_allowed : Bool
  pub auto_copy_result : Bool
  pub local_diagnostics_enabled : Bool
  pub history_policy : HistoryPolicy

-- `SettingsSnapshotInput` and `SettingsSnapshot` have the same fields: a snapshot is an input that
-- `new_snapshot` has let through.
unfoldable pub new_snapshot : SettingsSnapshot → Result SettingsValidationError SettingsSnapshot
new_snapshot input =
    if input.max_recording_duration == 0
    then err zero_recording_duration
    else if input.history_policy.limit == 0
    then err zero_history_limit
    else if is_some_and input.history_policy.retention_days (λ days. days == 0)
    then err zero_history_retention
    else ok input
