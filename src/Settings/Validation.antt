-- ===== src/Settings/Validation.antt =====
-- What the validated constructors of crates/remtene-domain/src/settings.rs let through.

use rem_tene_public.Base.{ℕ, ◌≤◌, ◌<◌, ◌≡◌, ◌↔◌, false, some, arith, ok}
use rem_tene_public.Base.Text.{Text, trim, is_empty, is_control, any, len}
use rem_tene_public.Settings.{
  SettingsSnapshot, new_snapshot, LlmNonSecretSettings, new_llm, max_llm_base_url_bytes,
  max_llm_model_bytes,
}

-- A text that a setting may hold: not empty, at most `limit` bytes, no control character.
pub record IsCleanText (limit : ℕ) (t : Text) : Type 0 where
  pub filled : is_empty t ≡ false
  pub bounded : len t ≤ limit
  pub printable : any is_control t ≡ false

pub record IsValidLlm (l : LlmNonSecretSettings) : Type 0 where
  pub url : IsCleanText max_llm_base_url_bytes l.base_url
  pub name : IsCleanText max_llm_model_bytes l.model

-- What `SettingsSnapshot::new` is for: a positive duration, a positive history limit, and no
-- retention of zero days.
pub record IsValid (s : SettingsSnapshot) : Type 0 where
  pub duration : 0 < s.max_recording_duration
  pub limit : 0 < s.history_policy.limit
  pub retention : (days : ℕ) → s.history_policy.retention_days ≡ some days → 0 < days

-- `SettingsSnapshot::new` accepts exactly the valid inputs, and returns them unchanged.
pub new_snapshot-IsValid :
    (s t : SettingsSnapshot) → (new_snapshot s ≡ ok t) ↔ (IsValid s × (s ≡ t))
unfolding new_snapshot
new_snapshot-IsValid s t = (
  λ h. (
    record { duration = ground arith; limit = ground arith; retention = λ days e. ground arith },
    ground arith,
  ),
  λ (v, e). ground (arith, v.duration, v.limit, v.retention 0),
)

-- A provider that `LlmNonSecretSettings::new` accepts has the trimmed URL and the trimmed model, and
-- both are clean: not empty, within their limits of bytes and without control characters.
pub new_llm-IsValidLlm :
    (url model : Text) (l : LlmNonSecretSettings)
    → new_llm url model ≡ ok l
    → IsValidLlm l × (l.base_url ≡ trim url) × (l.model ≡ trim model)
unfolding new_llm
new_llm-IsValidLlm url model l h = ground arith

-- `LlmNonSecretSettings::new` accepts every URL and model that are clean once trimmed, and stores
-- them trimmed.
new_llm_accepts :
    (url model : Text)
    → IsCleanText max_llm_base_url_bytes (trim url)
    → IsCleanText max_llm_model_bytes (trim model)
    → new_llm url model ≡ ok (record { base_url = trim url; model = trim model })
unfolding new_llm
new_llm_accepts url model u m = ground arith
