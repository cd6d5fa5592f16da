-- ===== src/Routes.antt =====
-- crates/remtene-application/src/asr_route.rs and text_route.rs: which engine recognises, and
-- whether a provider rewrites the transcript. The types of the routes are those of ports.rs.
use rem_tene_public.Base.{◌≡◌, ◌↔◌, Bool, Option, String, arith, Result, ok, err}
use rem_tene_public.Base.Text.{Text}
use rem_tene_public.Settings.{
  AsrEngine, qwen, whisper, AsrPreference, prefer_qwen, prefer_whisper, engine, ProcessingMode, raw,
  faithful, structured,
}

pub record PortError : Type 0 where
  pub code : String
  pub safe_message_key : String
  pub retryable : Bool

pub data EngineHealth : Type 0 where
  healthy unhealthy missing incompatible : EngineHealth

pub record ResolvedAsrRoute : Type 0 where
  pub engine : AsrEngine

pub data AsrRouteError : Type 0 where
  no_healthy_engine : AsrRouteError

unfoldable pub resolve_asr_route :
    AsrPreference → EngineHealth → EngineHealth → Result AsrRouteError ResolvedAsrRoute
resolve_asr_route prefer_qwen healthy whisper_health = ok (record { engine = qwen })
resolve_asr_route prefer_whisper qwen_health healthy = ok (record { engine = whisper })
resolve_asr_route _ _ _ = err no_healthy_engine

pub record LlmRouteCandidate : Type 0 where
  pub base_url : Text
  pub model : Text

pub record ResolvedLlmRoute : Type 0 where
  pub provider_ref : Text
  pub endpoint : Text
  pub model : Text
  pub secret_id : Text

pub data LlmRouteResolution : Type 0 where
  no_configuration : LlmRouteResolution
  missing_secret ready : ResolvedLlmRoute → LlmRouteResolution
  unavailable : Option ResolvedLlmRoute → PortError → LlmRouteResolution

pub data DirectDeliveryReason : Type 0 where
  raw_mode llm_not_configured llm_unavailable : DirectDeliveryReason

pub data TextProcessingRoute : Type 0 where
  direct_asr : DirectDeliveryReason → TextProcessingRoute
  llm_route : ResolvedLlmRoute → TextProcessingRoute

ai_route : LlmRouteResolution → TextProcessingRoute
ai_route (ready route) = llm_route route
ai_route no_configuration = direct_asr llm_not_configured
ai_route (missing_secret _) = direct_asr llm_not_configured
ai_route (unavailable _ _) = direct_asr llm_unavailable

unfoldable pub text_processing_route : ProcessingMode → LlmRouteResolution → TextProcessingRoute
unfolding ai_route
text_processing_route raw resolution = direct_asr raw_mode
text_processing_route faithful resolution = ai_route resolution
text_processing_route structured resolution = ai_route resolution

abbrev pub health_of : AsrEngine → EngineHealth → EngineHealth → EngineHealth
health_of qwen q w = q
health_of whisper q w = w

-- The engine of a route is the one that the user prefers, and a route exists exactly when that
-- engine is healthy: the other engine is never a fallback.
pub resolve_asr_route-engine :
    (preference : AsrPreference) (q w : EngineHealth) (r : ResolvedAsrRoute)
    → (resolve_asr_route preference q w ≡ ok r)
      ↔ ((r.engine ≡ engine preference) × (health_of (engine preference) q w ≡ healthy))
unfolding resolve_asr_route engine
resolve_asr_route-engine preference q w r = (λ h. ground arith, λ h. ground arith)

-- A transcript goes to a provider exactly when the mode is not raw and the provider's route is
-- ready, and then by that route.
pub text_processing_route-llm :
    (mode : ProcessingMode) (resolution : LlmRouteResolution) (r : ResolvedLlmRoute)
    → (text_processing_route mode resolution ≡ llm_route r)
      ↔ ((mode ≡ raw → ⊥) × (resolution ≡ ready r))
unfolding text_processing_route
text_processing_route-llm mode resolution r = (λ h. ground arith, λ h. ground arith)
