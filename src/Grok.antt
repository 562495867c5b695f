-- ===== src/Grok.antt =====
-- src/grok.rs: the client of Grok's Responses endpoint.
use grok_codex_bridge.Base.{ℕ, Option, String}
use grok_codex_bridge.Protocol.Error.{ProtocolError}
pub mod Events

-- The errors; the causes of other crates are left out.
pub data GrokError : Type 0 where
  build_client invalid_endpoint transport models_timeout : GrokError
  authentication_rejected : ℕ → GrokError
  rate_limited : Option ℕ → GrokError
  upstream_status : ℕ → GrokError
  decode_models invalid_model_entry unconfirmed_responses_model hidden_model_entry : GrokError
  unsupported_api_model_entry alternate_model_origin catalog_error : GrokError
  unexpected_response_content_type invalid_sse_framing : GrokError
  protocol_error : ProtocolError → GrokError
  stream_failed request_serialization : GrokError
