-- ===== src/Server.antt =====
-- src/server.rs: the answers of the service, and what decides them.
use grok_codex_bridge.Base.{ℕ, Option, none, some, String, leb, if◌then◌else◌, ◌&&◌}
use grok_codex_bridge.Grok.{
  GrokError, transport, authentication_rejected, rate_limited, upstream_status,
  unexpected_response_content_type,
}
pub mod Attempt
pub mod Native
pub mod Body
pub mod World
pub mod Handler
pub mod Publish

-- `ErrorBody` with the status and the two headers that `upstream_error` may add.
pub record Failure : Type 0 where
  pub status : ℕ
  pub error_type : String
  pub code : String
  pub text : String
  pub retry_after : Option ℕ
  pub x_grok_upstream_status : Option ℕ

-- `route_error`; the class of the error is only logged
abbrev pub route_error : ℕ → String → String → String → Failure
route_error status error_type code text = record {
  status = status;
  error_type = error_type;
  code = code;
  text = text;
  retry_after = none;
  x_grok_upstream_status = none;
}

abbrev unavailable : Failure
unavailable =
    route_error 503 "server_error" "upstream_unavailable"
      "xAI Responses service is temporarily unavailable"

abbrev invalid_response : Failure
invalid_response =
    route_error 502 "server_error" "invalid_upstream_response"
      "xAI returned an invalid Responses response"

unfoldable pub upstream_error : GrokError → Failure
upstream_error (authentication_rejected s) =
    route_error 401 "authentication_error" "grok_login_required"
      "xAI rejected the Grok credential; run the official Grok login flow"
upstream_error (rate_limited seconds) =
    record (route_error 429 "rate_limit_error" "rate_limited" "xAI rate limited the Grok request") {
      retry_after = seconds;
    }
upstream_error transport = unavailable
upstream_error (upstream_status s) =
    record (if leb 500 s && leb s 599 then unavailable else invalid_response) {
      x_grok_upstream_status = some s;
    }
upstream_error unexpected_response_content_type =
    route_error 502 "server_error" "invalid_upstream_response"
      "xAI returned an invalid Responses stream"
upstream_error _ = invalid_response
