-- ===== src/Server/Handler.antt =====
-- The handlers of src/server.rs.
use grok_codex_bridge.Base.{
  if◌then◌else◌, get_or, is_some, ok, err, true, false, not, ◌&&◌, ℕ, Bool, Option, none, some,
  List, [], ◌∷◌, String,
}
use grok_codex_bridge.Base.Text.{bytes}
use grok_codex_bridge.Catalog.{has_model, ModelObject}
use grok_codex_bridge.Config.{capability_matches}
use grok_codex_bridge.Json.{Map, object}
use grok_codex_bridge.Native.Route.{route_contains, native_compatibility_fallback, NativeRouteState}
use grok_codex_bridge.Native.Transport.{is_compact, NativeApiPath}
use grok_codex_bridge.Protocol.Error.{Res}
use grok_codex_bridge.Protocol.Request.{parse_request, NormalizedResponsesRequest, to_xai_object}
use grok_codex_bridge.Protocol.Routing.{grok_routing_metadata, GrokRoutingMetadata}
use grok_codex_bridge.Server.Body.{
  RoutedRequest, into_value, decode_request_copy, native_request_body, Codec, Encoding,
}
use grok_codex_bridge.Grok.{request_serialization}
use grok_codex_bridge.Grok.Events.{Event}
use grok_codex_bridge.Native.Retry.{Attempt}
use grok_codex_bridge.Protocol.Base64.Image.{ParseUrl}
use grok_codex_bridge.Protocol.Restore.{JsonText}
use grok_codex_bridge.Protocol.Stream.{ValidatedTextStreamEvent}
use grok_codex_bridge.Server.{Failure, route_error, upstream_error}
use grok_codex_bridge.Server.Attempt.{
  Post, Upstream, streaming_from, upstream_failed, upstream_ended, attempt_from,
}
pub mod Grok
pub mod Laws
pub mod Effects
use grok_codex_bridge.Server.Native.{
  native_unavailable, passed_on, Body, NativeAnswer, native_response,
}
use grok_codex_bridge.Server.World.{
  ServiceState, CredentialLoad, Incoming, World, Effect, Answer, Run, refuse, bad_request,
  unavailable, bridge_disabled, after, loaded, refused_load, task_failed, native_posted,
  credential_loaded, grok_posted, status_only, failed, from_native, from_grok,
}

abbrev pub native_answer : Option (NativeAnswer × ℕ) → Option Answer
native_answer none = none
native_answer (some (answer, attempts)) = some (from_native answer)

abbrev pub grok_answer : Option (Upstream × ℕ) → Option Answer
grok_answer none = none
grok_answer (some (streaming_from prelude rest, retries)) = some (from_grok prelude rest)
grok_answer (some (upstream_failed e, retries)) = some (failed (upstream_error e))
grok_answer (some (upstream_ended, retries)) = some (
    failed (
      route_error 502 "server_error" "upstream_stream_ended"
        "Grok upstream ended before producing a response"))

abbrev pub fallback_if : Bool → Option NativeRouteState → Option String
fallback_if false route = none
fallback_if true none = none
fallback_if true (some route) = native_compatibility_fallback route

abbrev pub routes_natively : Option NativeRouteState → String → Bool
unfolding route_contains
routes_natively none model = false
routes_natively (some route) model = route_contains route model

unfoldable pub picker_authorized : ServiceState → Incoming → Bool
unfolding bytes capability_matches
picker_authorized state incoming =
    capability_matches state.capability (bytes (get_or "" incoming.caller))

module _ (world : World) where
  -- `native_request_body` and `native_response`
  abbrev pub forward : NativeApiPath → String → Option (List ℕ) → Run
  forward path text none = bad_request "request_body_invalid" text
  forward path text (some body) =
      after (native_posted path body) (native_answer (native_response world.sends world.bodies), [])

  abbrev pub post_all : NormalizedResponsesRequest → GrokRoutingMetadata → Option (List ℕ) → Run
  post_all normalized routing none = refuse (upstream_error request_serialization)
  post_all normalized routing (some body) = after (grok_posted body routing.conversation_id) (
    grok_answer
        (attempt_from world.json world.uuid normalized.namespace_projection world.posts 4 0),
    [],
  )

  abbrev pub with_credential :
      NormalizedResponsesRequest → GrokRoutingMetadata → CredentialLoad → Run
  with_credential normalized routing loaded =
      post_all normalized routing
        (world.codec.to_vec (object (to_xai_object world.json.to_string normalized)))
  with_credential normalized routing refused_load = refuse (
      route_error 401 "authentication_error" "grok_login_required"
        "Grok credential is unavailable; run the official Grok login flow")
  with_credential normalized routing task_failed =
      unavailable "service_unavailable" "Grok Responses service is unavailable"

  abbrev pub with_routing :
      ServiceState → NormalizedResponsesRequest → Res GrokRoutingMetadata → Run
  with_routing state normalized (err e) =
      bad_request "unsupported_request" "Responses request is invalid or unsupported"
  with_routing state normalized (ok routing) =
      if state.responses
      then after credential_loaded (with_credential normalized routing world.credential)
      else unavailable "service_unavailable" "Grok Responses service is unavailable"

  abbrev pub with_normalized : ServiceState → Res NormalizedResponsesRequest → Run
  unfolding grok_routing_metadata
  with_normalized state (err e) =
      bad_request "unsupported_request" "Responses request is invalid or unsupported"
  with_normalized state (ok normalized) = with_routing state normalized (
      grok_routing_metadata world.json.to_string world.sha256 world.fresh world.request_id
        world.agent_id normalized)

  -- The rest of the handler, once the request is Grok's.
  unfoldable pub to_grok : ServiceState → NativeApiPath → Map → Run
  unfolding with_normalized parse_request to_xai_object attempt_from
  to_grok state path value =
      if is_compact path
      then bad_request "unsupported_request"
          "Grok upstream does not expose an authoritative Responses compact contract"
      else if state.responses_disabled
      then bridge_disabled
      else with_normalized state (parse_request world.parse_url world.json (object value))

  -- The match on `is_native` and `is_grok`.
  unfoldable pub dispatch :
      ServiceState → Incoming → List ℕ → Map → Bool → Bool → Option String → Run
  unfolding native_request_body to_grok native_response
  dispatch state incoming body value true false fallback =
      forward incoming.path "Responses request body encoding is invalid or unsupported"
        (native_request_body world.codec incoming.path incoming.encoding body value none)
  dispatch state incoming body value true true fallback =
      bad_request "model_route_ambiguous" "Requested model collides across Native and Grok catalogs"
  dispatch state incoming body value false false fallback =
      bad_request "model_not_admitted" "Requested model is not admitted by the current picker state"
  dispatch state incoming body value false true (some fallback_model) =
      forward incoming.path "Responses request encoding is invalid or unsupported" (
        native_request_body world.codec incoming.path incoming.encoding body value
          (some fallback_model))
  dispatch state incoming body value false true none = to_grok state incoming.path value

  unfoldable pub route_model : ServiceState → Incoming → List ℕ → RoutedRequest → Run
  unfolding dispatch into_value has_model routes_natively
  route_model state incoming body envelope =
      let is_native = routes_natively state.native envelope.model in
      let is_grok = has_model state.catalog envelope.model in
      dispatch state incoming body (into_value envelope) is_native is_grok
        (fallback_if (is_grok && not is_native) state.native)

  abbrev pub with_envelope : ServiceState → Incoming → List ℕ → Option RoutedRequest → Run
  unfolding route_model
  with_envelope state incoming body none =
      bad_request "invalid_json" "Responses request body must be valid JSON with a model"
  with_envelope state incoming body (some envelope) = route_model state incoming body envelope

  abbrev pub with_decoded : ServiceState → Incoming → List ℕ → Option (List ℕ) → Run
  unfolding with_envelope
  with_decoded state incoming body none =
      bad_request "request_body_invalid" "Responses request body encoding is invalid or unsupported"
  with_decoded state incoming body (some decoded) =
      with_envelope state incoming body (world.codec.from_slice decoded)

  abbrev pub with_body : ServiceState → Incoming → Option (List ℕ) → Run
  unfolding with_decoded decode_request_copy
  with_body state incoming none =
      bad_request "request_body_invalid" "Responses request body is invalid or too large"
  with_body state incoming (some body) =
      with_decoded state incoming body (decode_request_copy world.codec incoming.encoding body)

  unfoldable pub route_authorized_responses : ServiceState → Incoming → Run
  unfolding with_body
  route_authorized_responses state incoming = with_body state incoming incoming.body

  -- `route_responses`, with the capability of the path
  unfoldable pub route_responses : ServiceState → String → Incoming → Run
  unfolding bytes capability_matches route_authorized_responses
  route_responses state capability incoming =
      if not (capability_matches state.capability (bytes capability))
      then (some (status_only 404), [])
      else if state.responses_disabled && not (is_some state.native)
      then bridge_disabled
      else route_authorized_responses state incoming

  unfoldable pub route_picker_responses : ServiceState → Incoming → Run
  unfolding picker_authorized route_authorized_responses
  route_picker_responses state incoming =
      if not (picker_authorized state incoming)
      then (some (status_only 401), [])
      else route_authorized_responses state incoming

-- `native_stream_response`, with the status that `post_stream` comes to, none if it fails; and
-- `route_picker_native_api`, with whether the service was asked.
abbrev pub stream_answer : Option ℕ → Answer
stream_answer none = failed native_unavailable
stream_answer (some status) = from_native (passed_on status)

unfoldable pub route_picker_native_api : ServiceState → Incoming → Option ℕ → Answer × Bool
unfolding picker_authorized
route_picker_native_api state incoming status =
    if not (picker_authorized state incoming)
    then (status_only 401, false)
    else if not (is_some state.native)
    then (failed native_unavailable, false)
    else (stream_answer status, true)
