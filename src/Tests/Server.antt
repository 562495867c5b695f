-- ===== src/Tests/Server.antt =====
-- Runs of the service (src/server.rs), of the route to the first-party service (src/native.rs) and of
-- the routing identifiers (src/protocol.rs).
use grok_codex_bridge.Base.{
  String, List, ℕ, ◌≤◌, ◌<◌, ◌≡◌, refl, true, none, some, [], ◌∷◌, map, ok, err, All, nat_eq,
  if◌then◌else◌,
}
use grok_codex_bridge.Base.Text.{bytes, byte_len}
use grok_codex_bridge.Catalog.{model_object, has_model}
use grok_codex_bridge.Config.{fold_difference}
use grok_codex_bridge.Grok.{transport, rate_limited}
use grok_codex_bridge.Json.{insert, array, nil, end, field, get}
use grok_codex_bridge.Native.Retry.{Attempt, responded}
use grok_codex_bridge.Native.Route.{
  NativeRouteState, chatgpt_codex, native_compatibility, new_native_compatibility, route_contains,
  native_compatibility_fallback, is_native_model, binary_search, route_state_version,
}
use grok_codex_bridge.Native.Route.Laws.{new_native_compatibility_lem}
use grok_codex_bridge.Native.Transport.{responses}
use grok_codex_bridge.Protocol.Input.{contains}
use grok_codex_bridge.Server.Attempt.{Post, Upstream, attempt_from}
use grok_codex_bridge.Server.Attempt.Laws.{attempt_ends}
use grok_codex_bridge.Server.Body.{Codec, RoutedRequest}
use grok_codex_bridge.Server.Handler.{route_picker_responses, route_responses}
use grok_codex_bridge.Server.World.{ServiceState, Incoming, World, native_posted, loaded}
use grok_codex_bridge.Server.Handler.Effects.{AllowsCaller, effects_lem}
use grok_codex_bridge.Server.Native.{Body, chunk, chunk_failed, NativeAnswer, native_response}
use grok_codex_bridge.Server.Native.Laws.{native_response_ends}
use grok_codex_bridge.Server.Publish.{Routing, replace_catalog}
use grok_codex_bridge.Server.Publish.Laws.{IsWhole, IsWhole-replace_catalog}
use grok_codex_bridge.Tests.Requests.{no_url, json}
use grok_codex_bridge.Protocol.Namespace.{default}

-- The first post is refused for a second, the second gives a stream that fails at once.
abbrev posts : ℕ → Post
posts i =
    if nat_eq i 0
    then record { answer = err (rate_limited (some 1)); elapsed = 10 }
    else record { answer = ok (err transport ∷ []); elapsed = 2000 }

attempt_ends_example :
    (r : Upstream × ℕ) × (attempt_from json "u" default posts 4 0 ≡ some r) × (r.1 ≤ 3)
attempt_ends_example = attempt_ends json "u" default posts

-- Every send is answered, and every body but the third fails.
abbrev sends : ℕ → Attempt
sends i = record { elapsed_before = 0; elapsed_after = 0; outcome = responded 200 none }

abbrev bodies : ℕ → Body
bodies i =
    if nat_eq i 3
    then record { elapsed = 100; first = chunk (1 ∷ []) }
    else record { elapsed = 100; first = chunk_failed 200 }

native_response_ends_example :
    (r : NativeAnswer × ℕ) × (native_response sends bodies ≡ some r) × (0 < r.1) × (r.1 ≤ 4)
native_response_ends_example = native_response_ends sends bodies

abbrev native_models : List String
native_models = "gpt-6" ∷ "gpt-5" ∷ []

abbrev native_state : NativeRouteState
native_state = record {
  version = route_state_version;
  upstream = chatgpt_codex;
  native_models = "gpt-5" ∷ "gpt-6" ∷ [];
  mode = native_compatibility "gpt-5";
}

state_is_made : new_native_compatibility chatgpt_codex native_models "gpt-5" ≡ ok native_state
unfolding new_native_compatibility is_native_model bytes byte_len binary_search
state_is_made = refl

new_native_compatibility_example :
    ((model : String) → route_contains native_state model ≡ contains native_models model)
    × (contains native_models "gpt-5" ≡ true)
    × (native_compatibility_fallback native_state ≡ some "gpt-5")
new_native_compatibility_example =
    new_native_compatibility_lem chatgpt_codex native_models "gpt-5" native_state state_is_made

abbrev gpt_request : RoutedRequest
gpt_request = record { model = "gpt-5"; fields = field "input" (array nil) end }

abbrev codec : Codec
codec = record {
  zstd_decode = λ n b. none;
  zstd_encode = λ b. none;
  from_slice = λ b. some gpt_request;
  to_vec = λ v. none;
}

abbrev world : World
world = record {
  codec = codec;
  parse_url = no_url;
  json = json;
  sha256 = λ b. [];
  fresh = [];
  request_id = [];
  agent_id = [];
  uuid = "u";
  credential = loaded;
  posts = posts;
  sends = sends;
  bodies = bodies;
}

abbrev token : List ℕ
unfolding bytes
token = bytes "abcdefghijklmnopqrstuvwxyz_12345"

abbrev service : ServiceState
service = record {
  capability = token;
  catalog = map model_object ("grok-4.5" ∷ []);
  responses = true;
  native = some native_state;
  responses_disabled = true;
}

abbrev incoming : Incoming
incoming = record {
  path = responses;
  body = some (1 ∷ 2 ∷ []);
  encoding = none;
  caller = some "abcdefghijklmnopqrstuvwxyz_12345";
}

body_is_forwarded :
    (route_picker_responses world service incoming).1 ≡ native_posted responses (1 ∷ 2 ∷ []) ∷ []
unfolding route_picker_responses fold_difference has_model binary_search get insert bytes
body_is_forwarded = refl

effects_example :
    All
      (AllowsCaller world service incoming "abcdefghijklmnopqrstuvwxyz_12345")
      (route_picker_responses world service incoming).1
    × All
        (AllowsCaller world service incoming "wrong")
        (route_responses world service "wrong" incoming).1
effects_example = effects_lem world service incoming "wrong"

abbrev routing : Routing
routing = record { models = map model_object ("grok-4.5" ∷ []); route = native_state }

IsWhole-replace_catalog_example :
    IsWhole routing
      ("grok-5" ∷ [])
      native_state
      (replace_catalog routing ("grok-5" ∷ []) native_state)
IsWhole-replace_catalog_example = IsWhole-replace_catalog routing ("grok-5" ∷ []) native_state
