-- ===== src/Tests/Streams.antt =====
-- Runs of the event stream (src/protocol.rs and src/grok.rs).
use grok_codex_bridge.Protocol.Event.{passthrough, response_completed, validate_known_sse_event}
use grok_codex_bridge.Base.{
  if◌then◌else◌, is_some, Result, ok, err, ◌≡◌, refl, true, false, none, some, List, [], ◌∷◌, arith,
  ◌==◌, String,
}
use grok_codex_bridge.Grok.{GrokError}
use grok_codex_bridge.Grok.Events.{stream_of, drain}
use grok_codex_bridge.Grok.Events.Laws.{closes, closes-drain}
use grok_codex_bridge.Json.{Value, string, object, end, field, get}
use grok_codex_bridge.Protocol.Error.{invalid_sse_payload}
use grok_codex_bridge.Protocol.Namespace.{default}
use grok_codex_bridge.Protocol.Restore.{JsonText}
use grok_codex_bridge.Protocol.Stream.{
  awaiting_created, streaming, ValidatedTextStreamEvent, TextStreamValidator, new, admit,
  accept_value, completed_value, synthetic_completed_on_eof,
}
use grok_codex_bridge.Protocol.Stream.Laws.{IsOver, eof-accept_value, accept_value-synthetic}

abbrev created_event : Value
created_event = object (field "type" (string "response.created") end)

abbrev delta_event : Value
delta_event = object (field "type" (string "response.something_new") end)

-- The reader knows two payloads.
abbrev reader : JsonText
reader = record {
  from_str =
      λ s. if s == "new" then some delta_event else if s == "bad" then some created_event else none;
  to_string = λ v. "";
}

abbrev payloads : List (Result GrokError String)
payloads = ok "new" ∷ ok "" ∷ ok "new" ∷ []

closes-drain_example :
    closes awaiting_created (drain reader "u" default 4 (stream_of payloads new false)) ≡ true
closes-drain_example = closes-drain reader "u" default payloads 4 (ground arith)

created_is_refused : (accept_value new created_event).0 ≡ err invalid_sse_payload
unfolding accept_value validate_known_sse_event get
created_is_refused = refl

abbrev delta_accepted : ValidatedTextStreamEvent
delta_accepted = record {
  sequence_number = 0;
  kind = passthrough "response.something_new";
  original = delta_event;
}

delta_is_accepted : (accept_value new delta_event).0 ≡ ok delta_accepted
unfolding accept_value validate_known_sse_event get new admit
delta_is_accepted = refl

eof-accept_value_example :
    (IsOver delta_accepted.kind
      → (synthetic_completed_on_eof "u" (accept_value new delta_event).1).0 ≡ none)
    × (¬ IsOver delta_accepted.kind
        → is_some (synthetic_completed_on_eof "u" (accept_value new delta_event).1).0 ≡ true)
eof-accept_value_example = eof-accept_value "u" new delta_event delta_accepted delta_is_accepted

abbrev mid_stream : TextStreamValidator
mid_stream = record { state = streaming; last_sequence = some 4; response_id = some "resp_1" }

abbrev made : ValidatedTextStreamEvent
made = record {
  sequence_number = 5;
  kind = response_completed "resp_1";
  original = completed_value 5 "resp_1";
}

made_at_end : (synthetic_completed_on_eof "u" mid_stream).0 ≡ some made
unfolding synthetic_completed_on_eof
made_at_end = refl

accept_value-synthetic_example : (accept_value mid_stream made.original).0 ≡ ok made
accept_value-synthetic_example = accept_value-synthetic "u" mid_stream mid_stream made made_at_end
