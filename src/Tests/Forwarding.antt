-- ===== src/Tests/Forwarding.antt =====
-- Runs of the streams that go downstream and of the bodies that are forwarded (src/server.rs), and of
-- the routing identifiers (src/protocol.rs).
use grok_codex_bridge.Base.{
  leb, leb_iff, sym, ap, ◌∙◌, String, List, ℕ, ◌≤◌, ◌<◌, ◌≡◌, refl, arith, Option, none, some, [],
  ◌∷◌, ◌++◌, ok, err, get_or, nat_eq, if◌then◌else◌, length, ◌==◌,
}
use grok_codex_bridge.Base.Trim.{trim}
use grok_codex_bridge.Json.{
  get_str, null, modify, Value, object, array, nil, end, field, get, insert,
}
use grok_codex_bridge.Protocol.Sanitize.{sanitize}
use grok_codex_bridge.Server.Body.{
  override_model, encoded, Codec, RoutedRequest, into_value, decode_request_copy,
  native_request_body, max_responses_body_bytes,
}
use mathlib.Core.Path.{subst}
use grok_codex_bridge.Tests.Requests.{accepted}
use grok_codex_bridge.Base.Text.{is_blank}
use grok_codex_bridge.Grok.{transport}
use grok_codex_bridge.Protocol.Restore.{
  restore_response_event, canonicalize_response_event_arguments, JsonText,
}
use grok_codex_bridge.Native.Transport.{responses}
use grok_codex_bridge.Protocol.Event.{response_completed, validate_known_sse_event}
use grok_codex_bridge.Protocol.Items.{function_call, to_grok_value}
use grok_codex_bridge.Protocol.Namespace.{default}
use grok_codex_bridge.Protocol.Request.{NormalizedResponsesRequest}
use grok_codex_bridge.Protocol.Routing.{
  GrokRoutingMetadata, first_value, derived_conversation_id, grok_routing_metadata,
}
use grok_codex_bridge.Protocol.Routing.Laws.{
  IsUuid, conversation_stable, IsUuid-grok_routing_metadata,
}
use grok_codex_bridge.Protocol.Stream.{
  ValidatedTextStreamEvent, completed_value, admit, accept_value,
}
use grok_codex_bridge.Server.Attempt.{Post, event_commits_downstream, streaming_from, attempt_from}
use grok_codex_bridge.Server.Attempt.Streams.{IsWhole, IsSilent, attempt_streams}
use grok_codex_bridge.Server.Body.Laws.{IsCodec, IsWritable, meant, native_request_body_lem}

-- The reader knows one payload.
abbrev reader : JsonText
reader = record {
  from_str = λ s. if s == "done" then some (completed_value 0 "r1") else none;
  to_string = λ v. "[]";
}

-- The first post fails, the second gives one event.
abbrev posts : ℕ → Post
posts i =
    if nat_eq i 0
    then record { answer = err transport; elapsed = 10 }
    else record { answer = ok (ok "done" ∷ []); elapsed = 2000 }

abbrev done_event : ValidatedTextStreamEvent
done_event = record {
  sequence_number = 0;
  kind = response_completed "r1";
  original = completed_value 0 "r1";
}

second_post_streams :
    attempt_from reader "u" default posts 4 0 ≡ some (streaming_from (done_event ∷ []) [], 1)
unfolding attempt_from is_blank accept_value validate_known_sse_event get insert
    event_commits_downstream admit restore_response_event canonicalize_response_event_arguments
    modify
second_post_streams = refl

attempt_streams_example :
    IsWhole reader "u" default (posts 1) (done_event ∷ []) []
    × ((j : ℕ) → j < 1 → IsSilent reader "u" default (posts j))
attempt_streams_example =
    attempt_streams reader "u" default posts 1 (done_event ∷ []) [] second_post_streams

abbrev longer : NormalizedResponsesRequest
longer = record accepted { items = accepted.items ++ accepted.items }

abbrev zeros : List ℕ
zeros =
    0 ∷ 0 ∷ 0 ∷ 0 ∷ 0 ∷ 0 ∷ 0 ∷ 0 ∷ 0 ∷ 0 ∷ 0 ∷ 0 ∷ 0 ∷ 0 ∷ 0 ∷ 0 ∷ 0 ∷ 0 ∷ 0 ∷ 0 ∷ 0 ∷ 0 ∷ 0 ∷ 0
    ∷ 0 ∷ 0 ∷ 0 ∷ 0 ∷ 0 ∷ 0 ∷ 0 ∷ 0 ∷ []

abbrev printer : Value → String
printer v = "[]"

abbrev digest : List ℕ → List ℕ
digest bs = zeros

abbrev call_value : Value
unfolding insert
call_value = get_or null (
    to_grok_value printer
      (function_call (record { name = "run"; arguments = "{}"; call_id = "c1" })))

first_is_sent : first_value printer accepted.items ≡ some call_value
unfolding first_value call_value to_grok_value
first_is_sent = refl

conversation_stable_example :
    derived_conversation_id printer digest (1 ∷ []) longer
    ≡ derived_conversation_id printer digest [] accepted
conversation_stable_example =
    conversation_stable printer digest [] (1 ∷ []) accepted longer accepted.items call_value
      first_is_sent refl refl

IsUuid_example :
    (routing : GrokRoutingMetadata) × (grok_routing_metadata printer digest []
        (1 ∷ [])
        (2 ∷ [])
        accepted
      ≡ ok routing)
    × IsUuid routing.conversation_id
    × (routing.turn_index ≡ 1)
IsUuid_example =
    IsUuid-grok_routing_metadata printer digest [] (1 ∷ []) (2 ∷ []) accepted call_value
      (λ bs. (refl, omega arith)) first_is_sent

-- Two requests, read from one byte each.
abbrev gpt_request : RoutedRequest
gpt_request = record { model = "gpt-5"; fields = field "input" (array nil) end }

abbrev codex_request : RoutedRequest
codex_request = record { model = "gpt-6"; fields = field "input" (array nil) end }

abbrev unpack : ℕ → List ℕ → Option (List ℕ)
unpack n [] = none
unpack n (x ∷ b) = if leb (length b) n then some b else none

abbrev write : Value → Option (List ℕ)
write (object m) = elim (get_str m "model") [
  | none ↦ none
  | some s ↦ if s == "gpt-6" then some (8 ∷ []) else none
]
write v = none

abbrev read : List ℕ → Option RoutedRequest
read [] = none
read (x ∷ b) =
    if nat_eq x 9 then some gpt_request else if nat_eq x 8 then some codex_request else none

-- Packing puts a byte before the others.
abbrev byte_codec : Codec
byte_codec = record {
  zstd_decode = unpack;
  zstd_encode = λ b. some (0 ∷ b);
  from_slice = read;
  to_vec = write;
}

byte_codec-IsCodec : IsCodec byte_codec
byte_codec-IsCodec b packed n h l =
    let unpacked : unpack n (0 ∷ b) ≡ some b = rw ((leb_iff (length b) n).1 l) refl in
    let same : 0 ∷ b ≡ packed = ground (arith, h) in ap (unpack n) (sym same) ∙ unpacked

codex_is_meant : meant responses gpt_request (some "gpt-6") ≡ object (into_value codex_request)
unfolding sanitize get insert into_value override_model
codex_is_meant = refl

codex_is_written : write (object (into_value codex_request)) ≡ some (8 ∷ [])
unfolding into_value get insert
codex_is_written = refl

codex-IsWritable : IsWritable byte_codec (meant responses gpt_request (some "gpt-6"))
codex-IsWritable b h =
    let same : 8 ∷ [] ≡ b = ground (arith, codex_is_written, ap write codex_is_meant, h) in
    (
      subst (λ b. length b ≤ max_responses_body_bytes) same (ground arith),
      (codex_request, ap read (sym same), sym codex_is_meant),
    )

-- The model is replaced, so the body is written again and packed again.
gpt_is_forwarded :
    native_request_body byte_codec responses
      (some (some "zstd"))
      (0 ∷ 9 ∷ [])
      (into_value gpt_request)
      (some "gpt-6")
    ≡ some (0 ∷ 8 ∷ [])
unfolding native_request_body get insert into_value trim sanitize override_model encoded
gpt_is_forwarded = refl

native_request_body_example :
    (copy : List ℕ) × (r' : RoutedRequest) × (decode_request_copy byte_codec
        (some (some "zstd"))
        (0 ∷ 8 ∷ [])
      ≡ some copy)
    × (byte_codec.from_slice copy ≡ some r')
    × (object (into_value r') ≡ meant responses gpt_request (some "gpt-6"))
unfolding decode_request_copy trim
native_request_body_example =
    native_request_body_lem byte_codec responses (some (some "zstd")) (0 ∷ 9 ∷ []) (9 ∷ [])
      (0 ∷ 8 ∷ []) gpt_request (some "gpt-6") byte_codec-IsCodec refl refl codex-IsWritable
      gpt_is_forwarded
