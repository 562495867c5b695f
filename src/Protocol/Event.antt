-- ===== src/Protocol/Event.antt =====
-- The events of src/protocol.rs: their kinds, and the checks on known events.
use grok_codex_bridge.Base.{
  ℕ, String, Bool, not, Option, none, some, List, [], ◌∷◌, ◌==◌, any, get_or, ok, err, ◌>>◌, guard,
  or_else, if◌then◌else◌,
}
use grok_codex_bridge.Json.{Map, get_str, get_u64, get_object, ◌and_then◌}
use grok_codex_bridge.Protocol.Error.{invalid_sse_payload, Res}

-- The numbers are, in the source's order, `output_index` and `content_index` or `summary_index`.
pub data TextStreamEventKind : Type 0 where
  response_created response_in_progress : String → TextStreamEventKind
  output_item_added : String → ℕ → TextStreamEventKind
  content_part_added : String → ℕ → ℕ → String → TextStreamEventKind
  output_text_delta : String → ℕ → ℕ → String → TextStreamEventKind
  output_text_done : String → ℕ → ℕ → String → TextStreamEventKind
  content_part_done : String → ℕ → ℕ → String → TextStreamEventKind
  output_item_done : String → ℕ → String → TextStreamEventKind
  function_call_added : String → ℕ → String → String → TextStreamEventKind
  function_call_arguments_delta : String → ℕ → String → TextStreamEventKind
  function_call_arguments_done : String → ℕ → String → TextStreamEventKind
  function_call_item_done : String → ℕ → String → String → String → TextStreamEventKind
  reasoning_item_added : String → ℕ → TextStreamEventKind
  reasoning_summary_part_added : String → ℕ → ℕ → String → TextStreamEventKind
  reasoning_summary_text_delta : String → ℕ → ℕ → String → TextStreamEventKind
  reasoning_summary_text_done : String → ℕ → ℕ → String → TextStreamEventKind
  reasoning_summary_part_done : String → ℕ → ℕ → String → TextStreamEventKind
  reasoning_text_delta : String → ℕ → ℕ → String → TextStreamEventKind
  reasoning_text_done : String → ℕ → ℕ → String → TextStreamEventKind
  reasoning_item_done : String → ℕ → Option String → TextStreamEventKind
  opaque_item_added opaque_item_done : String → ℕ → String → TextStreamEventKind
  response_failed response_incomplete : String → TextStreamEventKind
  passthrough : String → TextStreamEventKind
  response_completed : String → TextStreamEventKind

abbrev pub required_nonempty : Option Map → String → Res (Unit {0})
required_nonempty source key = elim (source and_then (λ m. get_str m key)) [
  | none ↦ err invalid_sse_payload
  | some s ↦ guard (not (s == "")) invalid_sse_payload
]

abbrev pub required_text : Option Map → String → Res (Unit {0})
required_text source key = elim (source and_then (λ m. get_str m key)) [
  | none ↦ err invalid_sse_payload
  | some s ↦ ok tt
]

abbrev pub one_of : String → List String → Bool
one_of s options = any (λ o. s == o) options

-- What the two closures of `validate_known_sse_event` look for.
abbrev pub item_identity : Map → Res (Unit {0})
item_identity m =
    or_else (required_nonempty (some m) "item_id") (required_nonempty (get_object m "item") "id")

abbrev pub text_or_part : Map → Res (Unit {0})
text_or_part m =
    or_else (required_text (some m) "text") (required_text (get_object m "part") "text")

unfoldable pub validate_known_sse_event : String → Map → Res (Unit {0})
validate_known_sse_event type m =
    let response = get_object m "response" in
    let item = get_object m "item" in
    let owned = or_else (required_nonempty item "id") (required_nonempty (some m) "item_id") in
    if one_of type (
      "response.created" ∷ "response.in_progress" ∷ "response.completed" ∷ "response.failed"
      ∷ "response.incomplete" ∷ [])
    then required_nonempty response "id"
    else if one_of type (
        "response.output_item.added" ∷ "response.output_item.done" ∷ "response.reasoning.added"
        ∷ "response.reasoning.done" ∷ [])
    then owned
    else if type == "response.content_part.added"
    then item_identity m
    else if one_of type (
        "response.output_text.delta" ∷ "response.reasoning_text.delta"
        ∷ "response.reasoning_summary_text.delta" ∷ "response.function_call_arguments.delta" ∷ [])
    then (do item_identity m; required_text (some m) "delta")
    else if one_of type (
        "response.output_text.done" ∷ "response.reasoning_text.done"
        ∷ "response.reasoning_summary_text.done" ∷ "response.reasoning_summary_part.done" ∷ [])
    then (do item_identity m; text_or_part m)
    else if type == "response.content_part.done"
    then (do item_identity m; text_or_part m)
    else if type == "response.reasoning_summary_part.added"
    then item_identity m
    else if type == "response.function_call_arguments.done"
    then (do item_identity m; required_text (some m) "arguments")
    else if type == "response.function_call.added"
    then (do owned; required_nonempty item "call_id"; required_nonempty item "name")
    else ok tt

-- The closure `string` of `accept_value_permissive`.
abbrev pub string_at : Option Map → String → String
string_at source key = get_or "" (source and_then (λ m. get_str m key))

abbrev pub index_at : Map → String → ℕ
index_at m key = get_or 0 (get_u64 m key)

-- `item_id` of `accept_value_permissive`
abbrev pub item_id_of : Map → String
item_id_of m =
    let id = string_at (get_object m "item") "id" in
    if id == "" then string_at (some m) "item_id" else id

-- The `match event_type` that builds the kind.
unfoldable pub kind_of : String → Map → TextStreamEventKind
kind_of type m =
    let item = get_object m "item" in
    let item_id = item_id_of m in
    let output_index = index_at m "output_index" in
    let content_index = index_at m "content_index" in
    let summary_index = index_at m "summary_index" in
    let delta = string_at (some m) "delta" in
    let text = string_at (some m) "text" in
    let response_id = string_at (get_object m "response") "id" in
    if type == "response.created"
    then response_created response_id
    else if type == "response.in_progress"
    then response_in_progress response_id
    else if type == "response.output_item.added"
    then output_item_added item_id output_index
    else if type == "response.content_part.added"
    then content_part_added item_id output_index content_index text
    else if type == "response.output_text.delta"
    then output_text_delta item_id output_index content_index delta
    else if type == "response.output_text.done"
    then output_text_done item_id output_index content_index text
    else if type == "response.content_part.done"
    then content_part_done item_id output_index content_index text
    else if type == "response.output_item.done"
    then output_item_done item_id output_index text
    else if type == "response.function_call_arguments.delta"
    then function_call_arguments_delta item_id output_index delta
    else if type == "response.function_call_arguments.done"
    then function_call_arguments_done item_id output_index (string_at (some m) "arguments")
    else if type == "response.reasoning_summary_part.added"
    then reasoning_summary_part_added item_id output_index summary_index text
    else if type == "response.reasoning_summary_text.delta"
    then reasoning_summary_text_delta item_id output_index summary_index delta
    else if type == "response.reasoning_summary_text.done"
    then reasoning_summary_text_done item_id output_index summary_index text
    else if type == "response.reasoning_summary_part.done"
    then reasoning_summary_part_done item_id output_index summary_index text
    else if type == "response.reasoning_text.delta"
    then reasoning_text_delta item_id output_index content_index delta
    else if type == "response.reasoning_text.done"
    then reasoning_text_done item_id output_index content_index text
    else if type == "response.function_call.added"
    then function_call_added item_id output_index (string_at item "call_id") (string_at item "name")
    else if type == "response.reasoning.added"
    then reasoning_item_added item_id output_index
    else if type == "response.reasoning.done"
    then reasoning_item_done item_id output_index
        (item and_then (λ i. get_str i "encrypted_content"))
    else if type == "response.completed"
    then response_completed response_id
    else if type == "response.failed"
    then response_failed response_id
    else if type == "response.incomplete"
    then response_incomplete response_id
    else passthrough type
