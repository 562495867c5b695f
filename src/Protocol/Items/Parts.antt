-- ===== src/Protocol/Items/Parts.antt =====
-- The parsers of the single items of src/protocol.rs: prior reasoning, agent messages, function calls
-- and their outputs.
use grok_codex_bridge.Protocol.Items.{
  absent_parts, null_parts, text_body, content_body, PriorReasoningContent, parts, PriorReasoning,
  FunctionCall, FunctionCallOutputBody, FunctionCallOutput,
}
use grok_codex_bridge.Base.{
  leb, if◌then◌else◌, length, get_or, ok, err, ◌>>=◌, ◌>>◌, guard, map_ok, collect, ℕ, ◌+◌, ◌*◌,
  Option, none, some, List, [], ◌∷◌, ◌==◌, String,
}
use grok_codex_bridge.Base.Split.{join}
use grok_codex_bridge.Base.Text.{byte_len, is_blank}
use grok_codex_bridge.Json.{Value, null, string, array, object, nil, cons, Map, to_list, get}
use grok_codex_bridge.Protocol.Base64.Image.{ParseUrl}
use grok_codex_bridge.Protocol.Content.{assistant, output_text, TextMessage, parse_input_content}
use grok_codex_bridge.Protocol.Error.{
  ProtocolError, invalid_request_field, unsupported_content, invalid_function_arguments, Res,
}
use grok_codex_bridge.Protocol.Fields.{
  has_only_keys, required_value, required_string, required_nonempty_string, required_array,
  optional_nonempty_string,
}
use grok_codex_bridge.Protocol.Namespace.{NamespaceToolProjection, ensure_provider_name}
use grok_codex_bridge.Protocol.Restore.{JsonText, canonical_text}
use grok_codex_bridge.Protocol.Restore.Reasoning.{max_encrypted_reasoning_bytes, parse_encrypted}

abbrev reasoning_error : ProtocolError
reasoning_error = invalid_request_field "reasoning"

abbrev max_reasoning_text_bytes : ℕ
max_reasoning_text_bytes = 4 * 1024 * 1024

abbrev max_reasoning_parts : ℕ
max_reasoning_parts = 64

abbrev reasoning_part_text : String → Map → Res String
reasoning_part_text kind part = do
  guard (has_only_keys part ("type" ∷ "text" ∷ [])) reasoning_error
  type ← required_string part "type"
  guard (type == kind) reasoning_error
  required_string part "text"

abbrev part_text : String → Value → Res String
part_text kind (object part) = reasoning_part_text kind part
part_text kind v = err reasoning_error

-- The iterator of `parse_prior_reasoning_parts`, with the bytes so far. A text has fewer than 2 ^ 63
-- bytes, so that `checked_add` does not fail below the limit.
unfoldable pub collect_parts : String → ℕ → List Value → Res (List String)
collect_parts kind total [] = ok []
collect_parts kind total (v ∷ vs) = do
  text ← part_text kind v
  guard (leb (total + byte_len text) max_reasoning_text_bytes) reasoning_error
  rest ← collect_parts kind (total + byte_len text) vs
  ok (text ∷ rest)

unfoldable pub parse_prior_reasoning_parts : String → List Value → Res (List String)
parse_prior_reasoning_parts kind values = do
  guard (leb (length values) max_reasoning_parts) reasoning_error
  collect_parts kind 0 values

abbrev reasoning_content : Option Value → Res PriorReasoningContent
reasoning_content none = ok absent_parts
reasoning_content (some null) = ok null_parts
reasoning_content (some (array vs)) =
    map_ok parts (parse_prior_reasoning_parts "reasoning_text" (to_list vs))
reasoning_content (some _) = err (invalid_request_field "content")

-- `PriorReasoning::parse`
unfoldable pub parse_reasoning : Map → Res PriorReasoning
parse_reasoning m = do
  summary_values ← required_array m "summary"
  summary ← parse_prior_reasoning_parts "summary_text" summary_values
  content ← reasoning_content (get m "content")
  encrypted ← required_value m "encrypted_content"
  encrypted_content ← parse_encrypted encrypted
  id ← required_nonempty_string m "id"
  ok (record {
    id = id;
    summary = summary;
    content = content;
    encrypted_content = encrypted_content;
  })

-- One part of an agent message: its text, or `none` for encrypted content.
abbrev agent_object : Map → Res (Option String)
agent_object part = do
  type ← required_string part "type"
  if type == "input_text"
      then map_ok some (required_string part "text")
      else if type == "encrypted_content"
      then (do
        content ← required_nonempty_string part "encrypted_content"
        guard (leb (byte_len content) max_encrypted_reasoning_bytes)
            (invalid_request_field "encrypted_content")
        ok none)
      else err unsupported_content

abbrev agent_part : Value → Res (Option String)
agent_part (object part) = agent_object part
agent_part v = err (invalid_request_field "content")

-- The texts, or `none` if some part is encrypted.
unfoldable pub all_texts : List (Option String) → Option (List String)
all_texts [] = some []
all_texts (none ∷ rest) = none
all_texts (some t ∷ rest) = elim (all_texts rest) [ none ↦ none | some ts ↦ some (t ∷ ts) ]

abbrev agent_text : Option (List String) → Option TextMessage
agent_text none = none
agent_text (some texts) =
    let joined = join "\n" texts in
    if is_blank joined
    then none
    else some (record { role = assistant; content = output_text joined ∷ [] })

unfoldable pub parse_agent_message : Map → Res (Option TextMessage)
parse_agent_message m = do
  optional_nonempty_string m "id"
  required_nonempty_string m "author"
  required_nonempty_string m "recipient"
  values ← required_array m "content"
  found ← collect agent_part values
  ok (agent_text (all_texts found))

-- `FunctionCall::parse` up to the namespace: the arguments are a JSON object, in canonical form.
unfoldable pub parse_arguments : JsonText → String → Res String
parse_arguments json arguments = elim (json.from_str arguments) [
  | some (object o) ↦ ok (get_or arguments (canonical_text json (object o)))
  | _ ↦ err invalid_function_arguments
]

abbrev provider_name_for :
    NamespaceToolProjection → Option String → String → Res (String × NamespaceToolProjection)
provider_name_for p none name = ok (name, p)
provider_name_for p (some namespace) name =
    ensure_provider_name p (record { namespace = namespace; name = name })

-- `FunctionCall::parse`
unfoldable pub parse_function_call :
    JsonText → NamespaceToolProjection → Map → Res (FunctionCall × NamespaceToolProjection)
parse_function_call json p m = do
  optional_nonempty_string m "id"
  raw ← required_string m "arguments"
  arguments ← parse_arguments json raw
  native_name ← required_nonempty_string m "name"
  namespace ← optional_nonempty_string m "namespace"
  (name, p') ← provider_name_for p namespace native_name
  call_id ← required_nonempty_string m "call_id"
  ok (record { name = name; arguments = arguments; call_id = call_id }, p')

-- `FunctionCallOutputBody::parse`
unfoldable pub parse_output_body : ParseUrl → Value → Res FunctionCallOutputBody
parse_output_body parse_url (string s) = ok (text_body s)
parse_output_body parse_url (array nil) = err (invalid_request_field "output")
parse_output_body parse_url (array (cons v vs)) =
    map_ok content_body (collect (parse_input_content parse_url) (v ∷ to_list vs))
parse_output_body parse_url v = err (invalid_request_field "output")

-- `FunctionCallOutput::parse`
unfoldable pub parse_function_call_output : ParseUrl → Map → Res FunctionCallOutput
parse_function_call_output parse_url m = do
  optional_nonempty_string m "id"
  call_id ← required_nonempty_string m "call_id"
  value ← required_value m "output"
  output ← parse_output_body parse_url value
  ok (record { call_id = call_id; output = output })
