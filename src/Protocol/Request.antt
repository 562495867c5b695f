-- ===== src/Protocol/Request.antt =====
-- `NormalizedResponsesRequest` of src/protocol.rs: a request of Codex, read, and as Grok is sent it.
use grok_codex_bridge.Base.{
  if◌then◌else◌, is_empty, leb, length, ok, err, ◌>>=◌, ◌>>◌, guard, ok_or, ℕ, ◌+◌, Bool, true,
  false, not, ◌&&◌, Option, none, some, List, [], ◌∷◌, map, ◌==◌, String,
}
use grok_codex_bridge.Json.{
  to_list, Value, bool, string, array, object, nil, Map, end, of_list, get, insert, as_str,
}
use grok_codex_bridge.Base.Text.{byte_len}
use grok_codex_bridge.Json.Same.{entries}
use grok_codex_bridge.Protocol.Base64.Image.{ParseUrl}
use grok_codex_bridge.Protocol.Error.{
  ProtocolError, request_not_object, invalid_request_field, unknown_tool_choice, Res,
}
use grok_codex_bridge.Protocol.Fields.{
  OptionalJson, absent, present, required_value, required_nonempty_string, required_bool,
  required_array, optional_string, optional_object, optional_scalar_string, required_string_array,
}
use grok_codex_bridge.Protocol.Input.{parse_input}
use grok_codex_bridge.Protocol.Input.Project.{project_input_for_xai}
use grok_codex_bridge.Protocol.Items.{InputItem, reasoning_value}
use grok_codex_bridge.Protocol.Namespace.{NamespaceToolProjection}
use grok_codex_bridge.Protocol.Restore.{JsonText}
use grok_codex_bridge.Protocol.Tools.{ToolsField, parse_tools}
use grok_codex_bridge.Protocol.Tools.Choice.{
  ToolChoice, choice_value, parse_tool_choice, admits, project_tools_for_xai,
}
use grok_codex_bridge.Protocol.Tools.Merge.{merge_discovered_tool_search_specs}
use Prim.Native.String
pub mod Sent
pub mod Accepted

-- `ClientMetadata`
pub data ClientMetadata : Type 0 where
  no_metadata : ClientMetadata
  metadata_values : List (String × String) → ClientMetadata

-- The underscores of three fields are left out.
pub record NormalizedResponsesRequest : Type 0 where
  pub model : String
  pub instructions : Option String
  pub items : List InputItem
  pub tools : ToolsField
  pub tool_choice : ToolChoice
  pub parallel_tool_calls : Bool
  pub reasoning_field : OptionalJson
  pub store : Bool
  pub stream : Bool
  pub stream_options : OptionalJson
  pub include : List String
  pub service_tier : OptionalJson
  pub prompt_cache_key : OptionalJson
  pub prompt_cache_retention : OptionalJson
  pub previous_response_id : OptionalJson
  pub text_field : OptionalJson
  pub client_metadata : ClientMetadata
  pub namespace_projection : NamespaceToolProjection

abbrev invalid_metadata : ProtocolError
invalid_metadata = invalid_request_field "client_metadata"

abbrev max_client_metadata_entries : ℕ
max_client_metadata_entries = 64

abbrev max_client_metadata_key_bytes : ℕ
max_client_metadata_key_bytes = 256

abbrev max_client_metadata_value_bytes : ℕ
max_client_metadata_value_bytes = 524288

abbrev max_client_metadata_total_value_bytes : ℕ
max_client_metadata_total_value_bytes = 4194304

-- The loop over the entries, with `total_value_bytes`, which stays far below 2 ^ 64.
unfoldable pub metadata_from : ℕ → List (String × Value) → Res (List (String × String))
metadata_from total [] = ok []
metadata_from total ((key, value) ∷ rest) = do
  guard (not (key == "") && leb (byte_len key) max_client_metadata_key_bytes) invalid_metadata
  s ← ok_or invalid_metadata (as_str value)
  guard (leb (byte_len s) max_client_metadata_value_bytes) invalid_metadata
  guard (leb (total + byte_len s) max_client_metadata_total_value_bytes) invalid_metadata
  later ← metadata_from (total + byte_len s) rest
  ok ((key, s) ∷ later)

abbrev metadata_of : Map → Res ClientMetadata
unfolding metadata_from
metadata_of m = do
  guard (leb (length (entries m)) max_client_metadata_entries) invalid_metadata
  values ← metadata_from 0 (entries m)
  ok (metadata_values values)

unfoldable pub parse_client_metadata : Map → Res ClientMetadata
unfolding metadata_of
parse_client_metadata m = elim (get m "client_metadata") [
  | none ↦ ok no_metadata
  | some (object values) ↦ metadata_of values
  | some _ ↦ err invalid_metadata
]

-- The fields of a request that are neither items nor tools, as they are read after these.
pub record Rest : Type 0 where
  pub rest_parallel : Bool
  pub rest_reasoning : OptionalJson
  pub rest_store : Bool
  pub rest_stream : Bool
  pub rest_stream_options : OptionalJson
  pub rest_include : List String
  pub rest_service_tier : OptionalJson
  pub rest_prompt_cache_key : OptionalJson
  pub rest_prompt_cache_retention : OptionalJson
  pub rest_previous_response_id : OptionalJson
  pub rest_text : OptionalJson
  pub rest_client_metadata : ClientMetadata

unfoldable pub parse_rest : Map → Res Rest
unfolding required_bool optional_object required_string_array optional_scalar_string
    parse_client_metadata
parse_rest m = do
  parallel ← required_bool m "parallel_tool_calls"
  reasoning_value ← optional_object m "reasoning"
  store ← required_bool m "store"
  guard (not store) (invalid_request_field "store")
  stream ← required_bool m "stream"
  guard stream (invalid_request_field "stream")
  stream_options ← optional_object m "stream_options"
  include ← required_string_array m "include"
  service_tier ← optional_scalar_string m "service_tier"
  prompt_cache_key ← optional_scalar_string m "prompt_cache_key"
  retention ← optional_scalar_string m "prompt_cache_retention"
  previous ← optional_scalar_string m "previous_response_id"
  text_value ← optional_object m "text"
  metadata ← parse_client_metadata m
  ok (record {
    rest_parallel = parallel;
    rest_reasoning = reasoning_value;
    rest_store = store;
    rest_stream = stream;
    rest_stream_options = stream_options;
    rest_include = include;
    rest_service_tier = service_tier;
    rest_prompt_cache_key = prompt_cache_key;
    rest_prompt_cache_retention = retention;
    rest_previous_response_id = previous;
    rest_text = text_value;
    rest_client_metadata = metadata;
  })

-- The last lines of `parse`.
abbrev pub request_of :
    String
    → Option String
    → List InputItem
    → ToolsField
    → ToolChoice
    → NamespaceToolProjection
    → Rest
    → NormalizedResponsesRequest
request_of model instructions items tools choice projection rest = record {
  model = model;
  instructions = instructions;
  items = items;
  tools = tools;
  tool_choice = choice;
  parallel_tool_calls = rest.rest_parallel;
  reasoning_field = rest.rest_reasoning;
  store = rest.rest_store;
  stream = rest.rest_stream;
  stream_options = rest.rest_stream_options;
  include = rest.rest_include;
  service_tier = rest.rest_service_tier;
  prompt_cache_key = rest.rest_prompt_cache_key;
  prompt_cache_retention = rest.rest_prompt_cache_retention;
  previous_response_id = rest.rest_previous_response_id;
  text_field = rest.rest_text;
  client_metadata = rest.rest_client_metadata;
  namespace_projection = projection;
}

module _ (parse_url : ParseUrl) (json : JsonText) where
  unfoldable pub parse_object : Map → Res NormalizedResponsesRequest
  unfolding required_nonempty_string optional_string parse_tools required_array
      merge_discovered_tool_search_specs parse_input required_value parse_tool_choice parse_rest
  parse_object m = do
    model ← required_nonempty_string m "model"
    instructions ← optional_string m "instructions"
    found ← parse_tools (get m "tools")
    values ← required_array m "input"
    (tools, p) ← merge_discovered_tool_search_specs found values
    (items, p') ← parse_input parse_url json p values
    chosen ← required_value m "tool_choice"
    choice ← parse_tool_choice chosen
    guard (admits choice tools) unknown_tool_choice
    rest ← parse_rest m
    ok (request_of model instructions items tools choice p' rest)

  -- `NormalizedResponsesRequest::parse`
  unfoldable pub parse_request : Value → Res NormalizedResponsesRequest
  unfolding parse_object
  parse_request (object m) = parse_object m
  parse_request _ = err request_not_object

-- `insert_optional`
abbrev pub insert_optional : Map → String → OptionalJson → Map
insert_optional m k absent = m
insert_optional m k (present v) = insert m k v

abbrev insert_instructions : Map → Option String → Map
insert_instructions m none = m
insert_instructions m (some s) = insert m "instructions" (string s)

-- `include_tool_choice`
abbrev pub has_tools : Value → Bool
has_tools (array vs) = not (is_empty (to_list vs))
has_tools _ = false

abbrev pub insert_tools : Map → Option Value → ToolChoice → Map
insert_tools m none choice = m
insert_tools m (some tools) choice =
    let m' = insert m "tools" tools in
    if has_tools tools then insert m' "tool_choice" (choice_value choice) else m'

module _ (to_string : Value → String) where
  -- `to_xai_value`, the object
  unfoldable pub to_xai_object : NormalizedResponsesRequest → Map
  unfolding project_input_for_xai project_tools_for_xai
  to_xai_object r =
      let m1 = insert_instructions (insert end "model" (string r.model)) r.instructions in
      let m2 = insert m1 "input" (array (of_list (project_input_for_xai to_string r.items))) in
      let m3 = insert_tools m2 (project_tools_for_xai r.tools) r.tool_choice in
      let m4 = insert m3 "parallel_tool_calls" (bool r.parallel_tool_calls) in
      let m5 = insert (insert_optional m4 "reasoning" r.reasoning_field) "store" (bool r.store) in
      let m6 =
        insert_optional (insert m5 "stream" (bool r.stream)) "stream_options" r.stream_options in
      let m7 = insert m6 "include" (array (of_list (map string r.include))) in
      let m8 = insert_optional m7 "service_tier" r.service_tier in
      insert_optional (insert_optional m8 "prompt_cache_key" r.prompt_cache_key) "text" r.text_field
