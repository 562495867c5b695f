-- ===== src/Protocol/Items/Parse.antt =====
-- `InputItem::parse` of src/protocol.rs, a branch to a definition. The call to
-- `reject_unknown_keys`, which accepts everything, is left out.
use grok_codex_bridge.Base.{
  if◌then◌else◌, all, ok, err, ◌>>=◌, ◌>>◌, guard, map_ok, collect, Option, none, some, ◌==◌,
  String,
}
use grok_codex_bridge.Json.{Value, null, string, array, object, Map, to_list, get}
use grok_codex_bridge.Json.Canonical.{canonicalize}
use grok_codex_bridge.Protocol.Base64.Image.{ParseUrl}
use grok_codex_bridge.Protocol.Content.{TextMessage, parse_input_content, parse_message}
use grok_codex_bridge.Protocol.Error.{
  invalid_request_field, unsupported_input_item, unsupported_tools, invalid_function_arguments, Res,
}
use grok_codex_bridge.Protocol.Fields.{
  required_value, required_string, required_nonempty_string, required_array,
  optional_nonempty_string, validate_optional_nullable_nonempty_string,
}
use grok_codex_bridge.Protocol.Items.{
  FunctionCall, ToolSearchCall, ToolSearchOutput, InputItem, message, reasoning, function_call,
  function_call_output, tool_search_call, tool_search_output, foreign_agent_message,
  foreign_custom_tool_call, foreign_custom_tool_call_output,
}
use grok_codex_bridge.Protocol.Items.Metadata.{validate_internal_message_metadata}
use grok_codex_bridge.Protocol.Items.Parts.{
  parse_reasoning, parse_agent_message, parse_function_call, parse_function_call_output,
}
use grok_codex_bridge.Protocol.Namespace.{NamespaceToolProjection}
use grok_codex_bridge.Protocol.Restore.{JsonText, is_object}

-- An item with the projection after it.
abbrev pub Parsed : Type 0
Parsed = Res (InputItem × NamespaceToolProjection)

abbrev with_projection : NamespaceToolProjection → InputItem → InputItem × NamespaceToolProjection
with_projection p item = (item, p)

abbrev agent_item : Option TextMessage → InputItem
agent_item none = foreign_agent_message
agent_item (some m) = message m

abbrev check_arguments : Value → Res Value
check_arguments (object m) = ok (canonicalize (object m))
check_arguments v = err invalid_function_arguments

abbrev check_status : Option Value → Res (Unit {0})
check_status none = ok tt
check_status (some null) = ok tt
check_status (some (string status)) = guard (status == "completed") (invalid_request_field "status")
check_status (some _) = err (invalid_request_field "status")

parse_tool_search_call : Map → Res ToolSearchCall
parse_tool_search_call m = do
  optional_nonempty_string m "id"
  validate_internal_message_metadata m
  execution ← required_string m "execution"
  guard (execution == "client") (invalid_request_field "execution")
  value ← required_value m "arguments"
  arguments ← check_arguments value
  call_id ← required_nonempty_string m "call_id"
  ok (record { call_id = call_id; arguments = arguments })

parse_tool_search_output : Map → Res ToolSearchOutput
parse_tool_search_output m = do
  status ← required_string m "status"
  guard (status == "completed") (invalid_request_field "tool_search_output")
  execution ← required_string m "execution"
  guard (execution == "client") (invalid_request_field "tool_search_output")
  tools ← required_array m "tools"
  guard (all is_object tools) unsupported_tools
  call_id ← required_nonempty_string m "call_id"
  ok (record { call_id = call_id; tools = tools })

parse_custom_tool_call : Map → Res InputItem
parse_custom_tool_call m = do
  validate_internal_message_metadata m
  optional_nonempty_string m "id"
  check_status (get m "status")
  required_nonempty_string m "call_id"
  required_nonempty_string m "name"
  validate_optional_nullable_nonempty_string m "namespace"
  required_string m "input"
  ok foreign_custom_tool_call

module _ (parse_url : ParseUrl) where
  -- `validate_foreign_custom_tool_output`
  abbrev validate_custom_output : Value → Res (Unit {0})
  validate_custom_output (string s) = ok tt
  validate_custom_output (array vs) = do collect (parse_input_content parse_url) (to_list vs); ok tt
  validate_custom_output v = err (invalid_request_field "output")

  parse_custom_tool_call_output : Map → Res InputItem
  parse_custom_tool_call_output m = do
    validate_internal_message_metadata m
    optional_nonempty_string m "id"
    required_nonempty_string m "call_id"
    validate_optional_nullable_nonempty_string m "name"
    output ← required_value m "output"
    validate_custom_output output
    ok foreign_custom_tool_call_output

  -- The `match` on the item's type, but for `function_call`, which changes the projection.
  unfoldable pub parse_plain : Map → String → Res InputItem
  unfolding parse_tool_search_call parse_tool_search_output parse_custom_tool_call
      parse_custom_tool_call_output
  parse_plain m type =
      if type == "message"
      then (do validate_internal_message_metadata m; map_ok message (parse_message parse_url m))
      else if type == "reasoning"
      then (do validate_internal_message_metadata m; map_ok reasoning (parse_reasoning m))
      else if type == "agent_message"
      then (do validate_internal_message_metadata m; map_ok agent_item (parse_agent_message m))
      else if type == "function_call_output"
      then (do
        validate_internal_message_metadata m
        map_ok function_call_output (parse_function_call_output parse_url m))
      else if type == "tool_search_call"
      then map_ok tool_search_call (parse_tool_search_call m)
      else if type == "tool_search_output"
      then map_ok tool_search_output (parse_tool_search_output m)
      else if type == "custom_tool_call"
      then parse_custom_tool_call m
      else if type == "custom_tool_call_output"
      then parse_custom_tool_call_output m
      else err unsupported_input_item

  module _ (json : JsonText) where
    abbrev call_item : FunctionCall × NamespaceToolProjection → InputItem × NamespaceToolProjection
    call_item (call, p) = (function_call call, p)

    abbrev parse_typed : NamespaceToolProjection → Map → String → Parsed
    parse_typed p m type =
        if type == "function_call"
        then (do
          validate_internal_message_metadata m
          map_ok call_item (parse_function_call json p m))
        else map_ok (with_projection p) (parse_plain m type)

    -- `InputItem::parse`
    unfoldable pub parse_item : NamespaceToolProjection → Value → Parsed
    unfolding parse_plain
    parse_item p (object m) = do type ← required_string m "type"; parse_typed p m type
    parse_item p v = err (invalid_request_field "input")
