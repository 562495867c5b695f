-- ===== src/Protocol/Items.antt =====
-- Input items of src/protocol.rs: `InputItem` and the items that it holds.
use grok_codex_bridge.Base.{if◌then◌else◌, Bool, true, false, Option, none, some, List, map, String}
use grok_codex_bridge.Json.{Value, null, string, array, object, Map, end, of_list, insert}
use grok_codex_bridge.Protocol.Content.{
  InputContent, TextMessage, two_fields, input_content_value, message_value,
}
use grok_codex_bridge.Protocol.Restore.Reasoning.{PriorEncryptedContent, grok, foreign}
pub mod Metadata
pub mod Parts
pub mod Parse
use Prim.Native.String

pub data PriorReasoningContent : Type 0 where
  absent_parts null_parts : PriorReasoningContent
  parts : List String → PriorReasoningContent

pub record PriorReasoning : Type 0 where
  pub id : String
  pub summary : List String
  pub content : PriorReasoningContent
  pub encrypted_content : PriorEncryptedContent

pub record FunctionCall : Type 0 where
  pub name : String
  pub arguments : String
  pub call_id : String

pub data FunctionCallOutputBody : Type 0 where
  text_body : String → FunctionCallOutputBody
  content_body : List InputContent → FunctionCallOutputBody

pub record FunctionCallOutput : Type 0 where
  pub call_id : String
  pub output : FunctionCallOutputBody

pub record ToolSearchCall : Type 0 where
  pub call_id : String
  pub arguments : Value

pub record ToolSearchOutput : Type 0 where
  pub call_id : String
  pub tools : List Value

pub data InputItem : Type 0 where
  message : TextMessage → InputItem
  reasoning : PriorReasoning → InputItem
  function_call : FunctionCall → InputItem
  function_call_output : FunctionCallOutput → InputItem
  tool_search_call : ToolSearchCall → InputItem
  tool_search_output : ToolSearchOutput → InputItem
  foreign_agent_message foreign_custom_tool_call foreign_custom_tool_call_output : InputItem

abbrev text_part : String → String → Value
text_part kind text = two_fields "type" (string kind) "text" (string text)

abbrev insert_reasoning_content : Map → PriorReasoningContent → Map
insert_reasoning_content m (parts texts) =
    insert m "content" (array (of_list (map (text_part "reasoning_text") texts)))
insert_reasoning_content m _ = m

abbrev encrypted_value : PriorEncryptedContent → Value
encrypted_value (grok value) = string value
encrypted_value (foreign value) = string value
encrypted_value _ = null

-- `PriorReasoning::to_value`
unfoldable pub reasoning_value : PriorReasoning → Value
reasoning_value r =
    let m = insert (insert end "type" (string "reasoning")) "id" (string r.id) in
    let m' = insert m "summary" (array (of_list (map (text_part "summary_text") r.summary))) in
    object (
      insert (insert_reasoning_content m' r.content) "encrypted_content"
        (encrypted_value r.encrypted_content))

abbrev call_value : String → String → String → Value
call_value name arguments call_id = object (
    insert
      (insert (insert (insert end "type" (string "function_call")) "name" (string name)) "arguments"
        (string arguments))
      "call_id" (string call_id))

abbrev call_output_value : String → Value → Value
call_output_value call_id output = object (
    insert (insert (insert end "type" (string "function_call_output")) "call_id" (string call_id))
      "output" output)

-- `FunctionCallOutputBody::to_value`
abbrev body_value : FunctionCallOutputBody → Value
body_value (text_body t) = string t
body_value (content_body cs) = array (of_list (map input_content_value cs))

abbrev is_grok : PriorEncryptedContent → Bool
is_grok (grok value) = true
is_grok _ = false

-- `InputItem::to_grok_value`; the printer of JSON values is an argument
unfoldable pub to_grok_value : (Value → String) → InputItem → Option Value
to_grok_value to_string (message m) = some (message_value m)
to_grok_value to_string (reasoning r) =
    if is_grok r.encrypted_content then some (reasoning_value r) else none
to_grok_value to_string (function_call call) =
    some (call_value call.name call.arguments call.call_id)
to_grok_value to_string (function_call_output o) =
    some (call_output_value o.call_id (body_value o.output))
to_grok_value to_string (tool_search_call call) =
    some (call_value "tool_search" (to_string call.arguments) call.call_id)
to_grok_value to_string (tool_search_output o) = some (
    call_output_value o.call_id
      (string (to_string (object (insert end "tools" (array (of_list o.tools)))))))
to_grok_value to_string _ = none
