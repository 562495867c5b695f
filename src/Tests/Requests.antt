-- ===== src/Tests/Requests.antt =====
-- Runs of `NormalizedResponsesRequest` and of the tools and items in it (src/protocol.rs).
use grok_codex_bridge.Protocol.Tools.Choice.{
  choice_value, admits, choose_required, project_tools_for_xai,
}
use grok_codex_bridge.Base.{
  collect, if◌then◌else◌, ok, ◌≡◌, refl, true, false, none, some, List, [], ◌∷◌, ◌==◌, String,
}
use grok_codex_bridge.Base.Text.{is_blank}
use grok_codex_bridge.Json.{
  keys, Value, bool, string, array, object, nil, cons, Map, end, field, get,
}
use grok_codex_bridge.Json.Canonical.{canonicalize}
use grok_codex_bridge.Json.Same.{same_value}
use grok_codex_bridge.Protocol.Fields.{
  required_string, required_nonempty_string, optional_nonempty_string, absent,
}
use grok_codex_bridge.Protocol.Input.{judge, parse_input}
use grok_codex_bridge.Protocol.Items.Metadata.{validate_internal_message_metadata}
use grok_codex_bridge.Protocol.Items.Parse.{parse_item}
use grok_codex_bridge.Protocol.Items.Parts.{
  parse_arguments, parse_function_call, parse_output_body, parse_function_call_output,
}
use grok_codex_bridge.Protocol.Base64.Image.{ParseUrl}
use grok_codex_bridge.Protocol.Input.Matched.{IsMatchedFrom, IsMatched-parse_input}
use grok_codex_bridge.Protocol.Input.Project.{project_input_for_xai}
use grok_codex_bridge.Protocol.Input.Project.Kept.{Perm-project_input_for_xai}
use grok_codex_bridge.Protocol.Items.{
  text_body, InputItem, function_call, function_call_output, to_grok_value,
}
use grok_codex_bridge.Protocol.Namespace.{default}
use grok_codex_bridge.Protocol.Request.{
  no_metadata, NormalizedResponsesRequest, request_of, parse_request, to_xai_object,
}
use grok_codex_bridge.Protocol.Request.Accepted.{IsAccepted, IsAccepted-parse_request}
use grok_codex_bridge.Protocol.Request.Sent.{SendsTools, to_xai_object_lem}
use grok_codex_bridge.Protocol.Restore.{JsonText}
use grok_codex_bridge.Protocol.Schema.Branches.{provider_tool_schema}
use grok_codex_bridge.Protocol.Schema.Root.{IsPlainRoot, IsPlainRoot-provider_tool_schema}
use grok_codex_bridge.Protocol.Tools.{FunctionTool, function_tool, tools_list, parse_tools}
use grok_codex_bridge.Protocol.Tools.Catalog.{IsCatalog}
use grok_codex_bridge.Protocol.Tools.Catalog.Merged.{Field, IsCatalog-discovered}
use grok_codex_bridge.Protocol.Tools.Merge.{merge_discovered_tool_search_specs}
use mathlib.Core.List.{filter_map, Perm}

-- No text is a URL, and one text is an object.
abbrev pub no_url : ParseUrl
no_url s = none

abbrev pub json : JsonText
json = record {
  from_str = λ s. if s == "{}" then some (object end) else none;
  to_string = λ v. "{}";
}

abbrev pair : String → Value → Map → Map
pair k v m = field k v m

abbrev call : Value
call = object (
    pair "arguments" (string "{}") (
      pair "call_id" (string "c1")
        (pair "name" (string "run") (pair "type" (string "function_call") end))))

abbrev output : Value
output = object (
    pair "call_id" (string "c1")
      (pair "output" (string "done") (pair "type" (string "function_call_output") end)))

abbrev union_schema : Map
union_schema =
    pair "anyOf"
      (array (cons (object (pair "properties" (object (pair "x" (object end) end)) end)) nil)) end

abbrev tool : Value
tool = object (
    pair "description" (string "") (
      pair "name" (string "run")
        (pair "parameters" (object union_schema) (pair "type" (string "function") end))))

abbrev request : Value
request = object (
    pair "include" (array nil) (
      pair "input" (array (cons call (cons output nil))) (
        pair "model" (string "grok-4") (
          pair "parallel_tool_calls" (bool true) (
            pair "store" (bool false) (
              pair "stream" (bool true) (
                pair "tool_choice" (string "required")
                  (pair "tools" (array (cons tool nil)) end))))))))

abbrev run_tool : FunctionTool
run_tool = record { name = "run"; description = ""; parameters = union_schema; strict = none }

abbrev pub items : List InputItem
items =
    function_call (record { name = "run"; arguments = "{}"; call_id = "c1" })
    ∷ function_call_output (record { call_id = "c1"; output = text_body "done" })
    ∷ []

abbrev pub accepted : NormalizedResponsesRequest
accepted =
    request_of "grok-4" none items (tools_list (function_tool run_tool ∷ [])) choose_required
      default
      (record {
        rest_parallel = true;
        rest_reasoning = absent;
        rest_store = false;
        rest_stream = true;
        rest_stream_options = absent;
        rest_include = [];
        rest_service_tier = absent;
        rest_prompt_cache_key = absent;
        rest_prompt_cache_retention = absent;
        rest_previous_response_id = absent;
        rest_text = absent;
        rest_client_metadata = no_metadata;
      })

request_is_parsed : parse_request no_url json request ≡ ok accepted
unfolding parse_request get is_blank keys parse_item validate_internal_message_metadata
    parse_function_call optional_nonempty_string parse_arguments judge parse_function_call_output
    parse_output_body admits collect same_value canonicalize
request_is_parsed = refl

IsAccepted_example : (m : Map) × (request ≡ object m) × IsAccepted m accepted
IsAccepted_example = IsAccepted-parse_request no_url json request accepted request_is_parsed

to_xai_object_example :
    (get (to_xai_object json.to_string accepted) "tools" ≡ project_tools_for_xai accepted.tools)
    × (SendsTools (to_xai_object json.to_string accepted)
        → get (to_xai_object json.to_string accepted) "tool_choice"
          ≡ some (choice_value accepted.tool_choice))
    × (¬ SendsTools (to_xai_object json.to_string accepted)
        → get (to_xai_object json.to_string accepted) "tool_choice" ≡ none)
    × (get (to_xai_object json.to_string accepted) "client_metadata" ≡ none)
    × (get (to_xai_object json.to_string accepted) "previous_response_id" ≡ none)
    × (get (to_xai_object json.to_string accepted) "prompt_cache_retention" ≡ none)
to_xai_object_example = to_xai_object_lem json.to_string accepted

input_is_parsed : parse_input no_url json default (call ∷ output ∷ []) ≡ ok (items, default)
unfolding parse_input parse_item required_string get validate_internal_message_metadata
    parse_function_call optional_nonempty_string parse_arguments required_nonempty_string is_blank
    judge parse_function_call_output parse_output_body same_value canonicalize
input_is_parsed = refl

IsMatched_example : IsMatchedFrom [] [] items
IsMatched_example =
    IsMatched-parse_input no_url json default default (call ∷ output ∷ []) items input_is_parsed

Perm-project_input_example :
    Perm
      (project_input_for_xai json.to_string items)
      (filter_map (to_grok_value json.to_string) items)
Perm-project_input_example = Perm-project_input_for_xai json.to_string items

abbrev catalog : Field
catalog = (tools_list (function_tool run_tool ∷ []), default)

tools_are_parsed : parse_tools (some (array (cons tool nil))) ≡ ok catalog
unfolding parse_tools get keys is_blank
tools_are_parsed = refl

nothing_is_discovered : merge_discovered_tool_search_specs catalog (call ∷ output ∷ []) ≡ ok catalog
unfolding merge_discovered_tool_search_specs get
nothing_is_discovered = refl

IsCatalog_example : IsCatalog (function_tool run_tool ∷ []) default
IsCatalog_example =
    IsCatalog-discovered (some (array (cons tool nil))) (call ∷ output ∷ []) catalog catalog
      tools_are_parsed nothing_is_discovered

IsPlainRoot_example : IsPlainRoot (provider_tool_schema union_schema)
IsPlainRoot_example = IsPlainRoot-provider_tool_schema union_schema
