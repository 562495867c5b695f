-- ===== src/Protocol/Tools/Choice.antt =====
-- `ToolChoice` of src/protocol.rs, and the tools as Grok is sent them.
use grok_codex_bridge.Base.{
  if◌then◌else◌, any, is_empty, is_some, ok, err, ◌>>=◌, ◌>>◌, guard, Bool, true, not, Option, none,
  some, List, [], ◌∷◌, ◌==◌, String,
}
use grok_codex_bridge.Json.{
  Value, null, bool, string, array, object, Map, end, of_list, get, insert,
}
use grok_codex_bridge.Protocol.Error.{unsupported_tool_choice, Res}
use grok_codex_bridge.Protocol.Fields.{has_only_keys, required_string, required_nonempty_string}
use grok_codex_bridge.Protocol.Schema.Branches.{provider_tool_schema}
use grok_codex_bridge.Protocol.Schema.Walk.{xai_incompatible_tool_schema}
use grok_codex_bridge.Protocol.Tools.{
  FunctionTool, ProjectedTool, function_tool, hosted_web_search, ToolsField, tools_absent,
  tools_null, tools_list,
}
use grok_codex_bridge.Protocol.Tools.Merge.{is_named}

pub data ToolChoice : Type 0 where
  choose_auto choose_none choose_required : ToolChoice
  choose_function : String → ToolChoice

-- `ToolChoice::to_value`
abbrev pub choice_value : ToolChoice → Value
choice_value choose_auto = string "auto"
choice_value choose_none = string "none"
choice_value choose_required = string "required"
choice_value (choose_function name) =
    object (insert (insert end "type" (string "function")) "name" (string name))

abbrev named_choice : String → Res ToolChoice
named_choice s =
    if s == "auto"
    then ok choose_auto
    else if s == "none"
    then ok choose_none
    else if s == "required"
    then ok choose_required
    else err unsupported_tool_choice

abbrev function_choice : Map → Res ToolChoice
unfolding has_only_keys required_string required_nonempty_string
function_choice m = do
  guard (has_only_keys m ("type" ∷ "name" ∷ [])) unsupported_tool_choice
  kind ← required_string m "type"
  guard (kind == "function") unsupported_tool_choice
  name ← required_nonempty_string m "name"
  ok (choose_function name)

unfoldable pub parse_tool_choice : Value → Res ToolChoice
unfolding function_choice
parse_tool_choice (string s) = named_choice s
parse_tool_choice (object m) = function_choice m
parse_tool_choice _ = err unsupported_tool_choice

abbrev pub admitted : ToolsField → List ProjectedTool
admitted (tools_list tools) = tools
admitted _ = []

-- whether `validate_tool_choice` accepts; its error is `unknown_tool_choice`
unfoldable pub admits : ToolChoice → ToolsField → Bool
admits choose_required tools = not (is_empty (admitted tools))
admits (choose_function name) tools = any (is_named name) (admitted tools)
admits _ tools = true

-- `FunctionTool::to_value`
unfoldable pub tool_value : FunctionTool → Map
unfolding provider_tool_schema
tool_value t =
    let m = insert (insert end "type" (string "function")) "name" (string t.name) in
    let m' =
      insert (insert m "description" (string t.description)) "parameters"
        (object (provider_tool_schema t.parameters)) in
    elim t.strict [ none ↦ m' | some b ↦ insert m' "strict" (bool b) ]

abbrev unless_incompatible : Map → Option Value → Option Value
unfolding xai_incompatible_tool_schema
unless_incompatible projected none = some (object projected)
unless_incompatible projected (some parameters) =
    if is_some (xai_incompatible_tool_schema parameters) then none else some (object projected)

-- `project_tool_for_xai`; the warning that is logged is left out
unfoldable pub project_tool_for_xai : ProjectedTool → Option Value
unfolding tool_value unless_incompatible
project_tool_for_xai hosted_web_search = some (object (insert end "type" (string "web_search")))
project_tool_for_xai (function_tool t) =
    let projected = tool_value t in
    if t.name == "tool_search"
    then some (object projected)
    else unless_incompatible projected (get projected "parameters")

unfoldable pub project_all : List ProjectedTool → List Value
unfolding project_tool_for_xai
project_all [] = []
project_all (t ∷ ts) = elim (project_tool_for_xai t) [
  | none ↦ project_all ts
  | some v ↦ v ∷ project_all ts
]

unfoldable pub project_tools_for_xai : ToolsField → Option Value
unfolding project_all
project_tools_for_xai tools_absent = none
project_tools_for_xai tools_null = some null
project_tools_for_xai (tools_list tools) = some (array (of_list (project_all tools)))
