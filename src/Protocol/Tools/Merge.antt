-- ===== src/Protocol/Tools/Merge.antt =====
-- `merge_discovered_tool_search_specs` of src/protocol.rs.
use grok_codex_bridge.Base.{
  leb, if◌then◌else◌, length, any, is_some, ok, err, ◌>>=◌, ◌>>◌, guard, ok_or, Bool, true, false,
  not, ◌&&◌, ◌||◌, Option, none, some, List, [], ◌∷◌, ◌++◌, ◌==◌, String,
}
use grok_codex_bridge.Json.{
  Value, array, object, Values, nil, cons, Map, end, field, get, as_array, ◌and_then◌,
}
use grok_codex_bridge.Json.Same.{same_bool, same_map}
use grok_codex_bridge.Protocol.Error.{
  invalid_request_field, duplicate_tool_name, too_many_tools, Res,
}
use grok_codex_bridge.Protocol.Namespace.{
  NativeToolName, NamespaceToolProjection, same_tool, native_of, insert_tool,
}
use grok_codex_bridge.Protocol.Restore.{is_type}
use grok_codex_bridge.Protocol.Tools.{
  FunctionTool, ProjectedTool, function_tool, hosted_web_search, ToolsField, tools_list,
  max_xai_tools, parse_tool_list,
}

unfoldable mutual
  -- `strip_defer_loading`; a map has each key once, so one pass does both changes.
  pub strip_defer_loading : Value → Value
  strip_defer_loading (object m) = object (strip_fields m)
  strip_defer_loading v = v

  pub strip_fields : Map → Map
  strip_fields end = end
  strip_fields (field k v m) =
      let rest = strip_fields m in
      let stripped = strip_children v in
      if k == "defer_loading"
      then rest
      else if k == "tools"
      then field k stripped rest
      else field k v rest

  pub strip_children : Value → Value
  strip_children (array vs) = array (strip_each vs)
  strip_children v = v

  pub strip_each : Values → Values
  strip_each nil = nil
  strip_each (cons v vs) = cons (strip_defer_loading v) (strip_each vs)

abbrev pub is_named : String → ProjectedTool → Bool
is_named name (function_tool t) = t.name == name
is_named name hosted_web_search = false

abbrev pub is_hosted : ProjectedTool → Bool
is_hosted (function_tool t) = false
is_hosted hosted_web_search = true

abbrev same_strict : Option Bool → Option Bool → Bool
same_strict none none = true
same_strict (some a) (some b) = same_bool a b
same_strict _ _ = false

-- `current == candidate`
abbrev same_function : FunctionTool → FunctionTool → Bool
same_function a b =
    a.name == b.name
    && a.description == b.description
    && same_map a.parameters b.parameters
    && same_strict a.strict b.strict

abbrev same_native : Option NativeToolName → Option NativeToolName → Bool
same_native none none = true
same_native (some a) (some b) = same_tool a b
same_native _ _ = false

abbrev pub is_this : Option String → String → Bool
is_this none name = false
is_this (some s) name = s == name

-- `existing.iter().find_map`
unfoldable pub find_named : String → List ProjectedTool → Option FunctionTool
find_named name [] = none
find_named name (function_tool t ∷ rest) = if t.name == name then some t else find_named name rest
find_named name (hosted_web_search ∷ rest) = find_named name rest

abbrev pub Tools : Type 0
Tools = List ProjectedTool × NamespaceToolProjection

abbrev pub push_new : Tools → ProjectedTool → Res Tools
push_new (existing, p) tool =
    if leb max_xai_tools (length existing)
    then err too_many_tools
    else ok (existing ++ tool ∷ [], p)

unfoldable pub insert_native :
    NamespaceToolProjection → String → Option NativeToolName → Res NamespaceToolProjection
unfolding insert_tool
insert_native p name none = ok p
insert_native p name (some native) = insert_tool p name native

abbrev pub set_search : NamespaceToolProjection → String → Bool → Res NamespaceToolProjection
set_search p name false = ok p
set_search p name true =
    if is_some p.tool_search_provider_name
    then err duplicate_tool_name
    else ok (record p { tool_search_provider_name = some name })

-- A function whose name the request does not have.
unfoldable pub merge_new : Tools → Option NativeToolName → Bool → FunctionTool → Res Tools
unfolding insert_native
merge_new (existing, p) native is_search candidate = do
  p' ← insert_native p candidate.name native
  p'' ← set_search p' candidate.name is_search
  push_new (existing, p'') (function_tool candidate)

unfoldable pub merge_discovered_tool : Tools → NamespaceToolProjection → ProjectedTool → Res Tools
unfolding find_named merge_new
merge_discovered_tool (existing, p) discovered hosted_web_search =
    if any is_hosted existing then ok (existing, p) else push_new (existing, p) hosted_web_search
merge_discovered_tool (existing, p) discovered (function_tool candidate) =
    let name = candidate.name in
    let candidate_native = native_of discovered.provider_to_native name in
    let existing_native = native_of p.provider_to_native name in
    let candidate_is_search = is_this discovered.tool_search_provider_name name in
    let existing_is_search = is_this p.tool_search_provider_name name in
    elim (find_named name existing) [
      | some current ↦
          if same_function current candidate
            && same_native existing_native candidate_native
            && same_bool existing_is_search candidate_is_search
          then ok (existing, p)
          else err duplicate_tool_name
      | none ↦ do
        guard (not (is_some existing_native || existing_is_search)) duplicate_tool_name
        merge_new (existing, p) candidate_native candidate_is_search candidate
    ]

unfoldable pub merge_all : Tools → NamespaceToolProjection → List ProjectedTool → Res Tools
unfolding merge_discovered_tool
merge_all ts discovered [] = ok ts
merge_all ts discovered (tool ∷ rest) = do
  ts' ← merge_discovered_tool ts discovered tool
  merge_all ts' discovered rest

-- One value that a search found. It is parsed before the test that the request has a list of tools.
unfoldable pub merge_value :
    ToolsField × NamespaceToolProjection → Value → Res (ToolsField × NamespaceToolProjection)
unfolding parse_tool_list merge_all
merge_value (tools_list existing, p) v = do
  (additions, discovered) ← parse_tool_list (strip_defer_loading v ∷ [])
  (existing', p') ← merge_all (existing, p) discovered additions
  ok (tools_list existing', p')
merge_value (tools, p) v = do
  found ← parse_tool_list (strip_defer_loading v ∷ [])
  err (invalid_request_field "tool_search_output")

unfoldable pub merge_values :
    ToolsField × NamespaceToolProjection → List Value → Res (ToolsField × NamespaceToolProjection)
unfolding merge_value
merge_values st [] = ok st
merge_values st (v ∷ vs) = do st' ← merge_value st v; merge_values st' vs

unfoldable pub merge_output :
    ToolsField × NamespaceToolProjection → Map → Res (ToolsField × NamespaceToolProjection)
unfolding merge_values
merge_output st m = do
  found ← ok_or (invalid_request_field "tool_search_output") (get m "tools" and_then as_array)
  merge_values st found

-- One item of the input.
unfoldable pub merge_item :
    ToolsField × NamespaceToolProjection → Value → Res (ToolsField × NamespaceToolProjection)
unfolding merge_output
merge_item st (object m) = if is_type m "tool_search_output" then merge_output st m else ok st
merge_item st v = ok st

unfoldable pub merge_discovered_tool_search_specs :
    ToolsField × NamespaceToolProjection → List Value → Res (ToolsField × NamespaceToolProjection)
unfolding merge_item
merge_discovered_tool_search_specs st [] = ok st
merge_discovered_tool_search_specs st (item ∷ items) = do
  st' ← merge_item st item
  merge_discovered_tool_search_specs st' items
