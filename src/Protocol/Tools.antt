-- ===== src/Protocol/Tools.antt =====
-- The tools of a request in src/protocol.rs: `parse_tools`, and the tools that a `tool_search` found.
use grok_codex_bridge.Base.{
  leb, if◌then◌else◌, length, ok, err, ◌>>=◌, ◌>>◌, guard, ok_or, ℕ, Bool, true, false, not, ◌||◌,
  Option, none, some, List, [], ◌∷◌, ◌++◌, ◌==◌, String,
}
use grok_codex_bridge.Json.{Value, null, bool, array, Map, to_list, get, as_object}
use grok_codex_bridge.Protocol.Error.{
  invalid_request_field, unsupported_tools, duplicate_tool_name, too_many_tools, Res,
}
use grok_codex_bridge.Protocol.Fields.{
  has_only_keys, required_value, required_string, required_nonempty_string, required_array,
}
use grok_codex_bridge.Protocol.Input.{contains}
use grok_codex_bridge.Protocol.Namespace.{
  NativeToolName, NamespaceToolProjection, default, flat_name, insert_tool,
}
use grok_codex_bridge.Protocol.Schema.Branches.{provider_tool_schema}
use Prim.Native.String
pub mod Catalog
pub mod Choice
pub mod Merge

pub record FunctionTool : Type 0 where
  pub name : String
  pub description : String
  pub parameters : Map
  pub strict : Option Bool

pub data ProjectedTool : Type 0 where
  function_tool : FunctionTool → ProjectedTool
  hosted_web_search : ProjectedTool

pub data ToolsField : Type 0 where
  tools_absent tools_null : ToolsField
  tools_list : List ProjectedTool → ToolsField

abbrev bool_or_absent : String → Option Value → Res (Option Bool)
bool_or_absent k none = ok none
bool_or_absent k (some (bool b)) = ok (some b)
bool_or_absent k (some _) = err (invalid_request_field k)

abbrev object_of : Value → Res Map
object_of v = ok_or unsupported_tools (as_object v)

unfoldable pub required_object : Map → String → Res Map
unfolding required_value
required_object m k = do v ← required_value m k; ok_or (invalid_request_field k) (as_object v)

-- `FunctionTool::parse`
unfoldable pub parse_function_tool : Value → Res FunctionTool
unfolding required_string has_only_keys required_object required_nonempty_string
parse_function_tool v = do
  m ← object_of v
  kind ← required_string m "type"
  guard (kind == "function") unsupported_tools
  guard (has_only_keys m ("type" ∷ "name" ∷ "description" ∷ "parameters" ∷ "strict" ∷ []))
      unsupported_tools
  parameters ← required_object m "parameters"
  strict ← bool_or_absent "strict" (get m "strict")
  name ← required_nonempty_string m "name"
  description ← required_string m "description"
  ok (record { name = name; description = description; parameters = parameters; strict = strict })

-- The loop's variables.
pub record ToolLoop : Type 0 where
  pub provider_names : List String
  pub has_hosted_web_search : Bool
  pub namespace_projection : NamespaceToolProjection
  pub parsed : List ProjectedTool

abbrev pub start_loop : ToolLoop
start_loop = record {
  provider_names = [];
  has_hosted_web_search = false;
  namespace_projection = default;
  parsed = [];
}

-- `provider_names.insert` and `parsed.push`
unfoldable pub push_function : ToolLoop → FunctionTool → Res ToolLoop
push_function st tool =
    if contains st.provider_names tool.name
    then err duplicate_tool_name
    else ok (record st {
      provider_names = tool.name ∷ st.provider_names;
      parsed = st.parsed ++ function_tool tool ∷ [];
    })

-- The search as a function; its name is taken before the description is read.
unfoldable pub tool_search_of : List String → Map → Res FunctionTool
unfolding required_string has_only_keys required_object provider_tool_schema
tool_search_of provider_names m = do
  guard (has_only_keys m ("type" ∷ "execution" ∷ "description" ∷ "parameters" ∷ []))
      unsupported_tools
  execution ← required_string m "execution"
  guard (execution == "client") unsupported_tools
  parameters ← required_object m "parameters"
  guard (not (contains provider_names "tool_search")) duplicate_tool_name
  description ← required_string m "description"
  ok (record {
    name = "tool_search";
    description = description;
    parameters = provider_tool_schema parameters;
    strict = some false;
  })

abbrev pub with_search : ToolLoop → ToolLoop
with_search st = record st {
  namespace_projection = record st.namespace_projection {
    tool_search_provider_name = some "tool_search";
  };
}

unfoldable pub push_tool_search : ToolLoop → Map → Res ToolLoop
unfolding tool_search_of push_function
push_tool_search st m = do
  tool ← tool_search_of st.provider_names m
  push_function (with_search st) tool

-- A tool of a namespace, whose name the namespace does not have yet.
unfoldable pub child_of : List String → Value → Res FunctionTool
unfolding parse_function_tool
child_of native_names v = do
  tool ← parse_function_tool v
  guard (not (contains native_names tool.name)) duplicate_tool_name
  ok tool

-- Its flat name is looked up before the tool is put in the projection.
unfoldable pub push_child : String → ToolLoop → FunctionTool → Res ToolLoop
unfolding push_function insert_tool
push_child namespace st tool =
    let native : NativeToolName = record { namespace = namespace; name = tool.name } in
    do
      st' ← push_function st (record tool { name = flat_name native })
      projection ← insert_tool st.namespace_projection (flat_name native) native
      ok (record st' { namespace_projection = projection })

-- The loop over the tools of a namespace, with `native_names`.
unfoldable pub push_children : String → List String → ToolLoop → List Value → Res ToolLoop
unfolding child_of push_child
push_children namespace native_names st [] = ok st
push_children namespace native_names st (v ∷ vs) = do
  tool ← child_of native_names v
  st' ← push_child namespace st tool
  push_children namespace (tool.name ∷ native_names) st' vs

-- The name and the tools of a namespace.
unfoldable pub namespace_of : Map → Res (String × List Value)
unfolding required_string has_only_keys required_array required_nonempty_string
namespace_of m = do
  guard (has_only_keys m ("type" ∷ "name" ∷ "description" ∷ "tools" ∷ [])) unsupported_tools
  namespace ← required_nonempty_string m "name"
  description ← required_string m "description"
  children ← required_array m "tools"
  ok (namespace, children)

unfoldable pub push_namespace : ToolLoop → Map → Res ToolLoop
unfolding namespace_of push_children
push_namespace st m = do
  (namespace, children) ← namespace_of m
  push_children namespace [] st children

abbrev is_bool : Option Value → Bool
is_bool (some (bool b)) = true
is_bool _ = false

unfoldable pub push_web_search : ToolLoop → Map → Res ToolLoop
unfolding has_only_keys
push_web_search st m =
    if not (has_only_keys m ("type" ∷ "external_web_access" ∷ []))
      || not (is_bool (get m "external_web_access"))
    then err unsupported_tools
    else if st.has_hosted_web_search
    then err duplicate_tool_name
    else ok
        (record st { has_hosted_web_search = true; parsed = st.parsed ++ hosted_web_search ∷ [] })

unfoldable pub push_parsed : ToolLoop → Value → Res ToolLoop
unfolding parse_function_tool push_function
push_parsed st v = do tool ← parse_function_tool v; push_function st tool

-- `match required_string(object, "type")?`
unfoldable pub push_kind : ToolLoop → Value → Map → String → Res ToolLoop
unfolding push_parsed push_tool_search push_namespace push_web_search
push_kind st v m kind =
    if kind == "function"
    then push_parsed st v
    else if kind == "tool_search"
    then push_tool_search st m
    else if kind == "namespace"
    then push_namespace st m
    else if kind == "web_search"
    then push_web_search st m
    else err unsupported_tools

-- One round of the loop.
unfoldable pub push_tool : ToolLoop → Value → Res ToolLoop
unfolding required_string push_kind
push_tool st v = do m ← object_of v; kind ← required_string m "type"; push_kind st v m kind

unfoldable pub push_tools : ToolLoop → List Value → Res ToolLoop
unfolding push_tool
push_tools st [] = ok st
push_tools st (v ∷ vs) = do st' ← push_tool st v; push_tools st' vs

abbrev pub max_xai_tools : ℕ
max_xai_tools = 128

-- `parse_tools` on an array
unfoldable pub parse_tool_list : List Value → Res (List ProjectedTool × NamespaceToolProjection)
unfolding push_tools
parse_tool_list vs = do
  st ← push_tools start_loop vs
  guard (leb (length st.parsed) max_xai_tools) too_many_tools
  ok (st.parsed, st.namespace_projection)

unfoldable pub parse_tools : Option Value → Res (ToolsField × NamespaceToolProjection)
unfolding parse_tool_list
parse_tools none = ok (tools_absent, default)
parse_tools (some null) = ok (tools_null, default)
parse_tools (some (array vs)) = do
  (tools, projection) ← parse_tool_list (to_list vs)
  ok (tools_list tools, projection)
parse_tools (some _) = err unsupported_tools
