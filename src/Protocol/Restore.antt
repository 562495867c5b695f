-- ===== src/Protocol/Restore.antt =====
-- The way back in src/protocol.rs: an event of Grok gets its arguments in canonical form, its flat
-- tool names replaced by Codex's, and its reasoning marked as bound to Grok.
-- `serde_json::from_str` and `Value::to_string` are arguments of what calls them.
use grok_codex_bridge.Json.Same.{same_value}
use grok_codex_bridge.Json.{
  modify, Value, string, array, object, Map, to_list, of_list, get, insert, remove, ◌and_then◌,
  get_str,
}
use grok_codex_bridge.Base.{
  if◌then◌else◌, is_empty, get_or, is_some, Bool, true, false, not, ◌&&◌, ◌||◌, Option, none, some,
  map, ◌==◌, String,
}
use grok_codex_bridge.Json.Canonical.{canonicalize}
use grok_codex_bridge.Json.Laws.{Value-discrete}
use grok_codex_bridge.Protocol.Namespace.{NativeToolName, NamespaceToolProjection, native_of}
pub mod Laws
pub mod Reasoning
use Prim.Native.String

-- `serde_json`'s reader and printer.
pub record JsonText : Type 0 where
  pub from_str : String → Option Value
  pub to_string : Value → String

abbrev pub is_type : Map → String → Bool
is_type m kind = elim (get_str m "type") [ none ↦ false | some s ↦ s == kind ]

unfoldable pub is_object : Value → Bool
is_object (object m) = true
is_object _ = false

module _ (json : JsonText) where
  abbrev pub canonical_text : Value → Option String
  canonical_text value =
      if same_value (canonicalize value) value
      then none
      else some (json.to_string (canonicalize value))

  unfoldable pub canonicalize_json_object_argument_string : String → Option String
  canonicalize_json_object_argument_string arguments = elim (json.from_str arguments) [
    | some (object m) ↦ canonical_text (object m)
    | _ ↦ none
  ]

  abbrev replace_text : Map → Option String → Map
  replace_text m none = m
  replace_text m (some canonical) = insert m "arguments" (string canonical)

  unfoldable pub canonicalize_arguments_field : Map → Map
  canonicalize_arguments_field m = elim (get m "arguments") [
    | some (string arguments) ↦ replace_text m (canonicalize_json_object_argument_string arguments)
    | some (object o) ↦ modify m "arguments" canonicalize
    | some (array vs) ↦ modify m "arguments" canonicalize
    | _ ↦ m
  ]

  unfoldable pub canonicalize_function_call_item_arguments : Value → Value
  canonicalize_function_call_item_arguments (object m) =
      if is_type m "function_call" then object (canonicalize_arguments_field m) else object m
  canonicalize_function_call_item_arguments v = v

abbrev pub map_array : (Value → Value) → Value → Value
map_array f (array vs) = array (of_list (map f (to_list vs)))
map_array f v = v

abbrev pub update_object : (Map → Map) → Value → Value
update_object f (object m) = object (f m)
update_object f v = v

-- `response.output`, item by item
abbrev pub update_output : Map → (Value → Value) → Map
update_output m f = modify m "response" (update_object (λ r. modify r "output" (map_array f)))

module _ (json : JsonText) where
  unfoldable pub canonicalize_response_event_arguments : Value → Value
  canonicalize_response_event_arguments (object m) =
      let item = canonicalize_function_call_item_arguments json in
      let type = get_or "" (get_str m "type") in
      if type == "response.output_item.added" || type == "response.output_item.done"
      then object (modify m "item" item)
      else if type == "response.completed"
      then object (update_output m item)
      else if type == "response.function_call_arguments.done"
      then object (canonicalize_arguments_field json m)
      else object m
  canonicalize_response_event_arguments v = v

abbrev set_native : Map → Option NativeToolName → Map
set_native m none = m
set_native m (some tool) =
    insert (insert m "name" (string tool.name)) "namespace" (string tool.namespace)

abbrev named_native : NamespaceToolProjection → Option String → Option NativeToolName
named_native p none = none
named_native p (some provider) = native_of p.provider_to_native provider

unfoldable pub restore_function_item : NamespaceToolProjection → Value → Value
restore_function_item p (object m) =
    if is_type m "function_call"
    then object (set_native m (named_native p (get_str m "name")))
    else object m
restore_function_item p v = v

abbrev names_tool : Map → String → Bool
names_tool m provider = elim (get_str m "name") [ none ↦ false | some s ↦ s == provider ]

abbrev as_search_call : Map → Value → Map
as_search_call m arguments =
    remove
      (remove
        (remove
          (insert
            (insert (insert m "type" (string "tool_search_call")) "execution" (string "client"))
            "arguments" (canonicalize arguments))
          "name")
        "id")
      "status"

module _ (json : JsonText) where
  -- `none` where the source returns `false` and leaves the item alone
  search_call : Map → Option Value
  search_call m = elim (get_str m "arguments" and_then json.from_str) [
    | some (object o) ↦ some (object (as_search_call m (object o)))
    | _ ↦ none
  ]

  unfoldable pub restore_tool_search_item : NamespaceToolProjection → Value → Option Value
  unfolding search_call
  restore_tool_search_item p (object m) = elim p.tool_search_provider_name [
    | none ↦ none
    | some provider ↦
        if is_type m "function_call" && names_tool m provider then search_call m else none
  ]
  restore_tool_search_item p v = none

  -- the `if !restore_tool_search_item { restore_function_item }` of two branches
  unfoldable pub restore_item : NamespaceToolProjection → Value → Value
  restore_item p v = get_or (restore_function_item p v) (restore_tool_search_item p v)

  abbrev restores_nothing : NamespaceToolProjection → Bool
  restores_nothing p = is_empty p.provider_to_native && not (is_some p.tool_search_provider_name)

  restore_names : NamespaceToolProjection → Value → Value
  restore_names p (object m) =
      let type = get_or "" (get_str m "type") in
      if type == "response.output_item.added"
      then object (modify m "item" (restore_function_item p))
      else if type == "response.output_item.done"
      then object (modify m "item" (restore_item p))
      else if type == "response.completed"
      then object (update_output m (restore_item p))
      else object m
  restore_names p v = v

  unfoldable pub restore_response_event : NamespaceToolProjection → Value → Value
  unfolding restore_names
  restore_response_event p value =
      let canonical = canonicalize_response_event_arguments json value in
      if restores_nothing p then canonical else restore_names p canonical
