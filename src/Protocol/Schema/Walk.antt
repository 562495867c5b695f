-- ===== src/Protocol/Schema/Walk.antt =====
-- `walk_xai_tool_schema` of src/protocol.rs: the schemas that Grok refuses.
use grok_codex_bridge.Base.{
  if◌then◌else◌, any, is_empty, is_some, ℕ, zero, suc, Bool, true, false, not, ◌||◌, Option, none,
  some, List, [], ◌∷◌, ◌==◌, String,
}
use grok_codex_bridge.Json.{Value, bool, string, array, object, Map, end, field, to_list, get}
use grok_codex_bridge.Protocol.Schema.{is_array}
use grok_codex_bridge.Protocol.Schema.Pointer.{resolve_json_pointer}

abbrev or_else_reason : Option String → Option String → Option String
or_else_reason (some reason) later = some reason
or_else_reason none later = later

abbrev is_empty_array : Option Value → Bool
is_empty_array (some (array vs)) = is_empty (to_list vs)
is_empty_array _ = false

abbrev is_unresolvable : Value → Option Value → Bool
is_unresolvable root (some (string reference)) = not (is_some (resolve_json_pointer root reference))
is_unresolvable root _ = false

-- The tests on a schema itself, in the order of the source.
unfoldable pub own_defect : Value → Map → Option String
own_defect root m =
    if is_unresolvable root (get m "$ref")
    then some "unresolvable_ref"
    else if any (λ key. is_empty_array (get m key)) ("anyOf" ∷ "oneOf" ∷ "enum" ∷ [])
    then some "empty_union"
    else if is_some (get m "maxContains") || is_some (get m "minContains")
    then some "contains_constraint"
    else if is_array (get m "items")
    then some "tuple_items"
    else none

module _ (walk : Value → Bool → Option String) where
  -- The values of `properties`, and the items of an array.
  abbrev walk_properties : Map → Option String
  walk_properties end = none
  walk_properties (field k v m) = or_else_reason (walk v true) (walk_properties m)

  abbrev walk_list : List Value → Option String
  walk_list [] = none
  walk_list (v ∷ vs) = or_else_reason (walk v false) (walk_list vs)

  abbrev walk_entry : String → Value → Option String
  walk_entry key (object properties) =
      if key == "properties" || key == "patternProperties"
      then walk_properties properties
      else walk (object properties) false
  walk_entry key v = walk v false

  abbrev walk_fields : Map → Option String
  walk_fields end = none
  walk_fields (field key child m) = or_else_reason (walk_entry key child) (walk_fields m)

-- The number counts the levels that are left: 33 at the root, and none below depth 32.
unfoldable pub walk_xai_tool_schema : ℕ → Value → Value → Bool → Option String
unfolding own_defect
walk_xai_tool_schema zero root v property_schema = none
walk_xai_tool_schema (suc n) root (bool b) property_schema =
    if property_schema then some "boolean_property_schema" else none
walk_xai_tool_schema (suc n) root (object m) property_schema =
    or_else_reason (own_defect root m) (walk_fields (walk_xai_tool_schema n root) m)
walk_xai_tool_schema (suc n) root (array vs) property_schema =
    walk_list (walk_xai_tool_schema n root) (to_list vs)
walk_xai_tool_schema (suc n) root v property_schema = none

unfoldable pub xai_incompatible_tool_schema : Value → Option String
unfolding walk_xai_tool_schema
xai_incompatible_tool_schema schema = walk_xai_tool_schema 33 schema schema false
