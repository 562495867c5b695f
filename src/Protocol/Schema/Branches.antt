-- ===== src/Protocol/Schema/Branches.antt =====
-- `object_root_tool_schema` of src/protocol.rs, with `collect_object_schema_branches`.
use grok_codex_bridge.Base.{
  if◌then◌else◌, get_or, ℕ, zero, suc, Bool, true, false, not, ◌&&◌, ◌||◌, Option, none, some, List,
  [], ◌∷◌, ◌++◌, ◌==◌, String,
}
use grok_codex_bridge.Json.{
  Value, bool, string, array, object, Map, end, field, to_list, of_list, get, insert, as_array,
  ◌and_then◌, get_object,
}
use grok_codex_bridge.Json.Same.{has_value}
use grok_codex_bridge.Protocol.Input.{contains}
use grok_codex_bridge.Protocol.Sanitize.{retain}
use grok_codex_bridge.Protocol.Schema.{
  union_keywords, normalize_schema_literals, has_root_union, has_nullable_object_root,
}
use grok_codex_bridge.Protocol.Schema.Pointer.{resolve_local_schema_ref}

-- `ObjectSchemaBranch`
pub record ObjectSchemaBranch : Type 0 where
  pub schema : Map
  pub is_root : Bool

-- `seen_refs` and `branches`
pub record Collected : Type 0 where
  pub seen_refs : List String
  pub branches : List ObjectSchemaBranch

abbrev is_string : Option Value → String → Bool
is_string (some (string s)) t = s == t
is_string _ t = false

abbrev is_map : Option Value → Bool
is_map (some (object m)) = true
is_map _ = false

abbrev push_branch : Map → Bool → Collected → Collected
push_branch schema is_root st =
    if is_string (get schema "type") "object" || is_map (get schema "properties")
    then record st { branches = st.branches ++ record { schema = schema; is_root = is_root } ∷ [] }
    else st

abbrev elements : Option Value → List Value
elements (some (array vs)) = to_list vs
elements _ = []

module _ (collect_child : Map → Collected → Collected) where
  abbrev collect_children : List Value → Collected → Collected
  collect_children [] st = st
  collect_children (object m ∷ vs) st = collect_children vs (collect_child m st)
  collect_children (v ∷ vs) st = collect_children vs st

  abbrev collect_unions : Map → List String → Collected → Collected
  collect_unions schema [] st = st
  collect_unions schema (key ∷ rest) st =
      collect_unions schema rest (collect_children (elements (get schema key)) st)

-- Where a `$ref` leads, unless it was taken before.
abbrev collect_ref : (Map → Collected → Collected) → String → Map → Collected → Collected
collect_ref collect_child reference root st =
    if contains st.seen_refs reference
    then st
    else let seen : Collected = record st { seen_refs = reference ∷ st.seen_refs } in
      elim (resolve_local_schema_ref reference root) [
        | none ↦ seen
        | some resolved ↦ collect_child resolved seen
      ]

-- The number counts the levels that are left: 9 at the root, and none below depth 8.
unfoldable pub collect_object_schema_branches : ℕ → Map → Map → Bool → Collected → Collected
unfolding resolve_local_schema_ref
collect_object_schema_branches zero schema root is_root st = st
collect_object_schema_branches (suc n) schema root is_root st =
    let collect_child : Map → Collected → Collected =
      λ m s. collect_object_schema_branches n m root false s in
    elim (get schema "$ref") [
      | some (string reference) ↦ collect_ref collect_child reference root st
      | _ ↦ push_branch schema is_root (collect_unions collect_child schema union_keywords st)
    ]

-- `required_schema_values`
unfoldable pub required_schema_values : Map → List Value
required_schema_values schema = get_or [] (get schema "required" and_then as_array)

-- `properties.entry(name).or_insert_with(property)` for the entries of a branch
unfoldable pub add_absent : Map → Map → Map
add_absent properties end = properties
add_absent properties (field k v rest) = elim (get properties k) [
  | some old ↦ add_absent properties rest
  | none ↦ add_absent (insert properties k v) rest
]

unfoldable pub add_properties : Map → List ObjectSchemaBranch → Map
unfolding add_absent
add_properties properties [] = properties
add_properties properties (branch ∷ rest) =
    add_properties (add_absent properties (get_or end (get_object branch.schema "properties"))) rest

unfoldable pub union_branches : List ObjectSchemaBranch → List Map
union_branches [] = []
union_branches (branch ∷ rest) =
    let later = union_branches rest in if branch.is_root then later else branch.schema ∷ later

-- `shared.retain(|name| branch_required.contains(name))`, for each branch
unfoldable pub retain_shared : List Value → List Map → List Value
unfolding required_schema_values
retain_shared shared [] = shared
retain_shared shared (branch ∷ rest) =
    retain_shared (retain (has_value (required_schema_values branch)) shared) rest

-- `if !required.contains(&name) { required.push(name) }`
unfoldable pub push_absent : List Value → List Value → List Value
push_absent required [] = required
push_absent required (name ∷ rest) =
    push_absent (if has_value required name then required else required ++ name ∷ []) rest

abbrev required_of_branches : List Map → List Value
unfolding retain_shared required_schema_values
required_of_branches [] = []
required_of_branches (first ∷ rest) = retain_shared (required_schema_values first) rest

-- An entry that is there only in some cases.
abbrev pub insert_some : String → Option Value → Map → Map
insert_some k none m = m
insert_some k (some v) m = insert m k v

abbrev only_string : Option Value → Option Value
only_string (some (string s)) = some (string s)
only_string _ = none

abbrev nonempty_array : List Value → Option Value
nonempty_array [] = none
nonempty_array (v ∷ vs) = some (array (of_list (v ∷ vs)))

-- `additional_properties`
abbrev additional : List Map → Option Value → Value
additional [] (some v) = v
additional _ _ = bool true

-- `rewritten`, from the properties, the required names and the `additionalProperties`
unfoldable pub root_of : Map → Map → List Value → Value → Map
root_of schema properties required extra =
    let defs = insert_some "definitions" (get schema "definitions") (
      insert_some "$defs" (get schema "$defs")
        (insert_some "$schema" (get schema "$schema") end)) in
    let described = insert_some "description" (only_string (get schema "description")) defs in
    let typed =
      insert (insert described "type" (string "object")) "properties" (object properties) in
    insert (insert_some "required" (nonempty_array required) typed) "additionalProperties" extra

unfoldable pub collected : Map → List ObjectSchemaBranch
unfolding collect_object_schema_branches
collected schema =
    let start : Collected = record { seen_refs = []; branches = [] } in
    (collect_object_schema_branches 9 schema schema true start).branches

unfoldable pub object_root_tool_schema : Map → Map
unfolding root_of collected add_properties union_branches push_absent required_of_branches
object_root_tool_schema schema =
    let unions = union_branches (collected schema) in
    root_of schema (add_properties (get_or end (get_object schema "properties")) (collected schema))
      (push_absent (required_schema_values schema) (required_of_branches unions))
      (additional unions (get schema "additionalProperties"))

unfoldable pub provider_tool_schema : Map → Map
unfolding object_root_tool_schema
provider_tool_schema schema =
    let normalized = normalize_schema_literals 33 schema in
    if not (has_root_union normalized) && not (has_nullable_object_root normalized)
    then normalized
    else object_root_tool_schema normalized
