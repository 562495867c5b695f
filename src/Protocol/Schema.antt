-- ===== src/Protocol/Schema.antt =====
-- The schemas of tools in src/protocol.rs: `normalize_schema_literals`, and the tests on a root.
use grok_codex_bridge.Base.{
  nat_eq, if◌then◌else◌, length, any, is_empty, ℕ, zero, suc, Bool, true, false, ◌&&◌, ◌||◌, Option,
  none, some, List, [], ◌∷◌, map, ◌==◌, String,
}
use grok_codex_bridge.Json.{
  float, Value, null, bool, number, string, array, object, Map, to_list, of_list, get, insert,
  remove,
}
use grok_codex_bridge.Json.Same.{same_value, same_values, same_map, map_fields}
pub mod Branches
pub mod Pointer
pub mod Walk
pub mod Root

-- `declared_schema_types`
abbrev strings : List Value → List String
strings [] = []
strings (string s ∷ vs) = s ∷ strings vs
strings (v ∷ vs) = strings vs

unfoldable pub declared_schema_types : Map → List String
declared_schema_types schema = elim (get schema "type") [
  | some (string s) ↦ s ∷ []
  | some (array vs) ↦ strings (to_list vs)
  | _ ↦ []
]

-- `match value`: the kind of a value
abbrev actual_type : Value → String
actual_type null = "null"
actual_type (bool b) = "boolean"
actual_type (string s) = "string"
actual_type (array vs) = "array"
actual_type (object m) = "object"
actual_type (number (float x)) = "number"
actual_type (number _) = "integer"

unfoldable pub matches_declared_schema_type : List String → Value → Bool
matches_declared_schema_type types v =
    let actual = actual_type v in
    any (λ t. t == actual) types || (actual == "integer" && any (λ t. t == "number") types)

abbrev keep_matching : (Value → Bool) → List Value → List Value
keep_matching p [] = []
keep_matching p (v ∷ vs) = let rest = keep_matching p vs in if p v then v ∷ rest else rest

-- The `enum` of a schema, less the values of another type.
abbrev keep_enum : List String → Option Value → Map → Map
keep_enum types (some (array values)) next =
    let kept = keep_matching (matches_declared_schema_type types) (to_list values) in
    if nat_eq (length kept) (length (to_list values))
    then next
    else if is_empty kept
    then remove next "enum"
    else insert next "enum" (array (of_list kept))
keep_enum types _ next = next

abbrev keep_const : List String → Option Value → Map → Map
keep_const types none next = next
keep_const types (some v) next =
    if matches_declared_schema_type types v then next else remove next "const"

unfoldable pub keep_literals : Map → Map
unfolding declared_schema_types
keep_literals schema =
    let types = declared_schema_types schema in
    if is_empty types
    then schema
    else keep_const types (get schema "const") (keep_enum types (get schema "enum") schema)

abbrev pub union_keywords : List String
union_keywords = "anyOf" ∷ "oneOf" ∷ "allOf" ∷ []

abbrev map_keywords : List String
map_keywords = "properties" ∷ "patternProperties" ∷ "$defs" ∷ "definitions" ∷ []

abbrev list_keywords : List String
list_keywords = "anyOf" ∷ "oneOf" ∷ "allOf" ∷ "prefixItems" ∷ []

abbrev child_keywords : List String
child_keywords =
    "items" ∷ "additionalProperties" ∷ "contains" ∷ "not" ∷ "if" ∷ "then" ∷ "else" ∷ "propertyNames"
    ∷ []

module _ (rewrite : Value → Value) where
  abbrev rewrite_map : String → Option Value → Map → Map
  rewrite_map key (some (object children)) next =
      let rewritten = map_fields rewrite children in
      if same_map rewritten children then next else insert next key (object rewritten)
  rewrite_map key _ next = next

  abbrev rewrite_list : String → Option Value → Map → Map
  rewrite_list key (some (array children)) next =
      let rewritten = of_list (map rewrite (to_list children)) in
      if same_values rewritten children then next else insert next key (array rewritten)
  rewrite_list key _ next = next

  abbrev rewrite_child : String → Option Value → Map → Map
  rewrite_child key (some (array children)) next = rewrite_list key (some (array children)) next
  rewrite_child key (some (object m)) next =
      let rewritten = rewrite (object m) in
      if same_value rewritten (object m) then next else insert next key rewritten
  rewrite_child key _ next = next

-- A loop over keywords: each step reads the schema and changes its copy.
abbrev for_each : (String → Option Value → Map → Map) → Map → List String → Map → Map
for_each f schema [] next = next
for_each f schema (key ∷ rest) next = for_each f schema rest (f key (get schema key) next)

-- `normalize_schema_value`
abbrev schema_value : (Map → Map) → Value → Value
schema_value f (object m) = object (f m)
schema_value f v = v

-- The number counts the levels that are left: 33 at the root, and none below depth 32.
unfoldable pub normalize_schema_literals : ℕ → Map → Map
unfolding keep_literals
normalize_schema_literals zero schema = schema
normalize_schema_literals (suc n) schema =
    let rewrite = schema_value (normalize_schema_literals n) in
    for_each (rewrite_child rewrite) schema child_keywords (
      for_each (rewrite_list rewrite) schema list_keywords
        (for_each (rewrite_map rewrite) schema map_keywords (keep_literals schema)))

abbrev pub is_array : Option Value → Bool
is_array (some (array vs)) = true
is_array _ = false

unfoldable pub has_root_union : Map → Bool
has_root_union schema = any (λ key. is_array (get schema key)) union_keywords

abbrev pub is_text : String → Value → Bool
is_text s (string t) = s == t
is_text s _ = false

abbrev pub has_object : Option Value → Bool
has_object (some (array types)) = any (is_text "object") (to_list types)
has_object _ = false

unfoldable pub has_nullable_object_root : Map → Bool
has_nullable_object_root schema = has_object (get schema "type")
