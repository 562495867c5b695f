-- ===== src/Protocol/Schema/Root.antt =====
-- The root of the schema that `provider_tool_schema` of src/protocol.rs makes.
use grok_codex_bridge.Base.{
  any, All, sym, ap, ◌∙◌, ◌≢◌, [], ◌∷◌, Bool-cases, inl, inr, false, not, ◌&&◌, if◌then◌else◌,
  arith, ◌≡◌, refl, Option, none, some, List, ◌==◌, String,
}
use grok_codex_bridge.Json.{array, Values, to_list, Value, string, Map, get}
use grok_codex_bridge.Protocol.Schema.{
  is_text, is_array, has_object, normalize_schema_literals, has_root_union,
  has_nullable_object_root,
}
use grok_codex_bridge.Protocol.Schema.Branches.{
  object_root_tool_schema, provider_tool_schema, root_of, insert_some,
}
use grok_codex_bridge.Json.Laws.{get-insert}
use mathlib.Core.Path.{subst}

abbrev or_some : Option Value → Option Value → Option Value
or_some none o = o
or_some (some v) o = some v

get-insert_some :
    (j k : String) (o : Option Value) (m : Map)
    → get (insert_some j o m) k ≡ (if j == k then or_some o (get m k) else get m k)
get-insert_some j k none m = ground arith
get-insert_some j k (some v) m = rw (get-insert m j v k) refl

module _ (schema properties : Map) (required : List Value) (extra : Value) where
  abbrev root : Map
  root = root_of schema properties required extra

  any_of-root_of : get root "anyOf" ≡ none
  unfolding root_of get
  any_of-root_of = simp (get-insert, get-insert_some) refl

  one_of-root_of : get root "oneOf" ≡ none
  unfolding root_of get
  one_of-root_of = simp (get-insert, get-insert_some) refl

  all_of-root_of : get root "allOf" ≡ none
  unfolding root_of get
  all_of-root_of = simp (get-insert, get-insert_some) refl

  type-root_of : get root "type" ≡ some (string "object")
  unfolding root_of
  type-root_of = simp (get-insert, get-insert_some) refl

-- A root that Grok takes: none of the three keywords of a union has a list, and no list of types has
-- "object" in it.
abbrev pub IsPlainRoot : Map → Type 0
IsPlainRoot m =
    ((vs : Values) → get m "anyOf" ≢ some (array vs))
    × ((vs : Values) → get m "oneOf" ≢ some (array vs))
    × ((vs : Values) → get m "allOf" ≢ some (array vs))
    × ((vs : Values) → get m "type" ≡ some (array vs) → All (λ v. v ≢ string "object") (to_list vs))

IsPlainRoot-root_of :
    (schema properties : Map) (required : List Value) (extra : Value)
    → IsPlainRoot (root_of schema properties required extra)
IsPlainRoot-root_of schema properties required extra = (
  λ vs h. ground (arith, any_of-root_of schema properties required extra),
  λ vs h. ground (arith, one_of-root_of schema properties required extra),
  λ vs h. ground (arith, all_of-root_of schema properties required extra),
  λ vs h. ground (arith, type-root_of schema properties required extra),
)

no_list : (o : Option Value) (vs : Values) → is_array o ≡ false → o ≢ some (array vs)
no_list none vs h e = ground arith
no_list (some v) vs h e = ground (arith, ap is_array e)

All-is_text :
    (vs : List Value) → any (is_text "object") vs ≡ false → All (λ v. v ≢ string "object") vs
All-is_text [] h = tt
All-is_text (v ∷ vs) h = elim (Bool-cases (is_text "object" v)) [
  | inl e ↦ ground arith
  | inr e ↦ (λ same. ground (arith, ap (is_text "object") same), All-is_text vs (ground arith))
]

types_without_object :
    (o : Option Value) (vs : Values)
    → has_object o ≡ false
    → o ≡ some (array vs)
    → All (λ v. v ≢ string "object") (to_list vs)
types_without_object o vs h e = All-is_text (to_list vs) (sym (ap has_object e) ∙ h)

-- A root that the two tests of the code pass is plain.
IsPlainRoot-tests :
    (m : Map) → has_root_union m ≡ false → has_nullable_object_root m ≡ false → IsPlainRoot m
unfolding has_root_union has_nullable_object_root
IsPlainRoot-tests m u n = (
  λ vs. no_list (get m "anyOf") vs (ground arith),
  λ vs. no_list (get m "oneOf") vs (ground arith),
  λ vs. no_list (get m "allOf") vs (ground arith),
  λ vs. types_without_object (get m "type") vs n,
)

IsPlainRoot-object_root : (schema : Map) → IsPlainRoot (object_root_tool_schema schema)
unfolding object_root_tool_schema
IsPlainRoot-object_root schema = IsPlainRoot-root_of schema _ _ _

-- Whatever schema a tool has, in the root of the one that is sent none of "anyOf", "oneOf" and
-- "allOf" is a list, and if "type" is a list, the text "object" is not in it.
pub IsPlainRoot-provider_tool_schema : (schema : Map) → IsPlainRoot (provider_tool_schema schema)
unfolding provider_tool_schema
IsPlainRoot-provider_tool_schema schema = go (normalize_schema_literals 33 schema)
  where
    go :
        (m : Map)
        → IsPlainRoot (
            if not (has_root_union m) && not (has_nullable_object_root m)
            then m
            else object_root_tool_schema m)
    go m = elim (Bool-cases (has_root_union m)) [
      | inl u ↦
          subst IsPlainRoot {x = object_root_tool_schema m} (simp u refl)
            (IsPlainRoot-object_root m)
      | inr u ↦ elim (Bool-cases (has_nullable_object_root m)) [
        | inl n ↦
            subst IsPlainRoot {x = object_root_tool_schema m} (simp (u, n) refl)
              (IsPlainRoot-object_root m)
        | inr n ↦ subst IsPlainRoot {x = m} (simp (u, n) refl) (IsPlainRoot-tests m u n)
      ]
    ]
