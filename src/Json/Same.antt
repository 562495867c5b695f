-- ===== src/Json/Same.antt =====
-- `==` on `serde_json::Value`, and the loops over the entries of a map.
use grok_codex_bridge.Base.{
  nat_eq, any, ◌*◌, ◌^◌, Bool, true, false, not, ◌&&◌, ◌||◌, List, [], ◌∷◌, ◌==◌, String,
}
use grok_codex_bridge.Json.{
  Number, pos_int, neg_int, float, Value, null, bool, number, string, array, object, Values, nil,
  cons, Map, end, field,
}

abbrev pub same_bool : Bool → Bool → Bool
same_bool true b = b
same_bool false b = not b

abbrev pub same_number : Number → Number → Bool
same_number (pos_int m) (pos_int n) = nat_eq m n
same_number (neg_int m) (neg_int n) = nat_eq m n
same_number (float a) (float b) =
    (nat_eq (a.numerator * 2 ^ b.scale) (b.numerator * 2 ^ a.scale)
      && (same_bool a.negative b.negative || nat_eq a.numerator 0))
same_number _ _ = false

unfoldable mutual
  pub same_value : Value → Value → Bool
  same_value null null = true
  same_value (bool a) (bool b) = same_bool a b
  same_value (number m) (number n) = same_number m n
  same_value (string s) (string t) = s == t
  same_value (array vs) (array ws) = same_values vs ws
  same_value (object m) (object n) = same_map m n
  same_value _ _ = false

  pub same_values : Values → Values → Bool
  same_values nil nil = true
  same_values (cons v vs) (cons w ws) = same_value v w && same_values vs ws
  same_values _ _ = false

  pub same_map : Map → Map → Bool
  same_map end end = true
  same_map (field j v m) (field k w n) = j == k && same_value v w && same_map m n
  same_map _ _ = false

-- `iter().map(|(name, child)| (name.clone(), f(child))).collect()`
unfoldable pub map_fields : (Value → Value) → Map → Map
map_fields f end = end
map_fields f (field k v m) = field k (f v) (map_fields f m)

unfoldable pub entries : Map → List (String × Value)
entries end = []
entries (field k v m) = (k, v) ∷ entries m

-- `values.contains`
unfoldable pub has_value : List Value → Value → Bool
has_value vs v = any (λ w. same_value w v) vs
