-- ===== src/Json.antt =====
-- JSON values as `serde_json::Value` and `serde_json::Map` give them to src/protocol.rs.
-- A map is a `BTreeMap`, since Cargo.lock has `serde_json` without `preserve_order`: `insert` keeps
-- the entries in the order of their keys.
pub mod Canonical
pub mod Laws
pub mod Same
use grok_codex_bridge.Base.{
  ℕ, String, ◌≡◌, refl, Bool, true, false, Option, none, some, List, [], ◌∷◌, ◌==◌, if◌then◌else◌,
}
use grok_codex_bridge.Base.Text.{text_lt}

-- A finite `f64`: the sign, and the magnitude as `numerator / 2 ^ scale`.
pub record Float : Type 0 where
  pub negative : Bool
  pub numerator : ℕ
  pub scale : ℕ

-- `serde_json::Number`: `neg_int n` is the `i64` -(n + 1).
pub data Number : Type 0 where
  pos_int : ℕ → Number
  neg_int : ℕ → Number
  float : Float → Number

mutual
  pub data Value : Type 0 where
    null : Value
    bool : Bool → Value
    number : Number → Value
    string : String → Value
    array : Values → Value
    object : Map → Value

  pub data Values : Type 0 where
    nil : Values
    cons : Value → Values → Values

  pub data Map : Type 0 where
    end : Map
    field : String → Value → Map → Map

abbrev pub to_list : Values → List Value
to_list nil = []
to_list (cons v vs) = v ∷ to_list vs

abbrev pub of_list : List Value → Values
of_list [] = nil
of_list (v ∷ vs) = cons v (of_list vs)

unfoldable pub get : Map → String → Option Value
get end k = none
get (field j v m) k = if j == k then some v else get m k

unfoldable pub insert : Map → String → Value → Map
insert end k v = field k v end
insert (field j w m) k v =
    if j == k
    then field k v m
    else if text_lt k j
    then field k v (field j w m)
    else field j w (insert m k v)

-- `get_mut`, and a change of the value that it finds
unfoldable pub modify : Map → String → (Value → Value) → Map
modify end k f = end
modify (field j v m) k f = if j == k then field j (f v) m else field j v (modify m k f)

-- The keys of a map are distinct, so the first match is the only one.
unfoldable pub remove : Map → String → Map
remove end k = end
remove (field j w m) k = let rest = remove m k in if j == k then rest else field j w rest

unfoldable pub keys : Map → List String
keys end = []
keys (field j v m) = j ∷ keys m

abbrev pub as_str : Value → Option String
as_str (string s) = some s
as_str _ = none

abbrev pub as_bool : Value → Option Bool
as_bool (bool b) = some b
as_bool _ = none

abbrev pub as_array : Value → Option (List Value)
as_array (array vs) = some (to_list vs)
as_array _ = none

abbrev pub as_object : Value → Option Map
as_object (object m) = some m
as_object _ = none

abbrev pub as_u64 : Value → Option ℕ
as_u64 (number (pos_int n)) = some n
as_u64 _ = none

infixl 10 ◌and_then◌
abbrev pub ◌and_then◌ {ℓ κ} : {A : Type ℓ} {B : Type κ} → Option A → (A → Option B) → Option B
none and_then f = none
some a and_then f = f a

-- `object.get(key).and_then(Value::as_str)` and the like
abbrev pub get_str : Map → String → Option String
get_str m k = get m k and_then as_str

abbrev pub get_u64 : Map → String → Option ℕ
get_u64 m k = get m k and_then as_u64

abbrev pub get_object : Map → String → Option Map
get_object m k = get m k and_then as_object
