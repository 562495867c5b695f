-- ===== src/PickerCatalog.antt =====
-- The catalog of the picker in src/picker.rs: its errors and the checks on an entry.
use grok_codex_bridge.Base.{
  ◌^◌, ℕ, ◌+◌, leb, ltb, Bool, true, false, not, ◌&&◌, ◌||◌, Option, none, some, List, [], ◌∷◌,
  String, ◌==◌, if◌then◌else◌, Result, ok, err, guard, ok_or, is_some, any, ◌>>=◌, ◌>>◌,
}
pub mod Entry
pub mod Generate
pub mod Hidden
pub mod Laws
pub mod Kept
use grok_codex_bridge.Json.{
  Value, Map, Number, Float, number, pos_int, neg_int, float, string, null, bool, array, object,
  get, get_str, get_object, as_str, as_array, as_object, as_bool, ◌and_then◌,
}
use grok_codex_bridge.Protocol.Input.{contains}

-- `PickerError`, less the errors of the managed state
pub data PickerError : Type 0 where
  malformed_native_catalog : PickerError
  invalid_native_catalog : String → PickerError
  invalid_model_schema : ℕ → String → PickerError
  duplicate_slug : String → PickerError
  too_many_models : PickerError
  missing_native_compatibility_fallback : PickerError
  serialize_catalog : String → PickerError
  empty_overlay : PickerError

-- A checked reading of a field of the entry at an index.
abbrev pub required : {A : Type 0} → ℕ → String → Option A → Result PickerError A
required index name found = ok_or (invalid_model_schema index name) found

abbrev pub nonempty : Option String → Option String
nonempty none = none
nonempty (some s) = if s == "" then none else some s

unfoldable pub required_non_empty_string : Map → String → ℕ → Result PickerError String
required_non_empty_string m name index = required index name (nonempty (get_str m name))

unfoldable pub required_array : Map → String → ℕ → Result PickerError (List Value)
required_array m name index = required index name (get m name and_then as_array)

unfoldable pub required_bool : Map → String → ℕ → Result PickerError Bool
required_bool m name index = required index name (get m name and_then as_bool)

abbrev pub admitted_text : List String → Option String → Bool
admitted_text admitted none = false
admitted_text admitted (some s) = contains admitted s

unfoldable pub required_enum : Map → String → List String → ℕ → Result PickerError (Unit {0})
required_enum m name admitted index =
    guard (admitted_text admitted (get_str m name)) (invalid_model_schema index name)

abbrev pub is_text : Value → Bool
is_text v = is_some (as_str v)

unfoldable pub required_string_array : Map → String → ℕ → Result PickerError (Unit {0})
required_string_array m name index = do
  values ← required_array m name index
  guard (not (any (λ v. not (is_text v)) values)) (invalid_model_schema index name)

-- `as_i64` and then `i32::try_from`; `neg_int n` is -(n + 1)
abbrev pub is_i64 : Value → Bool
is_i64 (number (pos_int n)) = ltb n (2 ^ 63)
is_i64 (number (neg_int n)) = true
is_i64 other = false

abbrev pub is_i32 : Value → Bool
is_i32 (number (pos_int n)) = ltb n (2 ^ 31)
is_i32 (number (neg_int n)) = ltb n (2 ^ 31)
is_i32 other = false

abbrev pub holds : (Value → Bool) → Option Value → Bool
holds test none = false
holds test (some v) = test v
