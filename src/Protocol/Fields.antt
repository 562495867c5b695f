-- ===== src/Protocol/Fields.antt =====
-- The field helpers at the end of src/protocol.rs: required and optional fields of a request.
use grok_codex_bridge.Base.{
  String, Bool, not, Option, none, some, List, ◌==◌, any, all, ok, err, ◌>>=◌, ◌>>◌, guard, ok_or,
  collect,
}
use grok_codex_bridge.Base.Text.{is_blank}
use grok_codex_bridge.Json.{Value, Map, null, string, object, get, keys, as_str, as_bool, as_array}
use grok_codex_bridge.Protocol.Error.{missing_request_field, invalid_request_field, Res}

-- `OptionalJson`
pub data OptionalJson : Type 0 where
  absent : OptionalJson
  present : Value → OptionalJson

-- `reject_unknown_keys` ignores both arguments.
abbrev pub reject_unknown_keys : Map → List String → Res (Unit {0})
reject_unknown_keys m allowed = ok tt

-- whether `reject_unknown_keys_for` accepts
unfoldable pub has_only_keys : Map → List String → Bool
has_only_keys m allowed = all (λ k. any (λ a. k == a) allowed) (keys m)

unfoldable pub required_value : Map → String → Res Value
required_value m k = ok_or (missing_request_field k) (get m k)

unfoldable pub required_string : Map → String → Res String
unfolding required_value
required_string m k = do v ← required_value m k; ok_or (invalid_request_field k) (as_str v)

unfoldable pub required_nonempty_string : Map → String → Res String
unfolding required_string
required_nonempty_string m k = do
  value ← required_string m k
  guard (not (is_blank value)) (invalid_request_field k)
  ok value

unfoldable pub required_bool : Map → String → Res Bool
unfolding required_value
required_bool m k = do v ← required_value m k; ok_or (invalid_request_field k) (as_bool v)

unfoldable pub required_array : Map → String → Res (List Value)
unfolding required_value
required_array m k = do v ← required_value m k; ok_or (invalid_request_field k) (as_array v)

abbrev pub string_or_absent : String → Option Value → Res (Option String)
string_or_absent k none = ok none
string_or_absent k (some (string s)) = ok (some s)
string_or_absent k (some _) = err (invalid_request_field k)

unfoldable pub optional_string : Map → String → Res (Option String)
optional_string m k = string_or_absent k (get m k)

abbrev pub nonempty_or_absent : String → Option String → Res (Option String)
nonempty_or_absent k none = ok none
nonempty_or_absent k (some s) = do guard (not (is_blank s)) (invalid_request_field k); ok (some s)

unfoldable pub optional_nonempty_string : Map → String → Res (Option String)
unfolding optional_string
optional_nonempty_string m k = do s ← optional_string m k; nonempty_or_absent k s

abbrev pub null_or_nonempty : String → Option Value → Res (Unit {0})
null_or_nonempty k none = ok tt
null_or_nonempty k (some null) = ok tt
null_or_nonempty k (some (string s)) = guard (not (is_blank s)) (invalid_request_field k)
null_or_nonempty k (some _) = err (invalid_request_field k)

unfoldable pub validate_optional_nullable_nonempty_string : Map → String → Res (Unit {0})
validate_optional_nullable_nonempty_string m k = null_or_nonempty k (get m k)

abbrev pub object_or_absent : String → Option Value → Res OptionalJson
object_or_absent k none = ok absent
object_or_absent k (some null) = ok (present null)
object_or_absent k (some (object m)) = ok (present (object m))
object_or_absent k (some _) = err (invalid_request_field k)

unfoldable pub optional_object : Map → String → Res OptionalJson
optional_object m k = object_or_absent k (get m k)

abbrev pub scalar_or_absent : String → Option Value → Res OptionalJson
scalar_or_absent k none = ok absent
scalar_or_absent k (some null) = ok (present null)
scalar_or_absent k (some (string s)) = ok (present (string s))
scalar_or_absent k (some _) = err (invalid_request_field k)

unfoldable pub optional_scalar_string : Map → String → Res OptionalJson
optional_scalar_string m k = scalar_or_absent k (get m k)

unfoldable pub required_string_array : Map → String → Res (List String)
unfolding required_array
required_string_array m k = do
  vs ← required_array m k
  collect (λ v. ok_or (invalid_request_field k) (as_str v)) vs
