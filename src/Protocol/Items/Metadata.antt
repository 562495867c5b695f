-- ===== src/Protocol/Items/Metadata.antt =====
-- `validate_internal_message_metadata` of src/protocol.rs.
use grok_codex_bridge.Base.{
  none, nat_eq, all, is_some, ok, err, ◌>>◌, guard, is_ok, Bool, true, false, not, ◌&&◌, Option,
  some, [], ◌∷◌, ◌==◌,
}
use grok_codex_bridge.Json.{
  Number, pos_int, neg_int, float, Value, number, string, array, object, Map, to_list, get,
}
use grok_codex_bridge.Protocol.Error.{ProtocolError, invalid_request_field, Res}
use grok_codex_bridge.Protocol.Fields.{has_only_keys, required_nonempty_string}

abbrev input_error : ProtocolError
input_error = invalid_request_field "input"

abbrev check_turn_id : Option Value → Res (Unit {0})
check_turn_id none = ok tt
check_turn_id (some (string s)) = guard (not (s == "")) input_error
check_turn_id (some _) = err input_error

-- `seconds < 0.0`; `-0.0` is not below zero, and a JSON number is finite.
abbrev is_negative : Number → Bool
is_negative (pos_int n) = false
is_negative (neg_int n) = true
is_negative (float f) = f.negative && not (nat_eq f.numerator 0)

abbrev check_create_time : Option Value → Res (Unit {0})
check_create_time none = ok tt
check_create_time (some (number n)) = guard (not (is_negative n)) input_error
check_create_time (some _) = err input_error

abbrev is_executed_call : Value → Bool
is_executed_call (object call) =
    has_only_keys call ("name" ∷ "arguments" ∷ [])
    && is_ok (required_nonempty_string call "name")
    && is_some (get call "arguments")
is_executed_call v = false

abbrev check_executed_calls : Option Value → Res (Unit {0})
check_executed_calls none = ok tt
check_executed_calls (some (array calls)) = guard (all is_executed_call (to_list calls)) input_error
check_executed_calls (some _) = err input_error

abbrev check_metadata : Option Value → Res (Unit {0})
check_metadata none = ok tt
check_metadata (some (object m)) = do
  guard (has_only_keys m ("turn_id" ∷ "create_time" ∷ "executed_tool_calls" ∷ [])) input_error
  check_turn_id (get m "turn_id")
  check_create_time (get m "create_time")
  check_executed_calls (get m "executed_tool_calls")
check_metadata (some _) = err input_error

unfoldable pub validate_internal_message_metadata : Map → Res (Unit {0})
validate_internal_message_metadata m =
    check_metadata (get m "internal_chat_message_metadata_passthrough")
