-- ===== src/Tests/Values.antt =====
-- Runs of the canonical numbers, of the marks on reasoning and of the sanitized history
-- (src/protocol.rs).
use Prim.Native.String
use grok_codex_bridge.Base.{
  String, ◌≢◌, ap, eq_iff, ok, ◌-◌, ◌^◌, ◌⊎◌, All, ◌≡◌, refl, true, false, some, [], ◌∷◌, arith,
}
use grok_codex_bridge.Base.Text.Laws.{strip_prefix-append}
use grok_codex_bridge.Base.Text.{bytes, byte_len, strip_prefix}
use grok_codex_bridge.Json.{
  pos_int, Float, neg_int, float, Value, null, bool, string, array, object, nil, cons, Map, end,
  field, get,
}
use grok_codex_bridge.Json.Canonical.Laws.{SameNumber, IsTwoTo63, SameNumber-integer_valued}
use grok_codex_bridge.Protocol.Restore.Reasoning.{marked, grok, parse_encrypted}
use grok_codex_bridge.Protocol.Restore.Reasoning.Laws.{parse_encrypted-marked}
use grok_codex_bridge.Protocol.Sanitize.{loses_id, is_grok_reasoning, sanitize}
use grok_codex_bridge.Json.Canonical.{round_to_f64, integer_valued_json_number}
use grok_codex_bridge.Protocol.Sanitize.Items.{IsNativeItem}
use grok_codex_bridge.Protocol.Sanitize.Laws.{sanitize_of_native}

abbrev minus_three : Float
minus_three = record { negative = true; numerator = 6; scale = 1 }

minus_three_is_integer : integer_valued_json_number (float minus_three) ≡ some (neg_int 2)
unfolding integer_valued_json_number round_to_f64
minus_three_is_integer = refl

SameNumber_example :
    SameNumber (neg_int 2) minus_three ⊎ IsTwoTo63 minus_three × (neg_int 2 ≡ pos_int (2 ^ 63 - 1))
SameNumber_example = SameNumber-integer_valued minus_three (neg_int 2) minus_three_is_integer

abbrev done_event : Value
done_event = object (
    field "item"
      (object (field "encrypted_content" (string "abc") (field "type" (string "reasoning") end)))
      (field "type" (string "response.output_item.done") end))

parse_encrypted-marked_example : parse_encrypted (string (marked "abc")) ≡ ok (grok "abc")
unfolding strip_prefix byte_len bytes
parse_encrypted-marked_example =
    parse_encrypted-marked "abc" (λ p. ground (arith, (eq_iff "abc" "").1 p)) refl (ground arith)

abbrev native_item : Value
native_item = object (field "type" (string "message") end)

-- Reasoning of the first-party service, which has a ciphertext of its own.
abbrev native_reasoning : Value
native_reasoning =
    object (field "encrypted_content" (string "gAAAAB") (field "type" (string "reasoning") end))

abbrev native_request : Map
native_request =
    field "input" (array (cons native_reasoning (cons native_item nil)))
      (field "store" (bool false) end)

abbrev mixed_request : Value
mixed_request = object (
    field "input"
      (array (
        cons (object (field "encrypted_content" null (field "type" (string "reasoning") end)))
          (cons native_item nil)))
      (field "store" (bool false) end))

native_is_unchanged : (sanitize (object native_request)).0 ≡ false
unfolding sanitize get is_grok_reasoning loses_id strip_prefix
native_is_unchanged = refl

-- A text with Grok's envelope begins with another letter.
other_start : (rest : String) → "gAAAAB" ≢ String.◌++◌ "grok-codex-bridge:v1:" rest
unfolding strip_prefix
other_start rest h = ground (
  arith,
  ap (strip_prefix "grok-codex-bridge:v1:") h,
  strip_prefix-append "grok-codex-bridge:v1:" rest,
)

native_items_hold : All IsNativeItem (native_reasoning ∷ native_item ∷ [])
unfolding get
native_items_hold = (
  (λ kind. (λ e. ground arith, λ rest e. other_start rest (ground arith)), λ kind. ground arith),
  ((λ kind. ground arith, λ kind. ground arith), tt),
)

sanitize_of_native_example : sanitize (object native_request) ≡ (false, object native_request)
unfolding get
sanitize_of_native_example =
    sanitize_of_native native_request (cons native_reasoning (cons native_item nil)) refl
      native_items_hold
