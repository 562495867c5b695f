-- ===== src/Protocol/Restore/Reasoning.antt =====
-- Provider-bound reasoning (src/protocol.rs): the envelope's prefix on Grok's ciphertext, set on the
-- way to Codex and taken off when the item is replayed to Grok.
pub mod Laws
use grok_codex_bridge.Base.{
  ◌>>=◌, ◌++◌, leb, if◌then◌else◌, get_or, is_some, ok, err, ◌>>◌, guard, ℕ, ◌*◌, Bool, not, Option,
  none, some, ◌==◌, String,
}
use grok_codex_bridge.Json.{modify, Value, null, string, object, Map, get_str}
use grok_codex_bridge.Base.Text.{byte_len, strip_prefix}
use grok_codex_bridge.Protocol.Error.{ProtocolError, invalid_request_field, Res}
use grok_codex_bridge.Protocol.Restore.{is_type, update_object, update_output}
use Prim.Native.String

abbrev pub envelope_prefix : String
envelope_prefix = "grok-codex-bridge:v1:"

-- `str::starts_with`
abbrev pub has_prefix : String → String → Bool
has_prefix prefix s = is_some (strip_prefix prefix s)

abbrev pub marked : String → String
marked value = if has_prefix envelope_prefix value then value else String.◌++◌ envelope_prefix value

abbrev mark_text : Value → Value
mark_text (string value) = string (marked value)
mark_text v = v

unfoldable pub mark_reasoning_ciphertext : Map → Map
mark_reasoning_ciphertext item =
    if is_type item "reasoning" then modify item "encrypted_content" mark_text else item

unfoldable pub mark_provider_bound_reasoning : Value → Value
unfolding mark_reasoning_ciphertext
mark_provider_bound_reasoning (object m) =
    let mark = update_object mark_reasoning_ciphertext in
    let type = get_or "" (get_str m "type") in
    if type == "response.output_item.done"
    then object (modify m "item" mark)
    else if type == "response.completed"
    then object (update_output m mark)
    else object m
mark_provider_bound_reasoning v = v

-- `PriorEncryptedContent`
pub data PriorEncryptedContent : Type 0 where
  null_content : PriorEncryptedContent
  grok foreign : String → PriorEncryptedContent

abbrev pub max_encrypted_reasoning_bytes : ℕ
max_encrypted_reasoning_bytes = 16 * 1024 * 1024

abbrev encrypted_error : ProtocolError
encrypted_error = invalid_request_field "encrypted_content"

abbrev unwrap_text : String → Option String → Res PriorEncryptedContent
unwrap_text value (some rest) = do guard (not (rest == "")) encrypted_error; ok (grok rest)
unwrap_text value none = ok (foreign value)

-- The `match` on `encrypted_content` of `PriorReasoning::parse`.
unfoldable pub parse_encrypted : Value → Res PriorEncryptedContent
parse_encrypted null = ok null_content
parse_encrypted (string value) = do
  guard (not (value == "")) encrypted_error
  guard (leb (byte_len value) max_encrypted_reasoning_bytes) encrypted_error
  unwrap_text value (strip_prefix envelope_prefix value)
parse_encrypted _ = err encrypted_error
