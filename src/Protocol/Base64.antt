-- ===== src/Protocol/Base64.antt =====
-- `is_valid_base64` of src/protocol.rs, over the bytes of a text.
use grok_codex_bridge.Base.{
  ltb, leb, nat_eq, if◌then◌else◌, length, get_elem?, take, any, is_empty, is_some, suc, ◌+◌, ◌-◌,
  ◌%◌, String, Bool, true, false, not, ◌&&◌, ◌||◌, Option, none, some, List, [], ◌∷◌, ℕ,
}
use grok_codex_bridge.Base.Text.{bytes}
use grok_codex_bridge.Json.{◌and_then◌}
use mathlib.Core.List.{reverse}
pub mod Image

unfoldable pub base64_value : ℕ → Option ℕ
base64_value byte =
    if leb b'A' byte && leb byte b'Z'
    then some (byte - b'A')
    else if leb b'a' byte && leb byte b'z'
    then some (byte - b'a' + 26)
    else if leb b'0' byte && leb byte b'9'
    then some (byte - b'0' + 52)
    else if nat_eq byte b'+'
    then some 62
    else if nat_eq byte b'/'
    then some 63
    else none

abbrev pub is_pad : ℕ → Bool
is_pad byte = nat_eq byte b'='

-- `take_while(is_pad).count()`
unfoldable pub leading_pads : List ℕ → ℕ
leading_pads [] = 0
leading_pads (b ∷ bs) = let rest = leading_pads bs in if is_pad b then suc rest else 0

abbrev pub is_symbol : ℕ → Bool
is_symbol byte = is_some (base64_value byte)

-- `base64_value(bytes[content_len - 1]).is_some_and(|value| value & mask == 0)`, the mask as the
-- modulus above it
abbrev ends_clear : List ℕ → ℕ → ℕ → Bool
ends_clear bytes content_len modulus =
    elim (get_elem? bytes (content_len - 1) and_then base64_value) [
      | none ↦ false
      | some value ↦ nat_eq (value % modulus) 0
    ]

abbrev pads_match : ℕ → ℕ → Bool
pads_match remainder padding =
    (nat_eq remainder 2 && nat_eq padding 2) || (nat_eq remainder 3 && nat_eq padding 1)

unfoldable pub is_valid_base64_bytes : List ℕ → Bool
unfolding base64_value leading_pads
is_valid_base64_bytes bytes =
    let padding = leading_pads (reverse bytes) in
    let content_len = length bytes - padding in
    let content = take content_len bytes in
    let remainder = content_len % 4 in
    if is_empty bytes
    then false
    else if ltb 2 padding
    then false
    else if nat_eq content_len 0 || any (λ b. not (is_symbol b)) content || any is_pad content
    then false
    else if nat_eq remainder 1
        || (ltb 0 padding
            && (not (nat_eq (length bytes % 4) 0) || not (pads_match remainder padding)))
    then false
    else if nat_eq remainder 2
    then ends_clear bytes content_len 16
    else if nat_eq remainder 3
    then ends_clear bytes content_len 4
    else true

unfoldable pub is_valid_base64 : String → Bool
is_valid_base64 value = is_valid_base64_bytes (bytes value)
