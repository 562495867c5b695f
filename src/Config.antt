-- ===== src/Config.antt =====
-- `CapabilityToken` of src/config.rs, on the bytes of the token and of the candidate.
use grok_codex_bridge.Base.{
  leb, nat_eq, if◌then◌else◌, length, get_elem?, all, get_or, ℕ, Bool, ◌&&◌, ◌||◌, Option, none,
  some, List, [], ◌∷◌, String,
}
use grok_codex_bridge.Base.Text.{bytes, byte_len, is_ascii_alphanumeric}
use Prim.Native.Nat.{bit_or, bit_xor}
pub mod Compare

abbrev pub min_capability_bytes : ℕ
min_capability_bytes = 32

abbrev pub max_capability_bytes : ℕ
max_capability_bytes = 128

abbrev is_token_byte : ℕ → Bool
is_token_byte b = is_ascii_alphanumeric b || nat_eq b b'-' || nat_eq b b'_'

-- `CapabilityToken::parse`; its only error is `InvalidCapability`
unfoldable pub parse_capability : String → Option (List ℕ)
unfolding byte_len bytes
parse_capability value =
    if leb min_capability_bytes (byte_len value)
      && leb (byte_len value) max_capability_bytes
      && all is_token_byte (bytes value)
    then some (bytes value)
    else none

abbrev rest_of : List ℕ → List ℕ
rest_of [] = []
rest_of (b ∷ bs) = bs

-- The loop: `candidate.get(index).copied().unwrap_or(0)` is the first byte that is left, or 0.
unfoldable pub fold_difference : ℕ → List ℕ → List ℕ → ℕ
fold_difference difference [] candidate = difference
fold_difference difference (b ∷ expected) candidate =
    fold_difference (bit_or difference (bit_xor b (get_or 0 (get_elem? candidate 0)))) expected
      (rest_of candidate)

-- `CapabilityToken::matches`
unfoldable pub capability_matches : List ℕ → List ℕ → Bool
unfolding fold_difference
capability_matches expected candidate =
    nat_eq (fold_difference (bit_xor (length expected) (length candidate)) expected candidate) 0
