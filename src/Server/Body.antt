-- ===== src/Server/Body.antt =====
-- The bodies of requests in src/server.rs: the copy that is read, and what goes on to the first-party
-- service.
use grok_codex_bridge.Base.{
  ℕ, ◌+◌, ◌*◌, Bool, false, not, ◌&&◌, Option, none, some, List, String, ◌==◌, leb, length,
  if◌then◌else◌,
}
use grok_codex_bridge.Base.Trim.{trim}
use grok_codex_bridge.Json.{Value, string, object, Map, insert, get_str, ◌and_then◌}
use grok_codex_bridge.Native.Transport.{NativeApiPath, is_responses}
use grok_codex_bridge.Protocol.Sanitize.{sanitize}
pub mod Laws

-- 16 MiB
abbrev pub max_responses_body_bytes : ℕ
max_responses_body_bytes = 16 * 1024 * 1024

-- `RoutedRequest`
pub record RoutedRequest : Type 0 where
  pub model : String
  pub fields : Map

unfoldable pub into_value : RoutedRequest → Map
into_value r = insert r.fields "model" (string r.model)

-- The coders of other crates: zstd, whose decoder reads at most so many bytes, and `serde_json` on
-- bytes, which refuses a body without one `model` that is a string.
pub record Codec : Type 0 where
  pub zstd_decode : ℕ → List ℕ → Option (List ℕ)
  pub zstd_encode : List ℕ → Option (List ℕ)
  pub from_slice : List ℕ → Option RoutedRequest
  pub to_vec : Value → Option (List ℕ)

-- A `Content-Encoding` header: absent, or its text, which is none if it is not ASCII.
abbrev pub Encoding : Type 0
Encoding = Option (Option String)

abbrev pub limited : List ℕ → Option (List ℕ)
limited decoded = if leb (length decoded) max_responses_body_bytes then some decoded else none

abbrev pub is_text : Option String → String → Bool
is_text none s = false
is_text (some t) s = t == s

-- The test and the change of the model; the request is an object.
unfoldable pub override_model : Option String → Map → Bool × Map
override_model none m = (false, m)
override_model (some model) m =
    (not (is_text (get_str m "model") model), insert m "model" (string model))

abbrev pub sanitized : NativeApiPath → Map → Bool × Value
unfolding sanitize
sanitized path m = if is_responses path then sanitize (object m) else (false, object m)

module _ (codec : Codec) where
  abbrev pub decode_as : String → List ℕ → Option (List ℕ)
  decode_as encoding raw =
      if encoding == "identity"
      then some raw
      else if encoding == "zstd"
      then codec.zstd_decode (max_responses_body_bytes + 1) raw and_then limited
      else none

  unfoldable pub decode_request_copy : Encoding → List ℕ → Option (List ℕ)
  unfolding trim
  decode_request_copy none raw = some raw
  decode_request_copy (some none) raw = none
  decode_request_copy (some (some encoding)) raw = decode_as (trim encoding) raw

  abbrev pub encode_as : String → List ℕ → Option (List ℕ)
  encode_as encoding serialized =
      if encoding == "identity"
      then some serialized
      else if encoding == "zstd"
      then codec.zstd_encode serialized
      else none

  unfoldable pub encoded : Encoding → List ℕ → Option (List ℕ)
  unfolding trim
  encoded none serialized = some serialized
  encoded (some none) serialized = none
  encoded (some (some encoding)) serialized = encode_as (trim encoding) serialized

  -- The two early returns, and the coding of what is written.
  abbrev pub body_for : Bool → Bool → Bool → Encoding → List ℕ → Value → Option (List ℕ)
  body_for on_responses model_changed changed encoding raw value =
      if not on_responses && not model_changed
      then some raw
      else if not changed && not model_changed
      then some raw
      else codec.to_vec value and_then encoded encoding

  unfoldable pub native_request_body :
      NativeApiPath → Encoding → List ℕ → Map → Option String → Option (List ℕ)
  unfolding override_model sanitized encoded
  native_request_body path encoding raw request model_override =
      let (model_changed, m) = override_model model_override request in
      let (changed, value) = sanitized path m in
      body_for (is_responses path) model_changed changed encoding raw value
