-- ===== src/Protocol/Base64/Image.antt =====
-- Image URLs of src/protocol.rs. `url::Url::parse` is an argument: the scheme of the text as a URL,
-- and whether it has a host, if it parses.
use grok_codex_bridge.Base.{
  nat_eq, if◌then◌else◌, all, ℕ, Bool, false, not, ◌&&◌, ◌||◌, Option, none, some, ◌==◌, String,
}
use grok_codex_bridge.Base.Split.{split_once, before_first}
use grok_codex_bridge.Base.Text.{bytes, strip_prefix, is_ascii_alphanumeric}
use grok_codex_bridge.Protocol.Base64.{is_valid_base64}

abbrev pub ParseUrl : Type 0
ParseUrl = String → Option (String × Bool)

abbrev is_mime_subtype_byte : ℕ → Bool
is_mime_subtype_byte b =
    is_ascii_alphanumeric b
    || nat_eq b b'!'
    || nat_eq b b'#'
    || nat_eq b b'$'
    || nat_eq b b'&'
    || nat_eq b b'^'
    || nat_eq b b'_'
    || nat_eq b b'.'
    || nat_eq b b'+'
    || nat_eq b b'-'

unfoldable pub is_valid_image_data_url : String → Bool
is_valid_image_data_url value = elim (split_once ";base64," value) [
  | none ↦ false
  | some (subtype, payload) ↦
      not (subtype == "") && all is_mime_subtype_byte (bytes subtype) && is_valid_base64 payload
]

abbrev is_authority_end : ℕ → Bool
is_authority_end c = nat_eq c b'/' || nat_eq c b'?' || nat_eq c b'#'

abbrev web_rest : String → Option String
web_rest value = elim (strip_prefix "https://" value) [
  | some rest ↦ some rest
  | none ↦ strip_prefix "http://" value
]

abbrev is_web_url : ParseUrl → String → Bool
is_web_url parse_url value = elim (parse_url value) [
  | some (scheme, has_host) ↦ (scheme == "http" || scheme == "https") && has_host
  | none ↦ false
]

unfoldable pub is_supported_image_url : ParseUrl → String → Bool
is_supported_image_url parse_url value = elim (strip_prefix "data:image/" value) [
  | some data_part ↦ is_valid_image_data_url data_part
  | none ↦ elim (web_rest value) [
    | none ↦ false
    | some rest ↦
        if before_first is_authority_end rest == "" then false else is_web_url parse_url value
  ]
]
