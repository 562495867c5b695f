-- ===== src/Protocol/Content.antt =====
-- Messages and their content in src/protocol.rs.
use grok_codex_bridge.Base.{
  ◌>>◌, if◌then◌else◌, all, ok, err, ◌>>=◌, guard, map_ok, collect, Bool, true, false, ◌&&◌, ◌||◌,
  Option, none, some, List, [], ◌∷◌, map, ◌==◌, String,
}
use grok_codex_bridge.Base.Split.{join}
use grok_codex_bridge.Json.{Value, string, array, object, Map, end, of_list, get, insert}
use grok_codex_bridge.Protocol.Base64.Image.{ParseUrl, is_supported_image_url}
use grok_codex_bridge.Protocol.Error.{
  invalid_request_field, unsupported_content, invalid_image_url, Res,
}
use grok_codex_bridge.Protocol.Fields.{
  reject_unknown_keys, has_only_keys, required_string, required_array, optional_nonempty_string,
}

pub data MessageRole : Type 0 where
  user developer assistant : MessageRole

pub data ImageDetail : Type 0 where
  auto low high original : ImageDetail

pub record InputImage : Type 0 where
  pub image_url : String
  pub detail : Option ImageDetail

pub data InputContent : Type 0 where
  input_text : String → InputContent
  input_image : InputImage → InputContent

pub data MessageContent : Type 0 where
  input : InputContent → MessageContent
  output_text : String → MessageContent

pub record TextMessage : Type 0 where
  pub role : MessageRole
  pub content : List MessageContent

unfoldable pub parse_detail : String → Res ImageDetail
parse_detail value =
    if value == "auto"
    then ok auto
    else if value == "low"
    then ok low
    else if value == "high"
    then ok high
    else if value == "original"
    then ok original
    else err (invalid_request_field "detail")

-- `ImageDetail::as_str`
abbrev pub detail_text : ImageDetail → String
detail_text auto = "auto"
detail_text low = "low"
detail_text high = "high"
detail_text original = "original"

abbrev detail_or_absent : Option Value → Res (Option ImageDetail)
detail_or_absent none = ok none
detail_or_absent (some (string value)) = map_ok some (parse_detail value)
detail_or_absent (some _) = err (invalid_request_field "detail")

-- `serde_json::json!` of an object with two fields
abbrev pub two_fields : String → Value → String → Value → Value
two_fields k v j w = object (insert (insert end k v) j w)

module _ (parse_url : ParseUrl) where
  -- `InputImage::parse`
  unfoldable pub parse_image : Map → Res InputImage
  parse_image m = do
    guard (has_only_keys m ("type" ∷ "image_url" ∷ "detail" ∷ [])) unsupported_content
    image_url ← required_string m "image_url"
    guard (is_supported_image_url parse_url image_url) invalid_image_url
    detail ← detail_or_absent (get m "detail")
    ok (record { image_url = image_url; detail = detail })

  abbrev parse_input_object : Map → String → Res InputContent
  parse_input_object m type =
      if type == "input_text"
      then (do
        guard (has_only_keys m ("type" ∷ "text" ∷ [])) unsupported_content
        text ← required_string m "text"
        ok (input_text text))
      else if type == "input_image"
      then map_ok input_image (parse_image m)
      else err unsupported_content

  -- `InputContent::parse`
  unfoldable pub parse_input_content : Value → Res InputContent
  unfolding parse_image
  parse_input_content (object m) = do type ← required_string m "type"; parse_input_object m type
  parse_input_content v = err (invalid_request_field "content")

  abbrev parse_message_object : Map → String → Res MessageContent
  parse_message_object m type =
      if type == "input_text" || type == "input_image"
      then map_ok input (parse_input_content (object m))
      else if type == "output_text"
      then (do
        reject_unknown_keys m ("type" ∷ "text" ∷ [])
        text ← required_string m "text"
        ok (output_text text))
      else err unsupported_content

  -- `MessageContent::parse`
  unfoldable pub parse_message_content : Value → Res MessageContent
  unfolding parse_input_content
  parse_message_content (object m) = do type ← required_string m "type"; parse_message_object m type
  parse_message_content v = err (invalid_request_field "content")

abbrev parse_role : String → Res MessageRole
parse_role role =
    if role == "user"
    then ok user
    else if role == "developer"
    then ok developer
    else if role == "assistant"
    then ok assistant
    else err (invalid_request_field "role")

abbrev is_assistant : MessageRole → Bool
is_assistant assistant = true
is_assistant _ = false

abbrev check_phase : MessageRole → Option Value → Res (Unit {0})
check_phase role none = ok tt
check_phase role (some (string phase)) =
    guard (is_assistant role && (phase == "commentary" || phase == "final_answer"))
      (invalid_request_field "phase")
check_phase role (some _) = err (invalid_request_field "phase")

-- `valid_role_content`, for one part
abbrev pub fits_role : MessageRole → MessageContent → Bool
fits_role assistant (output_text text) = true
fits_role assistant (input content) = false
fits_role _ (input content) = true
fits_role _ (output_text text) = false

-- `TextMessage::parse`
unfoldable pub parse_message : ParseUrl → Map → Res TextMessage
parse_message parse_url m = do
  optional_nonempty_string m "id"
  role_text ← required_string m "role"
  role ← parse_role role_text
  check_phase role (get m "phase")
  values ← required_array m "content"
  content ← collect (parse_message_content parse_url) values
  guard (all (fits_role role) content) (invalid_request_field "content")
  ok (record { role = role; content = content })

abbrev insert_detail : Map → Option ImageDetail → Map
insert_detail m none = m
insert_detail m (some detail) = insert m "detail" (string (detail_text detail))

-- `InputContent::to_value`
unfoldable pub input_content_value : InputContent → Value
input_content_value (input_text text) = two_fields "type" (string "input_text") "text" (string text)
input_content_value (input_image image) = object (
    insert_detail
      (insert (insert end "type" (string "input_image")) "image_url" (string image.image_url))
      image.detail)

-- `MessageContent::to_value`
unfoldable pub message_content_value : MessageContent → Value
unfolding input_content_value
message_content_value (input content) = input_content_value content
message_content_value (output_text text) =
    two_fields "type" (string "output_text") "text" (string text)

abbrev pub role_text : MessageRole → String
role_text user = "user"
role_text developer = "developer"
role_text assistant = "assistant"

abbrev output_texts : List MessageContent → List String
output_texts [] = []
output_texts (output_text text ∷ rest) = text ∷ output_texts rest
output_texts (input content ∷ rest) = output_texts rest

abbrev content_value : MessageRole → List MessageContent → Value
content_value assistant content = string (join "\n" (output_texts content))
content_value _ content = array (of_list (map message_content_value content))

-- `TextMessage::to_value`
unfoldable pub message_value : TextMessage → Value
unfolding message_content_value
message_value message = object (
    insert (insert (insert end "type" (string "message")) "role" (string (role_text message.role)))
      "content" (content_value message.role message.content))
