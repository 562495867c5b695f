-- ===== src/Native/Transport.antt =====
-- The paths and the headers of src/native.rs. A header map is a list of its entries, the names in lower
-- case, as `HeaderName` keeps them.
use grok_codex_bridge.Base.{ℕ, Bool, true, false, ◌||◌, List, [], ◌∷◌, String, ◌==◌, if◌then◌else◌}

pub data NativeApiPath : Type 0 where
  responses compact images_generations images_edits alpha_search : NativeApiPath

unfoldable pub relative_path : NativeApiPath → String
relative_path responses = "responses"
relative_path compact = "responses/compact"
relative_path images_generations = "images/generations"
relative_path images_edits = "images/edits"
relative_path alpha_search = "alpha/search"

abbrev pub is_responses : NativeApiPath → Bool
is_responses responses = true
is_responses _ = false

abbrev pub is_compact : NativeApiPath → Bool
is_compact compact = true
is_compact _ = false

-- A name and the bytes of a value.
abbrev pub Headers : Type 0
Headers = List (String × List ℕ)

abbrev pub picker_caller_header : String
picker_caller_header = "x-grok-caller-capability"

abbrev pub is_hop_by_hop_response_header : String → Bool
is_hop_by_hop_response_header name = name == "connection" || name == "transfer-encoding"

abbrev pub is_hop_by_hop_request_header : String → Bool
is_hop_by_hop_request_header name =
    name == "host"
    || name == "content-length"
    || name == "connection"
    || name == "transfer-encoding"

abbrev pub is_withheld : String → Bool
is_withheld name = is_hop_by_hop_request_header name || name == picker_caller_header

-- The loop over the headers of `post_with_started` and of `post_stream`
unfoldable pub request_headers : Headers → Headers
request_headers [] = []
request_headers ((name, value) ∷ rest) =
    let kept = request_headers rest in if is_withheld name then kept else (name, value) ∷ kept

-- The loop over the headers of a response in src/server.rs
unfoldable pub response_headers : Headers → Headers
response_headers [] = []
response_headers ((name, value) ∷ rest) =
    let kept = response_headers rest in
    if is_hop_by_hop_response_header name then kept else (name, value) ∷ kept
