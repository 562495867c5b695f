-- ===== src/Protocol/Error.antt =====
-- `ProtocolError` of src/protocol.rs.
use grok_codex_bridge.Base.{String, Result}

pub data ProtocolError : Type 0 where
  request_not_object : ProtocolError
  missing_request_field invalid_request_field : String → ProtocolError
  unsupported_input_item unsupported_content invalid_image_url unsupported_tools : ProtocolError
  duplicate_tool_name too_many_tools unsupported_tool_choice unknown_tool_choice : ProtocolError
  invalid_function_arguments unmatched_function_output invalid_sse_payload : ProtocolError

abbrev pub Res : Type 0 → Type 0
Res A = Result ProtocolError A
