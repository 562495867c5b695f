-- ===== src/Protocol/Input.antt =====
-- The list of input items in src/protocol.rs: `parse_input` and `project_input_for_xai`.
use grok_codex_bridge.Base.{
  if◌then◌else◌, any, ok, err, ◌>>=◌, ◌>>◌, Bool, true, false, not, List, [], ◌∷◌, ◌==◌, String,
}
use grok_codex_bridge.Json.{Value}
use grok_codex_bridge.Protocol.Base64.Image.{ParseUrl}
use grok_codex_bridge.Protocol.Error.{
  ProtocolError, unsupported_input_item, unmatched_function_output, Res,
}
use grok_codex_bridge.Protocol.Items.{
  InputItem, function_call, function_call_output, tool_search_call, tool_search_output,
}
use grok_codex_bridge.Protocol.Items.Parse.{parse_item}
use grok_codex_bridge.Protocol.Namespace.{NamespaceToolProjection}
use grok_codex_bridge.Protocol.Restore.{JsonText}
pub mod Matched
pub mod Project

-- A `HashSet<String>` that is only grown, asked and shrunk: its members, the newest first.
abbrev pub contains : List String → String → Bool
contains set s = any (λ t. t == s) set

abbrev pub without : List String → String → List String
without [] s = []
without (t ∷ set) s = let rest = without set s in if t == s then rest else t ∷ rest

-- The identifiers of the calls and of the outputs so far. The set `reasoning_ids` of the source is
-- written and never read.
pub record Seen : Type 0 where
  pub calls : List String
  pub outputs : List String

-- What becomes of an item that was parsed: it is kept, or skipped as a second output of its call, or
-- it is an output without a call.
pub data Verdict : Type 0 where
  keep : Seen → Verdict
  skip unmatched : Verdict

abbrev admit_output : Seen → String → Verdict
admit_output seen call_id =
    if not (contains seen.calls call_id)
    then unmatched
    else if contains seen.outputs call_id
    then skip
    else keep (record seen { outputs = call_id ∷ seen.outputs })

unfoldable pub judge : Seen → InputItem → Verdict
judge seen (function_call call) = keep (record seen { calls = call.call_id ∷ seen.calls })
judge seen (tool_search_call call) = keep (record seen { calls = call.call_id ∷ seen.calls })
judge seen (function_call_output o) = admit_output seen o.call_id
judge seen (tool_search_output o) = admit_output seen o.call_id
judge seen _ = keep seen

-- the test on the error of an item that is skipped
abbrev is_unsupported_item : ProtocolError → Bool
is_unsupported_item unsupported_input_item = true
is_unsupported_item _ = false

module _ (parse_url : ParseUrl) (json : JsonText) where
  -- The loop of `parse_input` over the values that are left.
  unfoldable pub parse_from :
      Seen → NamespaceToolProjection → List Value → Res (List InputItem × NamespaceToolProjection)
  parse_from seen p [] = ok ([], p)
  parse_from seen p (v ∷ vs) = elim (parse_item parse_url json p v) [
    | err e ↦ if is_unsupported_item e then parse_from seen p vs else err e
    | ok (item, p') ↦ elim (judge seen item) [
      | unmatched ↦ err unmatched_function_output
      | skip ↦ parse_from seen p' vs
      | keep seen' ↦ do (items, p'') ← parse_from seen' p' vs; ok (item ∷ items, p'')
    ]
  ]

  unfoldable pub parse_input :
      NamespaceToolProjection → List Value → Res (List InputItem × NamespaceToolProjection)
  unfolding parse_from
  parse_input p vs = parse_from (record { calls = []; outputs = [] }) p vs
