-- ===== src/Protocol/Input/Project.antt =====
-- `project_input_for_xai` of src/protocol.rs: the items in the order in which Grok takes them, with the
-- assistant's messages moved out of the span between a tool call and its output.
use grok_codex_bridge.Base.{
  if◌then◌else◌, length, take, drop, is_empty, get_or, ℕ, Bool, true, false, not, ◌&&◌, Option,
  none, some, List, [], ◌∷◌, ◌++◌, String,
}
use grok_codex_bridge.Json.{Value}
use grok_codex_bridge.Protocol.Content.{assistant}
use grok_codex_bridge.Protocol.Input.{contains, without}
use grok_codex_bridge.Protocol.Items.{
  InputItem, message, function_call, function_call_output, tool_search_call, tool_search_output,
  to_grok_value,
}
pub mod Kept

-- The identifier of a call, and of an output.
abbrev pub call_of : InputItem → Option String
call_of (function_call call) = some call.call_id
call_of (tool_search_call call) = some call.call_id
call_of _ = none

abbrev pub output_of : InputItem → Option String
output_of (function_call_output o) = some o.call_id
output_of (tool_search_output o) = some o.call_id
output_of _ = none

abbrev pub is_assistant_message : InputItem → Bool
is_assistant_message (message m) = elim m.role [ assistant ↦ true | _ ↦ false ]
is_assistant_message _ = false

-- `completed_call_ids`
abbrev pub completed_ids : List InputItem → List String
completed_ids [] = []
completed_ids (item ∷ items) = elim (output_of item) [
  | none ↦ completed_ids items
  | some id ↦ id ∷ completed_ids items
]

-- The loop's variables.
pub record Projection : Type 0 where
  pub open_call_ids : List String
  pub open_batch_start : Option ℕ
  pub deferred : List Value
  pub projected : List Value

-- `get_or_insert(projected.len())` and `insert`, for a call that has an output
abbrev open_call : List String → Projection → Option String → Projection
open_call done_ids s none = s
open_call done_ids s (some id) =
    if contains done_ids id
    then record s {
      open_batch_start = some (get_or (length s.projected) s.open_batch_start);
      open_call_ids = id ∷ s.open_call_ids;
    }
    else s

abbrev close_call : Projection → Option String → Projection
close_call s none = s
close_call s (some id) = record s { open_call_ids = without s.open_call_ids id }

-- Moving the deferred messages before the batch: `split_off` and two `append`s.
abbrev move_batch : Option ℕ → Projection → Projection
move_batch none s = s
move_batch (some start) s = if is_empty s.deferred then s else record s {
  projected = take start s.projected ++ (s.deferred ++ drop start s.projected);
  deferred = [];
}

-- `open_batch_start.take()` and the move, once no call is open
unfoldable pub end_batch : Projection → Projection
end_batch s =
    if is_empty s.open_call_ids
    then move_batch s.open_batch_start (record s { open_batch_start = none })
    else s

abbrev pub push_all : List Value → Option Value → List Value
push_all vs none = vs
push_all vs (some v) = vs ++ v ∷ []

abbrev defer : Projection → Option Value → Projection
defer s v = record s { deferred = push_all s.deferred v }

abbrev project : Projection → Option Value → Projection
project s v = record s { projected = push_all s.projected v }

abbrev pub initial : Projection
initial = record { open_call_ids = []; open_batch_start = none; deferred = []; projected = [] }

module _ (to_string : Value → String) where
  -- One round of the loop.
  unfoldable pub step : List String → Projection → InputItem → Projection
  unfolding end_batch
  step done_ids s item =
      let value = to_grok_value to_string item in
      if is_assistant_message item && not (is_empty s.open_call_ids)
      then defer s value
      else end_batch
          (close_call (project (open_call done_ids s (call_of item)) value) (output_of item))

  unfoldable pub project_from : List String → Projection → List InputItem → Projection
  unfolding step
  project_from done_ids s [] = s
  project_from done_ids s (item ∷ items) = project_from done_ids (step done_ids s item) items

  unfoldable pub project_input_for_xai : List InputItem → List Value
  unfolding project_from
  project_input_for_xai items =
      let s = project_from (completed_ids items) initial items in
      (move_batch s.open_batch_start s).projected
