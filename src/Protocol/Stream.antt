-- ===== src/Protocol/Stream.antt =====
-- `TextStreamValidator` of src/protocol.rs. A method that changes the validator returns the new one.
use grok_codex_bridge.Base.{
  ◌++◌, ℕ, ◌+◌, ◌-◌, ◌%◌, ◌^◌, String, Bool, true, false, not, ◌||◌, Option, none, some, List, [],
  ◌∷◌, ◌==◌, any, get_or, Result, ok, err, ◌>>=◌, ◌>>◌, guard, or_else, if◌then◌else◌,
}
use grok_codex_bridge.Protocol.Event.{
  TextStreamEventKind, response_failed, response_incomplete, response_completed,
  validate_known_sse_event, string_at, kind_of,
}
pub mod Laws
use Prim.Native.String
use Prim.Native.Nat.{min}
use grok_codex_bridge.Json.{
  Value, Values, Map, Number, string, number, array, object, pos_int, nil, end, get, insert, as_str,
  as_object, get_str, get_u64, get_object, ◌and_then◌,
}
use grok_codex_bridge.Protocol.Error.{ProtocolError, invalid_sse_payload, Res}

pub data TextStreamState : Type 0 where
  awaiting_created streaming completed failed incomplete : TextStreamState

pub record ValidatedTextStreamEvent : Type 0 where
  pub sequence_number : ℕ
  pub kind : TextStreamEventKind
  pub original : Value

pub record TextStreamValidator : Type 0 where
  pub state : TextStreamState
  pub last_sequence : Option ℕ
  pub response_id : Option String

unfoldable pub new : TextStreamValidator
new = record { state = awaiting_created; last_sequence = none; response_id = none }

abbrev pub is_terminal : TextStreamState → Bool
is_terminal completed = true
is_terminal failed = true
is_terminal incomplete = true
is_terminal _ = false

abbrev pub state_of : TextStreamEventKind → TextStreamState
state_of (response_completed id) = completed
state_of (response_failed id) = failed
state_of (response_incomplete id) = incomplete
state_of _ = streaming

-- `u64` arithmetic of the release build: `n + 1` wraps, `saturating_add` stops at the maximum.
abbrev pub wrapping_next : Option ℕ → ℕ
wrapping_next none = 0
wrapping_next (some n) = (n + 1) % 2 ^ 64

abbrev pub saturating_next : Option ℕ → ℕ
saturating_next none = 0
saturating_next (some n) = min (n + 1) (2 ^ 64 - 1)

-- `get_or_insert_with`, for an identifier that is not empty
abbrev pub record_id : Option String → String → Option String
record_id (some known) id = some known
record_id none id = if id == "" then none else some id

-- The part of `accept_value_permissive` behind the two early returns.
unfoldable pub admit : TextStreamValidator → Map → ValidatedTextStreamEvent × TextStreamValidator
unfolding kind_of
admit v m =
    let type = string_at (some m) "type" in
    let sequence_number = get_or (wrapping_next v.last_sequence) (get_u64 m "sequence_number") in
    let kind = kind_of type m in
    (
      record { sequence_number = sequence_number; kind = kind; original = object m },
      record {
        state = state_of kind;
        last_sequence = some sequence_number;
        response_id = record_id v.response_id (string_at (get_object m "response") "id");
      },
    )

abbrev admit_if :
    TextStreamValidator → Map → Res (Unit {0}) → Res ValidatedTextStreamEvent × TextStreamValidator
admit_if v m (err e) = (err e, v)
admit_if v m (ok _) = let (event, v') = admit v m in (ok event, v')

unfoldable pub accept_value :
    TextStreamValidator → Value → Res ValidatedTextStreamEvent × TextStreamValidator
accept_value v (object m) = admit_if v m (validate_known_sse_event (string_at (some m) "type") m)
accept_value v _ = (err invalid_sse_payload, v)

-- `serde_json::from_str`, as an argument
unfoldable pub accept_data :
    (String → Option Value)
    → TextStreamValidator
    → String
    → Res ValidatedTextStreamEvent × TextStreamValidator
accept_data from_str v text = elim (from_str text) [
  | none ↦ (err invalid_sse_payload, v)
  | some value ↦ accept_value v value
]

abbrev pub nonempty : Option String → Option String
nonempty none = none
nonempty (some id) = if id == "" then none else some id

-- The JSON of a synthetic `response.completed`; the keys stand in the order of a `BTreeMap`.
abbrev pub completed_value : ℕ → String → Value
completed_value sequence_number id = object (
    insert
      (insert (insert end "type" (string "response.completed")) "sequence_number"
        (number (pos_int sequence_number)))
      "response"
      (object (
        insert (insert (insert end "id" (string id)) "status" (string "completed")) "output"
          (array nil))))

-- `uuid` is the text of the fresh `Uuid::new_v4()`, which is used if no identifier is recorded.
unfoldable pub synthetic_completed_on_eof :
    String → TextStreamValidator → Option ValidatedTextStreamEvent × TextStreamValidator
synthetic_completed_on_eof uuid v =
    let id = get_or (String.◌++◌ "resp_" uuid) (nonempty v.response_id) in
    let sequence_number = saturating_next v.last_sequence in
    let event : ValidatedTextStreamEvent = record {
      sequence_number = sequence_number;
      kind = response_completed id;
      original = completed_value sequence_number id;
    } in
    elim v.state [
      | streaming ↦ (
        some event,
        record { state = completed; last_sequence = some sequence_number; response_id = some id },
      )
      | _ ↦ (none, v)
    ]
