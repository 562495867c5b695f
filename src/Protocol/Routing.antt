-- ===== src/Protocol/Routing.antt =====
-- The routing identifiers of src/protocol.rs: `grok_routing_metadata`. A UUID is its 16 bytes; SHA-256
-- and the fresh UUIDs are arguments.
use grok_codex_bridge.Base.{
  ℕ, zero, suc, Option, none, some, List, [], ◌∷◌, ◌++◌, String, ok, take, is_empty, if◌then◌else◌,
}
use grok_codex_bridge.Base.Text.{bytes}
use grok_codex_bridge.Json.{Value, string, array, object, nil, cons, end, insert, of_list}
use grok_codex_bridge.Protocol.Error.{Res}
use grok_codex_bridge.Protocol.Items.{InputItem, to_grok_value}
use grok_codex_bridge.Protocol.Request.{NormalizedResponsesRequest}
use Prim.Native.Nat.{bit_and, bit_or}
pub mod Bounds
pub mod Laws

pub record GrokRoutingMetadata : Type 0 where
  pub conversation_id : List ℕ
  pub request_id : List ℕ
  pub agent_id : List ℕ
  pub turn_index : ℕ

-- `json!` of the developer message, its keys in the order of a `BTreeMap`
abbrev pub instructions_value : String → Value
instructions_value instructions = object (
    insert (insert (insert end "type" (string "message")) "role" (string "developer")) "content" (
      array (
        cons
          (object (insert (insert end "type" (string "input_text")) "text" (string instructions)))
          nil)))

-- `bytes[i] = f(bytes[i])`
abbrev pub modify_at : ℕ → (ℕ → ℕ) → List ℕ → List ℕ
modify_at i f [] = []
modify_at zero f (b ∷ bs) = f b ∷ bs
modify_at (suc i) f (b ∷ bs) = b ∷ modify_at i f bs

abbrev pub version_byte : ℕ → ℕ
version_byte b = bit_or (bit_and b 0x0f) 0x50

abbrev pub variant_byte : ℕ → ℕ
variant_byte b = bit_or (bit_and b 0x3f) 0x80

abbrev pub uuid_of_digest : List ℕ → List ℕ
uuid_of_digest digest = modify_at 8 variant_byte (modify_at 6 version_byte (take 16 digest))

abbrev pub instructions_of : Option String → List Value
instructions_of none = []
instructions_of (some instructions) = instructions_value instructions ∷ []

abbrev pub first_of : Option Value → List Value
first_of none = []
first_of (some v) = v ∷ []

-- `find_map(InputItem::to_grok_value)`
unfoldable pub first_value : (Value → String) → List InputItem → Option Value
first_value to_string [] = none
first_value to_string (item ∷ items) = elim (to_grok_value to_string item) [
  | some v ↦ some v
  | none ↦ first_value to_string items
]

abbrev pub anchor_of : (Value → String) → NormalizedResponsesRequest → List Value
unfolding first_value
anchor_of to_string r = instructions_of r.instructions ++ first_of (first_value to_string r.items)

module _ (to_string : Value → String) (sha256 : List ℕ → List ℕ) where
  abbrev pub id_of_anchor : List ℕ → List Value → List ℕ
  id_of_anchor fresh [] = fresh
  id_of_anchor fresh (v ∷ anchor) =
      uuid_of_digest (sha256 (bytes (to_string (array (of_list (v ∷ anchor))))))

  -- `fresh` is what `Uuid::new_v4` would give.
  unfoldable pub derived_conversation_id : List ℕ → NormalizedResponsesRequest → List ℕ
  unfolding first_value anchor_of bytes
  derived_conversation_id fresh r = id_of_anchor fresh (anchor_of to_string r)

  unfoldable pub grok_routing_metadata :
      List ℕ → List ℕ → List ℕ → NormalizedResponsesRequest → Res GrokRoutingMetadata
  unfolding derived_conversation_id
  grok_routing_metadata fresh request_id agent_id r = ok (record {
    conversation_id = derived_conversation_id fresh r;
    request_id = request_id;
    agent_id = agent_id;
    turn_index = 1;
  })
