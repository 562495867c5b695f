-- ===== src/Protocol/Routing/Laws.antt =====
-- The conversation identifier of src/protocol.rs: it stays as the history grows, and it has the form of
-- a UUID.
use grok_codex_bridge.Protocol.Routing.Bounds.{version_byte_bounds, variant_byte_bounds}
use grok_codex_bridge.Base.{
  ℕ, zero, suc, ◌≤◌, ◌<◌, ◌≡◌, ◌≢◌, refl, ◌∙◌, ap, ok, Option, none, some, List, [], ◌∷◌, ◌++◌,
  String, arith, All, get_elem?, length, take,
}
use grok_codex_bridge.Base.Text.{bytes}
use grok_codex_bridge.Json.{array, of_list, Value}
use grok_codex_bridge.Protocol.Items.{InputItem}
use grok_codex_bridge.Protocol.Request.{NormalizedResponsesRequest}
use grok_codex_bridge.Protocol.Routing.{
  first_value, anchor_of, derived_conversation_id, uuid_of_digest, version_byte, variant_byte,
  modify_at, instructions_value, instructions_of, first_of, id_of_anchor, GrokRoutingMetadata,
  grok_routing_metadata,
}

first_value-append :
    (to_string : Value → String) (items more : List InputItem) (v : Value)
    → first_value to_string items ≡ some v
    → first_value to_string (items ++ more) ≡ some v
unfolding first_value
first_value-append to_string [] more v h = ground arith
first_value-append to_string (item ∷ items) more v h =
    ground (arith, first_value-append to_string items more v)

-- With an item that is sent, no fresh identifier is used.
id_of_anchor-fresh :
    (to_string : Value → String) (sha256 : List ℕ → List ℕ) (fresh fresh' : List ℕ)
    (instructions : Option String) (first : Option Value) (v : Value)
    → first ≡ some v
    → id_of_anchor to_string sha256 fresh' (instructions_of instructions ++ first_of first)
      ≡ id_of_anchor to_string sha256 fresh (instructions_of instructions ++ first_of first)
id_of_anchor-fresh to_string sha256 fresh fresh' none first v h = rw h refl
id_of_anchor-fresh to_string sha256 fresh fresh' (some text) first v h = refl

-- A request whose history goes on after some item that is sent keeps the conversation identifier.
pub conversation_stable :
    (to_string : Value → String) (sha256 : List ℕ → List ℕ) (fresh fresh' : List ℕ)
    (r r' : NormalizedResponsesRequest) (more : List InputItem) (v : Value)
    → first_value to_string r.items ≡ some v
    → r'.instructions ≡ r.instructions
    → r'.items ≡ r.items ++ more
    → derived_conversation_id to_string sha256 fresh' r'
      ≡ derived_conversation_id to_string sha256 fresh r
unfolding derived_conversation_id
conversation_stable to_string sha256 fresh fresh' r r' more v sent same grown =
    let longer : first_value to_string r'.items ≡ some v =
      rw grown (first_value-append to_string r.items more v sent) in
    let anchors : anchor_of to_string r' ≡ anchor_of to_string r = rw (longer, sent, same) refl in
    ap (id_of_anchor to_string sha256 fresh') anchors
    ∙ id_of_anchor-fresh to_string sha256 fresh fresh' r.instructions
        (first_value to_string r.items) v sent

-- What SHA-256 gives: 32 bytes.
abbrev pub IsDigest : (List ℕ → List ℕ) → Type 0
IsDigest sha256 = (bs : List ℕ) → (length (sha256 bs) ≡ 32) × All (λ b. b < 256) (sha256 bs)

get_of_All :
    (bs : List ℕ) (i : ℕ)
    → All (λ b. b < 256) bs
    → i < length bs
    → (b : ℕ) × (get_elem? bs i ≡ some b) × (b < 256)
get_of_All [] i h l = ground arith
get_of_All (b ∷ bs) zero h l = (b, refl, h.0)
get_of_All (b ∷ bs) (suc i) h l = get_of_All bs i h.1 (omega arith)

get_elem?-take : (n i : ℕ) (bs : List ℕ) → i < n → get_elem? (take n bs) i ≡ get_elem? bs i
get_elem?-take zero i bs h = ground arith
get_elem?-take (suc n) i [] h = refl
get_elem?-take (suc n) zero (b ∷ bs) h = refl
get_elem?-take (suc n) (suc i) (b ∷ bs) h = get_elem?-take n i bs (omega arith)

length-take : (n : ℕ) (bs : List ℕ) → n ≤ length bs → length (take n bs) ≡ n
length-take zero bs h = omega arith
length-take (suc n) [] h = ground arith
length-take (suc n) (b ∷ bs) h = omega (arith, length-take n bs (omega arith))

length-modify_at : (i : ℕ) (f : ℕ → ℕ) (bs : List ℕ) → length (modify_at i f bs) ≡ length bs
length-modify_at i f [] = refl
length-modify_at zero f (b ∷ bs) = refl
length-modify_at (suc i) f (b ∷ bs) = ap suc (length-modify_at i f bs)

get_elem?-modify_at_self :
    (i : ℕ) (f : ℕ → ℕ) (bs : List ℕ) (b : ℕ)
    → get_elem? bs i ≡ some b
    → get_elem? (modify_at i f bs) i ≡ some (f b)
get_elem?-modify_at_self i f [] b h = ground arith
get_elem?-modify_at_self zero f (x ∷ bs) b h = ground arith
get_elem?-modify_at_self (suc i) f (x ∷ bs) b h = get_elem?-modify_at_self i f bs b h

get_elem?-modify_at_other :
    (i j : ℕ) (f : ℕ → ℕ) (bs : List ℕ) → i ≢ j → get_elem? (modify_at i f bs) j ≡ get_elem? bs j
get_elem?-modify_at_other i j f [] h = refl
get_elem?-modify_at_other zero zero f (x ∷ bs) h = absurd (h refl)
get_elem?-modify_at_other zero (suc j) f (x ∷ bs) h = refl
get_elem?-modify_at_other (suc i) zero f (x ∷ bs) h = refl
get_elem?-modify_at_other (suc i) (suc j) f (x ∷ bs) h =
    get_elem?-modify_at_other i j f bs (λ e. h (ap suc e))

-- The form of a UUID of version 5: 16 bytes, the version in the seventh, the variant in the ninth.
abbrev pub IsUuid : List ℕ → Type 0
IsUuid id =
    (length id ≡ 16)
    × ((b : ℕ) × (get_elem? id 6 ≡ some b) × (0x50 ≤ b) × (b ≤ 0x5f))
    × ((b : ℕ) × (get_elem? id 8 ≡ some b) × (0x80 ≤ b) × (b ≤ 0xbf))

IsUuid-uuid_of_digest :
    (digest : List ℕ)
    → length digest ≡ 32
    → All (λ b. b < 256) digest
    → IsUuid (uuid_of_digest digest)
IsUuid-uuid_of_digest digest l h =
    let t : List ℕ = take 16 digest in
    let versioned : List ℕ = modify_at 6 version_byte t in
    let (b6, at6, small6) = get_of_All digest 6 h (omega arith) in
    let (b8, at8, small8) = get_of_All digest 8 h (omega arith) in
    let cut6 = get_elem?-take 16 6 digest (omega arith) ∙ at6 in
    let cut8 = get_elem?-take 16 8 digest (omega arith) ∙ at8 in
    let far = get_elem?-modify_at_other 8 6 variant_byte versioned (λ e. omega (arith, e)) in
    let near = get_elem?-modify_at_other 6 8 version_byte t (λ e. omega (arith, e)) in
    (
      length-modify_at 8 variant_byte versioned
          ∙ length-modify_at 6 version_byte t
          ∙ length-take 16 digest (omega arith),
      (
        version_byte b6,
        far ∙ get_elem?-modify_at_self 6 version_byte t b6 cut6,
        (version_byte_bounds b6 small6).0,
        (version_byte_bounds b6 small6).1,
      ),
      (
        variant_byte b8,
        get_elem?-modify_at_self 8 variant_byte versioned b8 (near ∙ cut8),
        (variant_byte_bounds b8 small8).0,
        (variant_byte_bounds b8 small8).1,
      ),
    )

IsUuid-id_of_anchor :
    (to_string : Value → String) (sha256 : List ℕ → List ℕ) (fresh : List ℕ)
    (instructions : Option String) (first : Option Value) (v : Value)
    → IsDigest sha256
    → first ≡ some v
    → IsUuid (id_of_anchor to_string sha256 fresh (instructions_of instructions ++ first_of first))
unfolding bytes
IsUuid-id_of_anchor to_string sha256 fresh none first v digests h =
    let text : List ℕ = bytes (to_string (array (of_list (v ∷ [])))) in
    rw h (IsUuid-uuid_of_digest (sha256 text) (digests text).0 (digests text).1)
IsUuid-id_of_anchor to_string sha256 fresh (some s) first v digests h =
    let text : List ℕ =
      bytes (to_string (array (of_list (instructions_value s ∷ first_of first)))) in
    IsUuid-uuid_of_digest (sha256 text) (digests text).0 (digests text).1

-- With SHA-256 for a digest, the conversation identifier of a request that has an item to send is a
-- UUID of version 5 with the variant bits of RFC 9562.
pub IsUuid-grok_routing_metadata :
    (to_string : Value → String) (sha256 : List ℕ → List ℕ) (fresh request_id agent_id : List ℕ)
    (r : NormalizedResponsesRequest) (v : Value)
    → IsDigest sha256
    → first_value to_string r.items ≡ some v
    → (routing : GrokRoutingMetadata) × (grok_routing_metadata to_string sha256 fresh request_id
          agent_id r
        ≡ ok routing)
      × IsUuid routing.conversation_id
      × (routing.turn_index ≡ 1)
unfolding grok_routing_metadata
IsUuid-grok_routing_metadata to_string sha256 fresh request_id agent_id r v digests sent = (
  (record {
    conversation_id = derived_conversation_id to_string sha256 fresh r;
    request_id = request_id;
    agent_id = agent_id;
    turn_index = 1;
  }),
  refl,
  IsUuid-id_of_anchor to_string sha256 fresh r.instructions (first_value to_string r.items) v
      digests sent,
  refl,
)
