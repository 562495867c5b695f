-- ===== src/Protocol/Restore/Reasoning/Laws.antt =====
-- The envelope's round trip.
use grok_codex_bridge.Json.Laws.{modify_idem, get-modify, IsIdempotent, to_list-of_list}
use grok_codex_bridge.Base.{
  Bool-cases, Option-cases, refl, ap, inl, inr, List, [], ◌∷◌, map, arith, eq_iff, ok, ◌≤◌, ◌≡◌,
  ◌≢◌, none, String,
}
use grok_codex_bridge.Base.Text.Laws.{strip_prefix-append}
use grok_codex_bridge.Json.{null, array, object, Map, to_list, modify, Value, string}
use grok_codex_bridge.Protocol.Restore.{is_type, map_array, update_object, update_output}
use grok_codex_bridge.Protocol.Restore.Reasoning.{
  mark_reasoning_ciphertext, mark_text, envelope_prefix, marked, mark_provider_bound_reasoning,
  grok, max_encrypted_reasoning_bytes, parse_encrypted,
}
use text.Mathlib.TextLemmas.{cons-append, cons-ne-nil}
use grok_codex_bridge.Base.Text.{byte_len, strip_prefix}
use Prim.Native.String

prefixed-ne-empty : (value : String) → String.◌++◌ envelope_prefix value ≢ ""
prefixed-ne-empty value p = cons-ne-nil _ _ (rw cons-append at p)

-- A ciphertext that is not empty and has no envelope, when it is marked and then parsed, within the size
-- limit, comes back as Grok's own.
pub parse_encrypted-marked :
    (value : String)
    → value ≢ ""
    → strip_prefix envelope_prefix value ≡ none
    → byte_len (String.◌++◌ envelope_prefix value) ≤ max_encrypted_reasoning_bytes
    → parse_encrypted (string (marked value)) ≡ ok (grok value)
unfolding parse_encrypted
parse_encrypted-marked value full plain small =
    let e : marked value ≡ String.◌++◌ envelope_prefix value = ground arith in
    rw e (
      ground (
        arith,
        eq_iff (String.◌++◌ envelope_prefix value) "",
        eq_iff value "",
        prefixed-ne-empty value,
        strip_prefix-append envelope_prefix value,
      ))

marked-marked : (value : String) → marked (marked value) ≡ marked value
marked-marked value = elim (Option-cases (strip_prefix envelope_prefix value)) [
  | inl e ↦
      let e' : marked value ≡ String.◌++◌ envelope_prefix value = ground arith in
      rw e' (ground (arith, strip_prefix-append envelope_prefix value))
  | inr (rest, e) ↦ ground arith
]

mark_text_idem : IsIdempotent mark_text
mark_text_idem (string value) = ap string (marked-marked value)
mark_text_idem null = refl
mark_text_idem _ = refl

is_type-modify :
    (m : Map) (k kind : String) (f : Value → Value)
    → k ≢ "type"
    → is_type (modify m k f) kind ≡ is_type m kind
is_type-modify m k kind f h = ground (arith, get-modify m k f "type", eq_iff k "type")

mark_reasoning_ciphertext_idem :
    (m : Map)
    → mark_reasoning_ciphertext (mark_reasoning_ciphertext m) ≡ mark_reasoning_ciphertext m
unfolding mark_reasoning_ciphertext
mark_reasoning_ciphertext_idem m = elim (Bool-cases (is_type m "reasoning")) [
  | inl e ↦
      simp
        (
          e,
          is_type-modify m "encrypted_content" "reasoning" mark_text
              (λ p. ground (arith, eq_iff "encrypted_content" "type")),
        )
        (modify_idem m "encrypted_content" mark_text mark_text_idem)
  | inr e ↦ simp e
]

update_object_idem : (f : Map → Map) → ((m : Map) → f (f m) ≡ f m) → IsIdempotent (update_object f)
update_object_idem f h (object m) = ap object (h m)
update_object_idem f h null = refl
update_object_idem f h _ = refl

map_idem : (f : Value → Value) → IsIdempotent f → (vs : List Value) → map f (map f vs) ≡ map f vs
map_idem f h [] = refl
map_idem f h (v ∷ vs) = ground (arith, h v, map_idem f h vs)

map_array_idem : (f : Value → Value) → IsIdempotent f → IsIdempotent (map_array f)
map_array_idem f h (array vs) = simp to_list-of_list (rw (map_idem f h (to_list vs)))
map_array_idem f h null = refl
map_array_idem f h _ = refl

update_output_idem :
    (m : Map) (f : Value → Value)
    → IsIdempotent f
    → update_output (update_output m f) f ≡ update_output m f
update_output_idem m f h =
    modify_idem m "response" _
      (update_object_idem _ λ r. modify_idem r "output" (map_array f) (map_array_idem f h))

mark_item_idem : IsIdempotent (update_object mark_reasoning_ciphertext)
mark_item_idem = update_object_idem _ mark_reasoning_ciphertext_idem

-- Marking an event a second time changes nothing.
pub mark_provider_bound_reasoning_idem :
    (event : Value)
    → mark_provider_bound_reasoning (mark_provider_bound_reasoning event)
      ≡ mark_provider_bound_reasoning event
unfolding mark_provider_bound_reasoning
mark_provider_bound_reasoning_idem (object m) = ground (
  arith,
  get-modify m "item" (update_object mark_reasoning_ciphertext) "type",
  get-modify m "response"
      (update_object (λ r. modify r "output" (map_array (update_object mark_reasoning_ciphertext))))
      "type",
  eq_iff "item" "type",
  eq_iff "response" "type",
  modify_idem m "item" (update_object mark_reasoning_ciphertext) mark_item_idem,
  update_output_idem m (update_object mark_reasoning_ciphertext) mark_item_idem,
)
mark_provider_bound_reasoning_idem null = refl
mark_provider_bound_reasoning_idem _ = refl
