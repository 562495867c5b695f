-- ===== src/Protocol/Sanitize.antt =====
-- `sanitize_unreplayable_history_for_native` of src/protocol.rs. It changes the request in place and
-- tells whether it did; here it returns the answer and the request.
use grok_codex_bridge.Base.{
  nat_eq, if◌then◌else◌, length, any, is_some, Bool, true, false, not, ◌&&◌, ◌||◌, Option, none,
  some, List, [], ◌∷◌, ◌==◌, String,
}
use grok_codex_bridge.Json.{
  Value, null, string, array, object, Map, to_list, of_list, get, modify, remove, as_bool,
  ◌and_then◌, get_str,
}
use grok_codex_bridge.Protocol.Restore.{is_type}
use grok_codex_bridge.Protocol.Restore.Reasoning.{envelope_prefix, has_prefix}
pub mod Items
pub mod Laws

abbrev item_type : Value → Option String
item_type (object m) = get_str m "type"
item_type v = none

abbrev is_type_of : Value → String → Bool
is_type_of v kind = elim (item_type v) [ none ↦ false | some s ↦ s == kind ]

abbrev pub has_grok_ciphertext : Option Value → Bool
has_grok_ciphertext (some null) = true
has_grok_ciphertext (some (string value)) = has_prefix envelope_prefix value
has_grok_ciphertext _ = false

-- the closure of `contains_grok_reasoning`
unfoldable pub is_grok_reasoning : Value → Bool
is_grok_reasoning (object m) =
    if is_type m "reasoning" then has_grok_ciphertext (get m "encrypted_content") else false
is_grok_reasoning v = false

-- what `retain` drops
unfoldable pub is_provider_owned : Value → Bool
is_provider_owned v = is_type_of v "reasoning" || is_type_of v "web_search_call"

-- `input.retain`
unfoldable pub retain : (Value → Bool) → List Value → List Value
retain keep [] = []
retain keep (v ∷ vs) = let rest = retain keep vs in if keep v then v ∷ rest else rest

abbrev lacks_native_prefix : Option String → Bool
lacks_native_prefix none = false
lacks_native_prefix (some id) = not (has_prefix "tsc_" id)

-- the two conditions under which an item loses its `id`
unfoldable pub loses_id : Bool → Map → Bool
loses_id mixed m =
    (mixed
      && (is_type m "message" || is_type m "function_call" || is_type m "function_call_output"))
    || (is_type m "tool_search_call" && lacks_native_prefix (get_str m "id"))

-- One round of the loop: `remove("id")` and whether something was removed.
unfoldable pub strip_id : Bool → Value → Bool × Value
strip_id mixed (object m) =
    if loses_id mixed m && is_some (get m "id")
    then (true, object (remove m "id"))
    else (false, object m)
strip_id mixed v = (false, v)

unfoldable pub strip_ids : Bool → List Value → Bool × List Value
unfolding strip_id
strip_ids mixed [] = (false, [])
strip_ids mixed (v ∷ vs) =
    let (changed, v') = strip_id mixed v in
    let (later, vs') = strip_ids mixed vs in (changed || later, v' ∷ vs')

-- The items of the input, once the guards are passed.
unfoldable pub sanitize_items : List Value → Bool × List Value
unfolding strip_ids
sanitize_items input =
    let mixed = any is_grok_reasoning input in
    let kept = if mixed then retain (λ v. not (is_provider_owned v)) input else input in
    let dropped = not (nat_eq (length kept) (length input)) in
    let (stripped, items) = strip_ids mixed kept in (dropped || stripped, items)

abbrev pub is_unstored : Map → Bool
is_unstored m = elim (get m "store" and_then as_bool) [ none ↦ false | some b ↦ not b ]

abbrev pub sanitize_input : Value → Bool × Value
sanitize_input (array vs) =
    let (changed, items) = sanitize_items (to_list vs) in (changed, array (of_list items))
sanitize_input v = (false, v)

unfoldable pub sanitize : Value → Bool × Value
unfolding sanitize_items
sanitize (object m) =
    if is_unstored m
    then elim (get m "input") [
      | some input ↦
          ((sanitize_input input).0, object (modify m "input" (λ v. (sanitize_input v).1)))
      | none ↦ (false, object m)
    ]
    else (false, object m)
sanitize v = (false, v)
