-- ===== src/Protocol/Input/Matched.antt =====
-- The outputs that `parse_input` of src/protocol.rs lets through.
use grok_codex_bridge.Protocol.Input.{
  parse_input, Verdict, skip, unmatched, is_unsupported_item, contains, Seen, keep, judge,
  parse_from,
}
use mathlib.Core.Path.{subst}
use grok_codex_bridge.Base.{
  refl, ◌⊎◌, Bool-cases, Result-cases, inl, inr, ok, String, ◌≡◌, true, false, none, some, [], ◌∷◌,
  arith, List,
}
use grok_codex_bridge.Protocol.Items.Parse.{parse_item}
use grok_codex_bridge.Json.{Value}
use grok_codex_bridge.Protocol.Base64.Image.{ParseUrl}
use grok_codex_bridge.Protocol.Input.Project.{call_of, output_of}
use grok_codex_bridge.Protocol.Items.{InputItem}
use grok_codex_bridge.Protocol.Namespace.{NamespaceToolProjection}
use grok_codex_bridge.Protocol.Restore.{JsonText}

-- In a list of items, each output has a call before it and no output of that call before it. The
-- lists are the identifiers of the calls and of the outputs that came earlier.
abbrev pub IsMatchedFrom : List String → List String → List InputItem → Type 0
IsMatchedFrom calls outputs [] = Unit
IsMatchedFrom calls outputs (item ∷ items) = elim (output_of item) [
  | none ↦ IsMatchedFrom (elim (call_of item) [ none ↦ calls | some c ↦ c ∷ calls ]) outputs items
  | some id ↦
      (contains calls id ≡ true)
      × (contains outputs id ≡ false)
      × IsMatchedFrom calls (id ∷ outputs) items
]

IsMatchedFrom-judge :
    (seen seen' : Seen) (item : InputItem) (items : List InputItem)
    → judge seen item ≡ keep seen'
    → IsMatchedFrom seen'.calls seen'.outputs items
    → IsMatchedFrom seen.calls seen.outputs (item ∷ items)
unfolding judge
IsMatchedFrom-judge seen seen' item items h m = ground arith

Verdict-cases : (v : Verdict) → ((seen : Seen) × (v ≡ keep seen)) ⊎ (v ≡ skip) ⊎ (v ≡ unmatched)
Verdict-cases (keep seen) = inl (seen, refl)
Verdict-cases skip = inr (inl refl)
Verdict-cases unmatched = inr (inr refl)

module _ (parse_url : ParseUrl) (json : JsonText) where
  IsMatchedFrom-parse_from :
      (seen : Seen) (p p' : NamespaceToolProjection) (vs : List Value) (items : List InputItem)
      → parse_from parse_url json seen p vs ≡ ok (items, p')
      → IsMatchedFrom seen.calls seen.outputs items
  unfolding parse_from
  IsMatchedFrom-parse_from seen p p' [] items h = ground arith
  IsMatchedFrom-parse_from seen p p' (v ∷ vs) items h =
      elim (Result-cases (parse_item parse_url json p v)) [
        | inr (e, he) ↦ elim (Bool-cases (is_unsupported_item e)) [
          | inl u ↦ IsMatchedFrom-parse_from seen p p' vs items (ground arith)
          | inr u ↦ ground arith
        ]
        | inl ((item, q), hi) ↦ elim (Verdict-cases (judge seen item)) [
          | inr (inl hv) ↦ IsMatchedFrom-parse_from seen q p' vs items (ground arith)
          | inr (inr hv) ↦ ground arith
          | inl (seen', hv) ↦ elim (Result-cases (parse_from parse_url json seen' q vs)) [
            | inr (e, he) ↦ ground arith
            | inl ((rest, q'), hr) ↦
                subst (IsMatchedFrom seen.calls seen.outputs) {x = item ∷ rest} {y = items}
                  (ground arith)
                  (IsMatchedFrom-judge seen seen' item rest hv
                    (IsMatchedFrom-parse_from seen' q q' vs rest hr))
          ]
        ]
      ]

  -- When the input is accepted, every output in it has a call before it with its identifier, and is
  -- the first output of that call.
  pub IsMatched-parse_input :
      (p p' : NamespaceToolProjection) (vs : List Value) (items : List InputItem)
      → parse_input parse_url json p vs ≡ ok (items, p')
      → IsMatchedFrom [] [] items
  unfolding parse_input
  IsMatched-parse_input p p' vs items h =
      IsMatchedFrom-parse_from (record { calls = []; outputs = [] }) p p' vs items h
