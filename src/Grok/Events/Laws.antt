-- ===== src/Grok/Events/Laws.antt =====
-- What the whole stream of src/grok.rs gives.
use grok_codex_bridge.Base.{
  ap, ◌∙◌, Bool-cases, Result-cases, ◌<◌, Option-cases, length, is_empty, Result, ok, err, ℕ, zero,
  suc, ◌≡◌, refl, inl, inr, Bool, true, false, List, [], ◌∷◌, arith, String,
}
use grok_codex_bridge.Grok.Events.{
  after_poll, after_data, restored, stream_of, EventStream, Event, poll_from, poll_next, drain,
}
use grok_codex_bridge.Protocol.Error.{Res, ProtocolError}
use grok_codex_bridge.Grok.{protocol_error, GrokError}
use grok_codex_bridge.Protocol.Stream.{
  streaming, completed, failed, incomplete, new, synthetic_completed_on_eof, TextStreamState,
  awaiting_created, ValidatedTextStreamEvent, TextStreamValidator, is_terminal, state_of,
  accept_data,
}
use grok_codex_bridge.Base.Text.{is_blank}
use grok_codex_bridge.Protocol.Stream.Laws.{accept_value-state}
use grok_codex_bridge.Protocol.Namespace.{NamespaceToolProjection}
use grok_codex_bridge.Protocol.Restore.{JsonText}

-- How a stream may end, from the state before its first item: with an error as its last item, after a
-- terminal event, or without any event.
abbrev pub closes : TextStreamState → List Event → Bool
closes awaiting_created [] = true
closes st [] = is_terminal st
closes st (err e ∷ rest) = is_empty rest
closes st (ok event ∷ rest) = closes (state_of event.kind) rest

module _ (json : JsonText) (uuid : String) (p : NamespaceToolProjection) where
  drain_finished : (n : ℕ) (s : EventStream) → s.finished ≡ true → drain json uuid p n s ≡ []
  unfolding drain poll_next
  drain_finished zero s h = refl
  drain_finished (suc n) s h = rw h refl

  accept_data-state :
      (v : TextStreamValidator) (payload : String) (event : ValidatedTextStreamEvent)
      → (accept_data json.from_str v payload).0 ≡ ok event
      → (accept_data json.from_str v payload).1.state ≡ state_of event.kind
  unfolding accept_data
  accept_data-state v payload event h = elim (Option-cases (json.from_str payload)) [
    | inl e ↦ ground arith
    | inr (value, e) ↦ ground (arith, accept_value-state v value event)
  ]

  closes-error :
      (n : ℕ) (v : TextStreamValidator) (e : GrokError) (rest : List (Result GrokError String))
      → closes v.state (drain json uuid p (suc n) (stream_of (err e ∷ rest) v false)) ≡ true
  unfolding drain poll_next poll_from
  closes-error n v e rest = rw (drain_finished n (stream_of rest v true) refl) refl

  closes-end :
      (n : ℕ) (v : TextStreamValidator) (st : TextStreamState)
      → closes st (drain json uuid p (suc n) (stream_of [] (record v { state = st }) false)) ≡ true
  unfolding drain poll_next poll_from synthetic_completed_on_eof
  closes-end n v streaming = rw (drain_finished n (stream_of [] _ true) refl) refl
  closes-end n v awaiting_created = refl
  closes-end n v completed = refl
  closes-end n v failed = refl
  closes-end n v incomplete = refl

  abbrev start : TextStreamValidator → List (Result GrokError String) → EventStream
  start v inner = stream_of inner v false

  module _ (n : ℕ) (v : TextStreamValidator) (payload : String)
      (rest : List (Result GrokError String)) where
    poll_blank :
        is_blank payload ≡ true
        → poll_from json uuid p v (ok payload ∷ rest) ≡ poll_from json uuid p v rest
    unfolding poll_from
    poll_blank h = rw h refl

    poll_full :
        (q : Res ValidatedTextStreamEvent × TextStreamValidator)
        → accept_data json.from_str v payload ≡ q
        → is_blank payload ≡ false
        → poll_from json uuid p v (ok payload ∷ rest) ≡ after_data json uuid p rest q
    unfolding poll_from
    poll_full q hq full = rw full (ap (after_data json uuid p rest) hq)

    drain_blank :
        is_blank payload ≡ true
        → drain json uuid p (suc n) (start v (ok payload ∷ rest))
          ≡ drain json uuid p (suc n) (start v rest)
    unfolding drain poll_next
    drain_blank h = ap (after_poll (drain json uuid p n)) (poll_blank h)

    drain_accepted :
        (q : Res ValidatedTextStreamEvent × TextStreamValidator) (event : ValidatedTextStreamEvent)
        → accept_data json.from_str v payload ≡ q
        → is_blank payload ≡ false
        → q.0 ≡ ok event
        → drain json uuid p (suc n) (start v (ok payload ∷ rest))
          ≡ ok (restored json uuid p event) ∷ drain json uuid p n (stream_of rest q.1 false)
    unfolding drain poll_next
    drain_accepted q event hq full h =
        ap (after_poll (drain json uuid p n))
          (poll_full q hq full ∙ ap (λ r. after_data json uuid p rest (r, q.1)) h)

    drain_refused :
        (q : Res ValidatedTextStreamEvent × TextStreamValidator) (error : ProtocolError)
        → accept_data json.from_str v payload ≡ q
        → is_blank payload ≡ false
        → q.0 ≡ err error
        → drain json uuid p (suc n) (start v (ok payload ∷ rest)) ≡ err (protocol_error error) ∷ []
    unfolding drain poll_next
    drain_refused q error hq full h =
        ap (after_poll (drain json uuid p n))
          (poll_full q hq full ∙ ap (λ r. after_data json uuid p rest (r, q.1)) h)
        ∙ ap (λ later. err (protocol_error error) ∷ later)
            (drain_finished n (stream_of rest q.1 true) refl)

  closes-drain_from :
      (n : ℕ) (v : TextStreamValidator) (inner : List (Result GrokError String))
      → length inner < n
      → closes v.state (drain json uuid p n (stream_of inner v false)) ≡ true
  closes-drain_from zero v inner h = ground arith
  closes-drain_from (suc n) v [] h = closes-end n v v.state
  closes-drain_from (suc n) v (err e ∷ rest) h = closes-error n v e rest
  closes-drain_from (suc n) v (ok payload ∷ rest) h = elim (Bool-cases (is_blank payload)) [
    | inl blank ↦
        rw (drain_blank n v payload rest blank) (closes-drain_from (suc n) v rest (ground arith))
    | inr full ↦ elim (Result-cases (accept_data json.from_str v payload).0) [
      | inl (event, e) ↦
          let v' = (accept_data json.from_str v payload).1 in
          let later = closes-drain_from n v' rest (ground arith) in
          rw (drain_accepted n v payload rest _ event refl full e)
            (rw (accept_data-state v payload event e) at later)
      | inr (error, e) ↦ rw (drain_refused n v payload rest _ error refl full e) refl
    ]
  ]

  -- When so many polls are made that the stream is read to its end, it ends with an error as its last
  -- item, or after one of the three terminal events, or it has given no event at all.
  pub closes-drain :
      (inner : List (Result GrokError String)) (n : ℕ)
      → length inner < n
      → closes awaiting_created (drain json uuid p n (stream_of inner new false)) ≡ true
  unfolding new
  closes-drain inner n h = closes-drain_from n new inner h
