-- ===== src/Protocol/Stream/Laws.antt =====
-- What holds of `TextStreamValidator` (src/protocol.rs) over one event and over a run of events.
use grok_codex_bridge.Base.{
  Bool-cases, ap, ◌⊎◌, inl, inr, get_or, ℕ, ◌≢◌, ◌==◌, eq_iff, is_some, none, String, ◌≡◌, refl,
  Bool, true, false, Option, some, arith, ok, err, ◌>>◌, or_else, if◌then◌else◌,
}
use grok_codex_bridge.Protocol.Event.{
  TextStreamEventKind, response_failed, response_incomplete, response_completed, required_nonempty,
  required_text, validate_known_sse_event, string_at,
}
use grok_codex_bridge.Json.{get, insert, Value, Map, object}
use grok_codex_bridge.Protocol.Stream.{
  saturating_next, nonempty, completed_value, ValidatedTextStreamEvent, is_terminal, state_of,
  admit, synthetic_completed_on_eof, TextStreamValidator, admit_if, accept_value,
}
use Prim.Native.String
use text.Mathlib.TextLemmas.{cons-append, cons-ne-nil}
use grok_codex_bridge.Protocol.Error.{ProtocolError, invalid_sse_payload, Res}

-- Every error of `r` is `invalid_sse_payload`.
abbrev IsPayloadError : Res (Unit {0}) → Type 0
IsPayloadError r = (e : ProtocolError) → r ≡ err e → e ≡ invalid_sse_payload

IsPayloadError-required_nonempty :
    (source : Option Map) (key : String) → IsPayloadError (required_nonempty source key)
IsPayloadError-required_nonempty source key e h = ground arith

IsPayloadError-required_text :
    (source : Option Map) (key : String) → IsPayloadError (required_text source key)
IsPayloadError-required_text source key e h = ground arith

IsPayloadError-ok : (u : Unit {0}) → IsPayloadError (ok u)
IsPayloadError-ok u e h = ground arith

IsPayloadError-or_else : (r k : Res (Unit {0})) → IsPayloadError k → IsPayloadError (or_else r k)
IsPayloadError-or_else (ok u) k hk e h = ground arith
IsPayloadError-or_else (err x) k hk e h = hk e h

IsPayloadError->> :
    (r k : Res (Unit {0})) → IsPayloadError r → IsPayloadError k → IsPayloadError (r >> k)
IsPayloadError->> (ok u) k hr hk e h = hk e h
IsPayloadError->> (err x) k hr hk e h = hr e h

IsPayloadError-if :
    (b : Bool) (r k : Res (Unit {0}))
    → IsPayloadError r
    → IsPayloadError k
    → IsPayloadError (if b then r else k)
IsPayloadError-if true r k hr hk = hr
IsPayloadError-if false r k hr hk = hk

ruleset payload_rules = (
  IsPayloadError-required_nonempty, IsPayloadError-required_text, IsPayloadError-ok,
  IsPayloadError-or_else, IsPayloadError->>, IsPayloadError-if,
)

validate-IsPayloadError :
    (type : String) (m : Map) → IsPayloadError (validate_known_sse_event type m)
unfolding validate_known_sse_event
validate-IsPayloadError type m = search payload_rules depth 20

accept_if_unchanged :
    (v : TextStreamValidator) (m : Map) (r : Res (Unit {0})) (e : ProtocolError)
    → IsPayloadError r
    → (admit_if v m r).0 ≡ err e
    → ((admit_if v m r).1 ≡ v) × (e ≡ invalid_sse_payload)
accept_if_unchanged v m (ok u) e p h = ground arith
accept_if_unchanged v m (err x) e p h = (refl, ground (arith, p x refl))

-- An event that is refused, whatever the reason, leaves the validator as it was, and the error is
-- `InvalidSsePayload`.
pub accept_value_refused :
    (v : TextStreamValidator) (value : Value) (e : ProtocolError)
    → (accept_value v value).0 ≡ err e
    → ((accept_value v value).1 ≡ v) × (e ≡ invalid_sse_payload)
unfolding accept_value
accept_value_refused v (object m) e h =
    accept_if_unchanged v m _ e (validate-IsPayloadError (string_at (some m) "type") m) h
accept_value_refused v _ e h = ground arith

accept_if-state :
    (v : TextStreamValidator) (m : Map) (r : Res (Unit {0})) (event : ValidatedTextStreamEvent)
    → (admit_if v m r).0 ≡ ok event
    → (admit_if v m r).1.state ≡ state_of event.kind
unfolding admit
accept_if-state v m (ok u) event h = ground arith
accept_if-state v m (err x) event h = ground arith

pub accept_value-state :
    (v : TextStreamValidator) (value : Value) (event : ValidatedTextStreamEvent)
    → (accept_value v value).0 ≡ ok event
    → (accept_value v value).1.state ≡ state_of event.kind
unfolding accept_value
accept_value-state v (object m) event h = accept_if-state v m _ event h
accept_value-state v _ event h = ground arith

-- The three kinds of event after which a response is over.
abbrev pub IsOver : TextStreamEventKind → Type 0
IsOver kind =
    ((id : String) × (kind ≡ response_completed id))
    ⊎ ((id : String) × (kind ≡ response_failed id))
    ⊎ ((id : String) × (kind ≡ response_incomplete id))

IsOver-completed : (kind : TextStreamEventKind) → IsOver kind → is_terminal (state_of kind) ≡ true
IsOver-completed kind (inl (id, e)) = ap (λ k. is_terminal (state_of k)) e
IsOver-completed kind (inr (inl (id, e))) = ap (λ k. is_terminal (state_of k)) e
IsOver-completed kind (inr (inr (id, e))) = ap (λ k. is_terminal (state_of k)) e

IsOver-terminal : (kind : TextStreamEventKind) → is_terminal (state_of kind) ≡ true → IsOver kind
IsOver-terminal (response_completed id) h = inl (id, refl)
IsOver-terminal (response_failed id) h = inr (inl (id, refl))
IsOver-terminal (response_incomplete id) h = inr (inr (id, refl))
IsOver-terminal _ h = ground arith

-- After an event that is accepted, whatever the validator's state was before it, the end of the stream
-- makes nothing if the event is response.completed, response.failed or response.incomplete, and
-- makes an event if it is of any other kind.
pub eof-accept_value :
    (uuid : String) (v : TextStreamValidator) (value : Value) (event : ValidatedTextStreamEvent)
    → (accept_value v value).0 ≡ ok event
    → (IsOver event.kind → (synthetic_completed_on_eof uuid (accept_value v value).1).0 ≡ none)
      × (¬ IsOver event.kind
          → is_some (synthetic_completed_on_eof uuid (accept_value v value).1).0 ≡ true)
unfolding synthetic_completed_on_eof
eof-accept_value uuid v value event h = (
  λ over. ground (arith, accept_value-state v value event h, IsOver-completed event.kind over),
  λ running. elim (Bool-cases (is_terminal (state_of event.kind))) [
    | inl e ↦ absurd (running (IsOver-terminal event.kind e))
    | inr e ↦ ground (arith, accept_value-state v value event h, e)
  ],
)

-- A second end of the stream makes nothing.
pub eof_once :
    (uuid uuid' : String) (v : TextStreamValidator)
    → (synthetic_completed_on_eof uuid' (synthetic_completed_on_eof uuid v).1).0 ≡ none
unfolding synthetic_completed_on_eof
eof_once uuid uuid' v = ground arith

resp-ne-empty : (uuid : String) → String.◌++◌ "resp_" uuid ≢ ""
resp-ne-empty uuid p = cons-ne-nil _ _ ((rw cons-append at p))

accept_value-completed_value :
    (w : TextStreamValidator) (n : ℕ) (id : String)
    → (id == "") ≡ false
    → (accept_value w (completed_value n id)).0
      ≡ ok (record {
        sequence_number = n;
        kind = response_completed id;
        original = completed_value n id;
      })
unfolding accept_value validate_known_sse_event admit get insert
accept_value-completed_value w n id h = rw h

chosen_id-nonempty :
    (uuid : String) (known : Option String)
    → (get_or (String.◌++◌ "resp_" uuid) (nonempty known) == "") ≡ false
chosen_id-nonempty uuid none =
    ground (arith, eq_iff (String.◌++◌ "resp_" uuid) "", resp-ne-empty uuid)
chosen_id-nonempty uuid (some id) =
    ground (arith, eq_iff (String.◌++◌ "resp_" uuid) "", resp-ne-empty uuid)

-- The synthetic event is one that any validator accepts, with the same number and kind.
pub accept_value-synthetic :
    (uuid : String) (v w : TextStreamValidator) (event : ValidatedTextStreamEvent)
    → (synthetic_completed_on_eof uuid v).0 ≡ some event
    → (accept_value w event.original).0 ≡ ok event
unfolding synthetic_completed_on_eof
accept_value-synthetic uuid v w event h = ground (
  arith,
  accept_value-completed_value w (saturating_next v.last_sequence)
      (get_or (String.◌++◌ "resp_" uuid) (nonempty v.response_id)),
  chosen_id-nonempty uuid v.response_id,
)
