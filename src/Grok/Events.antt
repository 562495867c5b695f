-- ===== src/Grok/Events.antt =====
-- `ValidatedTextEventStream` of src/grok.rs. What is left of the stream inside is a list of its items;
-- a poll that is pending changes nothing and is left out.
use grok_codex_bridge.Base.{
  if◌then◌else◌, Result, ok, err, ℕ, zero, suc, Bool, true, false, Option, none, some, List, [],
  ◌∷◌, String,
}
use grok_codex_bridge.Base.Text.{is_blank}
use grok_codex_bridge.Grok.{GrokError, protocol_error}
use grok_codex_bridge.Protocol.Error.{Res}
use grok_codex_bridge.Protocol.Namespace.{NamespaceToolProjection}
use grok_codex_bridge.Protocol.Restore.{JsonText, restore_response_event}
use grok_codex_bridge.Protocol.Stream.{
  ValidatedTextStreamEvent, TextStreamValidator, accept_data, synthetic_completed_on_eof,
}
pub mod Laws

pub record EventStream : Type 0 where
  pub inner : List (Result GrokError String)
  pub validator : TextStreamValidator
  pub finished : Bool

abbrev pub Event : Type 0
Event = Result GrokError ValidatedTextStreamEvent

-- What a poll gives, and the stream after it.
abbrev pub Poll : Type 0
Poll = Option Event × EventStream

abbrev pub stream_of : List (Result GrokError String) → TextStreamValidator → Bool → EventStream
stream_of inner v finished = record { inner = inner; validator = v; finished = finished }

-- The item of a poll, and the items after it.
abbrev pub after_poll : (EventStream → List Event) → Poll → List Event
after_poll later (none, s) = []
after_poll later (some event, s) = event ∷ later s

module _ (json : JsonText) (uuid : String) (p : NamespaceToolProjection) where
  -- `restore_namespaced_tool_calls`
  abbrev pub restored : ValidatedTextStreamEvent → ValidatedTextStreamEvent
  restored event = record event { original = restore_response_event json p event.original }

  -- The end of the stream inside: `finish` accepts, and an event is made if one is missing.
  abbrev at_end : Option ValidatedTextStreamEvent × TextStreamValidator → Poll
  at_end (some event, v) = (some (ok (restored event)), stream_of [] v true)
  at_end (none, v) = (none, stream_of [] v true)

  abbrev pub after_data :
      List (Result GrokError String) → Res ValidatedTextStreamEvent × TextStreamValidator → Poll
  after_data rest (ok event, v) = (some (ok (restored event)), stream_of rest v false)
  after_data rest (err e, v) = (some (err (protocol_error e)), stream_of rest v true)

  -- The loop of a poll.
  unfoldable pub poll_from : TextStreamValidator → List (Result GrokError String) → Poll
  unfolding synthetic_completed_on_eof accept_data
  poll_from v [] = at_end (synthetic_completed_on_eof uuid v)
  poll_from v (err e ∷ rest) = (some (err e), stream_of rest v true)
  poll_from v (ok payload ∷ rest) =
      let skipped = poll_from v rest in
      if is_blank payload then skipped else after_data rest (accept_data json.from_str v payload)

  unfoldable pub poll_next : EventStream → Poll
  unfolding poll_from
  poll_next s = if s.finished then (none, s) else poll_from s.validator s.inner

  -- The items of so many polls, up to the first that gives none.
  unfoldable pub drain : ℕ → EventStream → List Event
  unfolding poll_next
  drain zero s = []
  drain (suc n) s = after_poll (drain n) (poll_next s)
