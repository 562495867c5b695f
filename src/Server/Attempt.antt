-- ===== src/Server/Attempt.antt =====
-- The loop of `route_authorized_responses` in src/server.rs that posts to Grok, and posts again while
-- nothing has gone downstream.
use grok_codex_bridge.Base.{
  ℕ, zero, suc, ◌+◌, ◌*◌, Bool, true, false, ◌&&◌, Option, none, some, List, [], ◌∷◌, ◌++◌, String,
  ltb, leb, if◌then◌else◌, get_elem?, get_or, length, Result, ok, err,
}
use grok_codex_bridge.Grok.{GrokError, transport, rate_limited, upstream_status, stream_failed}
use grok_codex_bridge.Grok.Events.{Event, EventStream, stream_of, drain}
use grok_codex_bridge.Protocol.Event.{
  TextStreamEventKind, output_text_delta, output_text_done, output_item_done,
  function_call_arguments_delta, function_call_arguments_done, function_call_item_done,
  reasoning_summary_text_delta, reasoning_summary_text_done, reasoning_text_delta,
  reasoning_text_done, reasoning_item_done, response_failed, response_incomplete,
  response_completed,
}
use grok_codex_bridge.Protocol.Namespace.{NamespaceToolProjection}
use grok_codex_bridge.Protocol.Restore.{JsonText}
use grok_codex_bridge.Protocol.Stream.{ValidatedTextStreamEvent, new}
pub mod Laws
pub mod Streams

abbrev pub early_stream_retry_limit : ℕ
early_stream_retry_limit = 3

-- in milliseconds
abbrev pub early_stream_retry_backoff : List ℕ
early_stream_retry_backoff = 100 ∷ 200 ∷ 400 ∷ []

abbrev pub early_stream_retry_wall_clock : ℕ
early_stream_retry_wall_clock = 60000

unfoldable pub grok_error_is_transient : GrokError → Bool
grok_error_is_transient transport = true
grok_error_is_transient (rate_limited s) = true
grok_error_is_transient (upstream_status s) = leb 502 s && leb s 504
grok_error_is_transient _ = false

-- `EARLY_STREAM_RETRY_BACKOFF[retry_index]`, where the index is below the limit
abbrev pub requested_delay : GrokError → ℕ → ℕ
requested_delay (rate_limited (some seconds)) retry_index = seconds * 1000
requested_delay _ retry_index = get_or 0 (get_elem? early_stream_retry_backoff retry_index)

-- `elapsed` is the time since the start in milliseconds.
unfoldable pub grok_retry_delay : GrokError → ℕ → ℕ → Option ℕ
grok_retry_delay error retry_index elapsed =
    let delay = requested_delay error retry_index in
    if leb (elapsed + delay) early_stream_retry_wall_clock then some delay else none

unfoldable pub event_commits_downstream : TextStreamEventKind → Bool
event_commits_downstream (output_text_delta a b c d) = true
event_commits_downstream (output_text_done a b c d) = true
event_commits_downstream (output_item_done a b c) = true
event_commits_downstream (function_call_arguments_delta a b c) = true
event_commits_downstream (function_call_arguments_done a b c) = true
event_commits_downstream (function_call_item_done a b c d e) = true
event_commits_downstream (reasoning_summary_text_delta a b c d) = true
event_commits_downstream (reasoning_summary_text_done a b c d) = true
event_commits_downstream (reasoning_text_delta a b c d) = true
event_commits_downstream (reasoning_text_done a b c d) = true
event_commits_downstream (reasoning_item_done a b c) = true
event_commits_downstream (response_failed a) = true
event_commits_downstream (response_incomplete a) = true
event_commits_downstream (response_completed a) = true
event_commits_downstream _ = false

-- The inner loop over the items of the validated stream.
pub data Prelude : Type 0 where
  committed : List ValidatedTextStreamEvent → List Event → Prelude
  broken : GrokError → Prelude
  ended : Prelude

unfoldable pub read_prelude : List ValidatedTextStreamEvent → List Event → Prelude
read_prelude prelude [] = ended
read_prelude prelude (err e ∷ rest) = broken e
read_prelude prelude (ok event ∷ rest) =
    let later = read_prelude (prelude ++ event ∷ []) rest in
    if event_commits_downstream event.kind then committed (prelude ++ event ∷ []) rest else later

-- One post: what it comes to, and the time since the start when its error is seen. The payloads are
-- those that the reader of the SSE framing gives.
pub record Post : Type 0 where
  pub answer : Result GrokError (List (Result GrokError String))
  pub elapsed : ℕ

-- How the loop ends: a stream with its prelude and what is left, or an error.
pub data Upstream : Type 0 where
  streaming_from : List ValidatedTextStreamEvent → List Event → Upstream
  upstream_failed : GrokError → Upstream
  upstream_ended : Upstream

module _ (json : JsonText) (uuid : String) (p : NamespaceToolProjection) where
  -- All items of `validated_text_events`; one poll more than there are payloads ends the stream.
  unfoldable pub validated_text_events : List (Result GrokError String) → List Event
  unfolding drain new
  validated_text_events inner =
      drain json uuid p (suc (suc (length inner))) (stream_of inner new false)

  -- What a round ends with, or none when the loop goes on.
  abbrev pub after_prelude : ℕ → ℕ → Prelude → Option Upstream
  after_prelude early_retries elapsed (committed prelude rest) = some (streaming_from prelude rest)
  after_prelude early_retries elapsed ended = some upstream_ended
  after_prelude early_retries elapsed (broken stream_failed) =
      if ltb early_retries early_stream_retry_limit
      then elim (grok_retry_delay stream_failed early_retries elapsed) [
        | none ↦ some (upstream_failed stream_failed)
        | some delay ↦ none
      ]
      else some (upstream_failed stream_failed)
  after_prelude early_retries elapsed (broken e) = some (upstream_failed e)

  unfoldable pub post_end : ℕ → Post → Option Upstream
  unfolding grok_retry_delay grok_error_is_transient validated_text_events read_prelude
  post_end early_retries post = elim post.answer [
    | ok inner ↦
        after_prelude early_retries post.elapsed (read_prelude [] (validated_text_events inner))
    | err e ↦
        if grok_error_is_transient e && ltb early_retries early_stream_retry_limit
        then elim (grok_retry_delay e early_retries post.elapsed) [
          | none ↦ some (upstream_failed e)
          | some delay ↦ none
        ]
        else some (upstream_failed e)
  ]

  -- `'attempt: loop` on fuel: its end and the retries before it; none is fuel that did not suffice.
  -- Each round counts one retry, so the number of a post is that of the retries before it.
  unfoldable pub attempt_from : (ℕ → Post) → ℕ → ℕ → Option (Upstream × ℕ)
  unfolding post_end
  attempt_from posts zero early_retries = none
  attempt_from posts (suc n) early_retries = elim (post_end early_retries (posts early_retries)) [
    | some upstream ↦ some (upstream, early_retries)
    | none ↦ attempt_from posts n (early_retries + 1)
  ]
