-- ===== src/Server/Native.antt =====
-- `native_response_started` of src/server.rs: the answer of the first-party service, whose first bytes
-- are awaited before anything goes downstream.
use grok_codex_bridge.Base.{
  true, ℕ, zero, suc, ◌+◌, ◌-◌, Bool, ◌&&◌, ◌||◌, Option, none, some, List, [], ◌∷◌, String, ltb,
  leb, if◌then◌else◌, get_elem?,
}
use grok_codex_bridge.Native.Retry.{
  Attempt, Done, deadline_exceeded, response, transport_error, native_retry_backoff,
  native_retry_wall_clock, native_send_retry_limit, post_from,
}
use grok_codex_bridge.Server.{Failure, route_error}
pub mod Laws

-- What the wait for the first bytes comes to; an error comes with the time since the start.
pub data FirstChunk : Type 0 where
  timed_out : FirstChunk
  ended : FirstChunk
  chunk : List ℕ → FirstChunk
  chunk_failed : ℕ → FirstChunk

-- The time since the start when the headers are there, and the wait.
pub record Body : Type 0 where
  pub elapsed : ℕ
  pub first : FirstChunk

-- A failure; a status without success, whose body is passed on; or a stream with its first bytes.
pub data NativeAnswer : Type 0 where
  refused : Failure → NativeAnswer
  passed_on : ℕ → NativeAnswer
  streamed : ℕ → List ℕ → NativeAnswer

abbrev pub is_success : ℕ → Bool
is_success status = leb 200 status && leb status 299

abbrev pub native_unavailable : Failure
native_unavailable =
    route_error 503 "server_error" "native_upstream_unavailable"
      "Native Codex upstream is unavailable"

abbrev native_timeout : Failure
native_timeout =
    route_error 504 "server_error" "native_upstream_timeout"
      "Native Codex upstream did not begin a response before the retry deadline"

abbrev native_unread : Failure
native_unread =
    route_error 502 "server_error" "native_upstream_unavailable"
      "Native Codex upstream response could not be read"

-- whether a body that failed is given up, after so many attempts
unfoldable pub gives_up : ℕ → ℕ → Bool
gives_up attempts elapsed = elim (get_elem? native_retry_backoff (attempts - 1)) [
  | none ↦ Bool.true
  | some backoff ↦
      ltb native_send_retry_limit attempts || ltb native_retry_wall_clock (elapsed + backoff)
]

-- What a response with success ends with, or none when the loop goes on.
unfoldable pub body_end : ℕ → ℕ → Body → Option NativeAnswer
unfolding gives_up
body_end status attempts body =
    if ltb native_retry_wall_clock body.elapsed
    then some (refused native_timeout)
    else elim body.first [
      | timed_out ↦ some (refused native_timeout)
      | ended ↦ some (streamed status [])
      | chunk first ↦ some (streamed status first)
      | chunk_failed elapsed ↦
          if gives_up attempts elapsed then some (refused native_unread) else none
    ]

unfoldable pub done_end : (ℕ → Body) → ℕ → Done → Option NativeAnswer
unfolding body_end
done_end bodies attempts (response status) =
    if is_success status
    then body_end status attempts (bodies attempts)
    else some (passed_on status)
done_end bodies attempts _ = some (refused native_unavailable)

-- The loop on fuel: the answer, and `attempts` after it. The sends are a function of the number of the
-- attempt, the bodies of the attempts so far.
unfoldable pub native_from : (ℕ → Attempt) → (ℕ → Body) → ℕ → ℕ → Option (NativeAnswer × ℕ)
unfolding post_from done_end
native_from sends bodies zero attempts = none
native_from sends bodies (suc n) attempts = elim (post_from sends 4 attempts) [
  | none ↦ none
  | some (done, attempts') ↦ elim (done_end bodies attempts' done) [
    | some answer ↦ some (answer, attempts')
    | none ↦ native_from sends bodies n attempts'
  ]
]

-- `native_response`
unfoldable pub native_response : (ℕ → Attempt) → (ℕ → Body) → Option (NativeAnswer × ℕ)
unfolding native_from
native_response sends bodies = native_from sends bodies 4 0
