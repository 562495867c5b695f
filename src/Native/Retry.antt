-- ===== src/Native/Retry.antt =====
-- `NativeClient::post_with_started` of src/native.rs: the loop that sends again.
use grok_codex_bridge.Base.{
  ltb, leb, nat_eq, if◌then◌else◌, get_elem?, get_or, ℕ, zero, suc, ◌+◌, ◌*◌, Bool, false, ◌&&◌,
  ◌||◌, Option, none, some, List, [], ◌∷◌, String,
}
use grok_codex_bridge.Base.Trim.{trim, parse_u64}
use grok_codex_bridge.Json.{◌and_then◌}
pub mod Laws

-- What one send comes to: the timeout around it, a response with its status and `Retry-After`, or an
-- error of the transport, with the test whether it may be sent again.
pub data Outcome : Type 0 where
  timed_out : Outcome
  responded : ℕ → Option String → Outcome
  send_failed : Bool → Outcome

-- One send: the milliseconds since the start before it and after it, and what it came to.
pub record Attempt : Type 0 where
  pub elapsed_before : ℕ
  pub elapsed_after : ℕ
  pub outcome : Outcome

pub data Done : Type 0 where
  deadline_exceeded : Done
  response : ℕ → Done
  transport_error : Done

abbrev pub native_send_retry_limit : ℕ
native_send_retry_limit = 3

-- in milliseconds
abbrev pub native_retry_wall_clock : ℕ
native_retry_wall_clock = 60000

abbrev pub native_retry_backoff : List ℕ
native_retry_backoff = 1000 ∷ 2000 ∷ 4000 ∷ []

abbrev pub is_transient_status : ℕ → Bool
is_transient_status status = nat_eq status 429 || (leb 502 status && leb status 504)

-- The header is in seconds.
unfoldable pub retry_after_or_default : Option String → ℕ → ℕ
unfolding trim parse_u64
retry_after_or_default header default_backoff =
    elim (header and_then λ value. parse_u64 (trim value)) [
      | none ↦ default_backoff
      | some seconds ↦ seconds * 1000
    ]

-- `NATIVE_RETRY_BACKOFF[attempt]`, where the attempt is below the limit
abbrev pub backoff_of : ℕ → ℕ
backoff_of attempt = get_or 0 (get_elem? native_retry_backoff attempt)

-- whether a response is slept on and sent again
unfoldable pub retries_response : ℕ → ℕ → ℕ → Option String → Bool
unfolding retry_after_or_default
retries_response attempt elapsed status header =
    is_transient_status status
    && ltb attempt native_send_retry_limit
    && leb (elapsed + retry_after_or_default header (backoff_of attempt)) native_retry_wall_clock

-- whether an error is
unfoldable pub retries_error : ℕ → ℕ → Bool → Bool
retries_error attempt elapsed may_retry = elim (get_elem? native_retry_backoff attempt) [
  | none ↦ false
  | some backoff ↦ may_retry && leb (elapsed + backoff) native_retry_wall_clock
]

-- The end of a round, or none when the loop goes on.
unfoldable pub round_end : ℕ → Attempt → Option Done
unfolding retries_response retries_error
round_end attempt a =
    if ltb native_retry_wall_clock a.elapsed_before
    then some deadline_exceeded
    else elim a.outcome [
      | timed_out ↦ some deadline_exceeded
      | responded status header ↦
          if retries_response attempt a.elapsed_after status header
          then none
          else some (response status)
      | send_failed may_retry ↦
          if retries_error attempt a.elapsed_after may_retry then none else some transport_error
    ]

-- The loop on fuel: what it ends with, and `attempts` after it; none is fuel that did not suffice.
-- The sends are a function of the number of the attempt.
unfoldable pub post_from : (ℕ → Attempt) → ℕ → ℕ → Option (Done × ℕ)
unfolding round_end
post_from sends zero attempt = none
post_from sends (suc n) attempt = elim (round_end attempt (sends attempt)) [
  | some done ↦ some (done, attempt + 1)
  | none ↦ post_from sends n (attempt + 1)
]
