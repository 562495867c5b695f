-- ===== src/Native/Retry/Laws.antt =====
-- The bound on the sends of src/native.rs.
use grok_codex_bridge.Base.{
  Option, Option-cases, ℕ, zero, suc, ◌+◌, ◌≤◌, ◌<◌, ◌≡◌, refl, ◌≢◌, ◌⊎◌, inl, inr, true, none,
  some, arith, String,
}
use grok_codex_bridge.Native.Retry.{
  Outcome, timed_out, responded, send_failed, retry_after_or_default, backoff_of, Attempt, Done,
  response, native_retry_wall_clock, is_transient_status, retries_response, retries_error,
  round_end, post_from,
}
use mathlib.Core.Path.{subst}

-- From the fourth attempt on, every round ends the loop.
round_end-late : (k : ℕ) (a : Attempt) → round_end (suc (suc (suc k))) a ≢ none
unfolding round_end retries_response retries_error
round_end-late k a h = ground arith

round_end-early : (attempt : ℕ) (a : Attempt) → round_end attempt a ≡ none → attempt < 3
round_end-early zero a h = ground arith
round_end-early (suc zero) a h = ground arith
round_end-early (suc (suc zero)) a h = ground arith
round_end-early (suc (suc (suc k))) a h = absurd (round_end-late k a h)

pub post_from-bounded :
    (sends : ℕ → Attempt) (n attempt : ℕ)
    → attempt ≤ 3
    → 4 ≤ n + attempt
    → (r : Done × ℕ) × (post_from sends n attempt ≡ some r) × (attempt < r.1) × (r.1 ≤ 4)
unfolding post_from
post_from-bounded sends zero attempt h k = ground arith
post_from-bounded sends (suc n) attempt h k =
    elim (Option-cases (round_end attempt (sends attempt))) [
      | inr (done, e) ↦ ((done, attempt + 1), rw (e, post_from) refl, ground arith, ground arith)
      | inl e ↦
          let early = round_end-early attempt (sends attempt) e in
          let (r, found, more, few) =
            post_from-bounded sends n (attempt + 1) (ground arith) (ground arith) in
          (r, rw (e, post_from) found, ground arith, few)
    ]

-- Whatever the sends come to, the loop ends after one to four of them.
pub post_ends :
    (sends : ℕ → Attempt) → (r : Done × ℕ) × (post_from sends 4 0 ≡ some r) × (0 < r.1) × (r.1 ≤ 4)
post_ends sends = post_from-bounded sends 4 0 (ground arith) (ground arith)

-- Why a transient status is given back after the attempt: the attempt is past the limit, or the
-- next one would begin after the minute.
abbrev pub IsExhausted : ℕ → Attempt → ℕ → Type 0
IsExhausted attempt a status =
    (header : Option String) × (a.outcome ≡ responded status header)
    × ((3 ≤ attempt)
        ⊎ (native_retry_wall_clock
            < a.elapsed_after + retry_after_or_default header (backoff_of attempt)))

round_end-response :
    (attempt : ℕ) (before after : ℕ) (outcome : Outcome) (status : ℕ)
    → round_end attempt
        (record { elapsed_before = before; elapsed_after = after; outcome = outcome })
      ≡ some (response status)
    → is_transient_status status ≡ true
    → IsExhausted attempt
        (record { elapsed_before = before; elapsed_after = after; outcome = outcome })
        status
unfolding round_end retries_response
round_end-response attempt before after timed_out status h t = ground arith
round_end-response attempt before after (send_failed b) status h t = ground arith
round_end-response attempt before after (responded s header) status h t =
    (header, ground arith, ground arith)

post_from-response :
    (sends : ℕ → Attempt) (n attempt status last : ℕ)
    → post_from sends n attempt ≡ some (response status, suc last)
    → is_transient_status status ≡ true
    → IsExhausted last (sends last) status
unfolding post_from
post_from-response sends zero attempt status last h t = ground arith
post_from-response sends (suc n) attempt status last h t =
    elim (Option-cases (round_end attempt (sends attempt))) [
      | inl e ↦ post_from-response sends n (attempt + 1) status last (rw (e, post_from) at h) t
      | inr (done, e) ↦
          let same : done ≡ response status = ground arith in
          let here : attempt ≡ last = ground arith in
          subst (λ i. IsExhausted i (sends i) status) here
            (round_end-response attempt (sends attempt).elapsed_before (sends attempt).elapsed_after
              (sends attempt).outcome status (rw same at e) t)
    ]

-- The loop gives a transient status back only when all four sends are made, or when the next send
-- would begin after the minute.
pub post_transient :
    (sends : ℕ → Attempt) (status last : ℕ)
    → post_from sends 4 0 ≡ some (response status, suc last)
    → is_transient_status status ≡ true
    → IsExhausted last (sends last) status
post_transient sends status last h t = post_from-response sends 4 0 status last h t
