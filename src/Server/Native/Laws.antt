-- ===== src/Server/Native/Laws.antt =====
-- Failures of the send and of the body share one budget in src/server.rs.
use grok_codex_bridge.Base.{
  Bool, ℕ, zero, suc, ◌+◌, ◌≤◌, ◌<◌, ◌≡◌, refl, none, some, arith, Option-cases, inl, inr,
}
use grok_codex_bridge.Native.Retry.{Attempt, Done, deadline_exceeded, response, transport_error}
use grok_codex_bridge.Native.Retry.Laws.{post_from-bounded}
use grok_codex_bridge.Server.Native.{
  Body, NativeAnswer, gives_up, body_end, done_end, native_from, native_response,
}

gives_up-late : (k elapsed : ℕ) → gives_up (suc (suc (suc (suc k)))) elapsed ≡ Bool.true
unfolding gives_up
gives_up-late k elapsed = ground arith

-- The loop goes on only below four attempts.
body_end-early :
    (status attempts : ℕ) (body : Body) → body_end status attempts body ≡ none → attempts ≤ 3
unfolding body_end
body_end-early status zero body h = omega arith
body_end-early status (suc zero) body h = omega arith
body_end-early status (suc (suc zero)) body h = omega arith
body_end-early status (suc (suc (suc zero))) body h = omega arith
body_end-early status (suc (suc (suc (suc k)))) body h =
    ground (arith, h, λ (e : ℕ). gives_up-late k e)

done_end-early :
    (bodies : ℕ → Body) (attempts : ℕ) (done : Done)
    → done_end bodies attempts done ≡ none
    → attempts ≤ 3
unfolding done_end
done_end-early bodies attempts deadline_exceeded h = ground arith
done_end-early bodies attempts (response status) h =
    ground (arith, body_end-early status attempts (bodies attempts))
done_end-early bodies attempts transport_error h = ground arith

native_from-bounded :
    (sends : ℕ → Attempt) (bodies : ℕ → Body) (n attempts : ℕ)
    → attempts ≤ 3
    → 4 ≤ n + attempts
    → (r : NativeAnswer × ℕ) × (native_from sends bodies n attempts ≡ some r)
      × (attempts < r.1)
      × (r.1 ≤ 4)
unfolding native_from
native_from-bounded sends bodies zero attempts h k = ground arith
native_from-bounded sends bodies (suc n) attempts h k =
    let ((done, after), sent, more, few) = post_from-bounded sends 4 attempts h (omega arith) in
    elim (Option-cases (done_end bodies after done)) [
      | inr (answer, e) ↦ ((answer, after), rw (sent, native_from, e, native_from) refl, more, few)
      | inl e ↦
          let early = done_end-early bodies after done e in
          let (r, found, later, bound) =
            native_from-bounded sends bodies n after early (omega arith) in
          (r, rw (sent, native_from, e, native_from) found, omega arith, bound)
    ]

-- Whatever the sends and the bodies come to, the answer is given after one to four sends in all.
pub native_response_ends :
    (sends : ℕ → Attempt) (bodies : ℕ → Body)
    → (r : NativeAnswer × ℕ) × (native_response sends bodies ≡ some r) × (0 < r.1) × (r.1 ≤ 4)
unfolding native_response
native_response_ends sends bodies = native_from-bounded sends bodies 4 0 (omega arith) (omega arith)
