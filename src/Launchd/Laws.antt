-- ===== src/Launchd/Laws.antt =====
-- Commands of src/launchd.rs that succeed, and polls that reach a state.
use grok_codex_bridge.Launchd.Admission.Laws.{ran-ok, ensure_success-ok}
use grok_codex_bridge.Base.{
  nat_eq, all, Result, ok, err, ok_of_bind, ℕ, suc, ◌<◌, String, ◌≡◌, refl, sym, ap, ◌∙◌, inl, inr,
  true, false, List, arith,
}
use grok_codex_bridge.Launchd.Poll.{
  is_status, service_state_poll_attempts, decided, decide_status, decide, ran, status_after,
  wait_for_service_state, must_run,
}
use grok_codex_bridge.Launchd.Runner.{LaunchctlCommand, LaunchctlOutcome, ensure_success}
use grok_codex_bridge.Launchd.{LaunchdError, ServiceStatus, loaded, not_loaded, failed}
use grok_codex_bridge.Launchd.Waits.{prints, PollsEnd-wait}

pub decide-loaded :
    (r : Result LaunchdError ServiceStatus) → decide loaded r ≡ decided (ok tt) → r ≡ ok loaded
unfolding decide decide_status is_status
decide-loaded (err e) h = ground arith
decide-loaded (ok loaded) h = refl
decide-loaded (ok not_loaded) h = ground arith
decide-loaded (ok (failed c)) h = ground arith

pub decide-not_loaded :
    (r : Result LaunchdError ServiceStatus)
    → decide not_loaded r ≡ decided (ok tt)
    → r ≡ ok not_loaded
unfolding decide decide_status is_status
decide-not_loaded (err e) h = ground arith
decide-not_loaded (ok loaded) h = ground arith
decide-not_loaded (ok not_loaded) h = refl
decide-not_loaded (ok (failed c)) h = ground arith

err≢ok : {E A : Type 0} {e : E} {a : A} → ◌≡◌ {A = Result E A} (err e) (ok a) → ⊥
err≢ok h = ground arith

module _ (decimal : ℕ → String)
    (run : List LaunchctlCommand → LaunchctlCommand → Result String LaunchctlOutcome) where
  -- A command succeeds after those that were run.
  abbrev pub Succeeds : List LaunchctlCommand → LaunchctlCommand → Type 0
  Succeeds log command =
      (outcome : LaunchctlOutcome) × (run log command ≡ ok outcome) × (outcome.success ≡ true)

  pub must_run-Succeeds :
      (command : LaunchctlCommand) (log : List LaunchctlCommand)
      → (must_run decimal run command log).0 ≡ ok tt
      → Succeeds log command
  unfolding must_run
  must_run-Succeeds command log h =
      let (outcome, r, e) =
        ok_of_bind (ran command.operation (run log command)) (ensure_success command.operation) h in
      (
        outcome,
        ran-ok command.operation (run log command) outcome r,
        ensure_success-ok command.operation outcome e,
      )

  -- Some poll, within the number allowed, is the last and gives the status.
  abbrev pub IsReached :
      ℕ → String → ServiceStatus → List LaunchctlCommand → List LaunchctlCommand → Type 0
  IsReached uid label status before after =
      (i : ℕ) × (i < service_state_poll_attempts)
      × (status_after decimal run uid label (prints decimal run uid label i before) ≡ ok status)
      × (after ≡ prints decimal run uid label (suc i) before)

  pub wait-IsReached :
      (uid : ℕ) (label : String) (expected : ServiceStatus) (name : String)
      (log : List LaunchctlCommand)
      → nat_eq uid 0 ≡ false
      → ((r : Result LaunchdError ServiceStatus)
          → decide expected r ≡ decided (ok tt)
          → r ≡ ok expected)
      → (wait_for_service_state decimal run service_state_poll_attempts uid label expected name
          log).0
        ≡ ok tt
      → IsReached uid label expected log
          (wait_for_service_state decimal run service_state_poll_attempts uid label expected name
            log).1
  wait-IsReached uid label expected name log plain exact h =
      elim (PollsEnd-wait decimal run uid label service_state_poll_attempts expected name log
        plain) [
          | inl (i, r, l, before, at, same) ↦
              (i, l, exact _ (at ∙ ap decided (sym (ap (λ w. w.0) same) ∙ h)), ap (λ w. w.1) same)
          | inr (all, same) ↦ absurd (err≢ok (sym (ap (λ w. w.0) same) ∙ h))
        ]
