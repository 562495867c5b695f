-- ===== src/Launchd/Waits.antt =====
-- How the polls of src/launchd.rs end: at the first that decides, or when all are spent.
use grok_codex_bridge.Base.{
  nat_eq, all, Result, ok, err, ℕ, zero, suc, ◌<◌, String, ◌≡◌, refl, ◌∙◌, ◌⊎◌, inl, inr, false,
  List, ◌∷◌, arith,
}
use grok_codex_bridge.Launchd.{LaunchdError, service_state_timeout, validate_user_id, ServiceStatus}
use grok_codex_bridge.Launchd.Poll.{
  Run, step, Decision, decided, again, decide, continue_with, status_after, service_status,
  wait_for_service_state,
}
use grok_codex_bridge.Launchd.Runner.{LaunchctlCommand, LaunchctlOutcome, print_command}

decide-cases :
    (d : Decision) → ((r : Result LaunchdError (Unit {0})) × (d ≡ decided r)) ⊎ (d ≡ again)
decide-cases (decided r) = inl (r, refl)
decide-cases again = inr refl

continue_with-decided :
    (d : Decision) (r : Result LaunchdError (Unit {0})) (rest : Run (Unit {0}))
    (log : List LaunchctlCommand)
    → d ≡ decided r
    → continue_with d rest log ≡ (r, log)
unfolding continue_with
continue_with-decided d r rest log h = rw h

continue_with-again :
    (d : Decision) (rest : Run (Unit {0})) (log : List LaunchctlCommand)
    → d ≡ again
    → continue_with d rest log ≡ rest
unfolding continue_with
continue_with-again d rest log h = rw h

pub validate_user_id-ok : (uid : ℕ) → nat_eq uid 0 ≡ false → validate_user_id uid ≡ ok tt
unfolding validate_user_id
validate_user_id-ok uid h = rw h

module _ (decimal : ℕ → String)
    (run : List LaunchctlCommand → LaunchctlCommand → Result String LaunchctlOutcome) (uid : ℕ)
    (label : String) where
  -- The log after some polls.
  abbrev pub prints : ℕ → List LaunchctlCommand → List LaunchctlCommand
  prints zero log = log
  prints (suc n) log = prints n (print_command decimal uid label ∷ log)

  -- What the poll after `n` polls decides.
  abbrev pub decision : ServiceStatus → List LaunchctlCommand → ℕ → Decision
  decision expected log n = decide expected (status_after decimal run uid label (prints n log))

  -- The first poll that decides gives the result and is the last; with none among those allowed, all are
  -- made and the result is the timeout.
  abbrev pub PollsEnd : ℕ → ServiceStatus → String → List LaunchctlCommand → Run (Unit {0}) → Type 0
  PollsEnd polls expected name log result =
      ((i : ℕ) × (r : Result LaunchdError (Unit {0})) × (i < polls)
        × ((j : ℕ) → j < i → decision expected log j ≡ again)
        × (decision expected log i ≡ decided r)
        × (result ≡ (r, prints (suc i) log)))
      ⊎ (((j : ℕ) → j < polls → decision expected log j ≡ again)
          × (result ≡ (err (service_state_timeout name), prints polls log)))

  wait-step :
      (polls : ℕ) (expected : ServiceStatus) (name : String) (log : List LaunchctlCommand)
      → nat_eq uid 0 ≡ false
      → wait_for_service_state decimal run (suc polls) uid label expected name log
        ≡ continue_with
            (decision expected log 0)
            (wait_for_service_state decimal run polls uid label expected name
              (print_command decimal uid label ∷ log))
            (print_command decimal uid label ∷ log)
  unfolding wait_for_service_state service_status step
  wait-step polls expected name log h = rw (validate_user_id-ok uid h)

  later :
      (expected : ServiceStatus) (log : List LaunchctlCommand) (n : ℕ)
      → decision expected log 0 ≡ again
      → ((j : ℕ) → j < n → decision expected (print_command decimal uid label ∷ log) j ≡ again)
      → (j : ℕ) → j < suc n
      → decision expected log j ≡ again
  later expected log n first rest zero l = first
  later expected log n first rest (suc j) l = rest j (omega arith)

  -- For a user that is not root, a wait for a state of the service ends at the first poll that decides,
  -- with its result, and otherwise polls as often as it may and then gives the timeout.
  pub PollsEnd-wait :
      (polls : ℕ) (expected : ServiceStatus) (name : String) (log : List LaunchctlCommand)
      → nat_eq uid 0 ≡ false
      → PollsEnd polls expected name log
          (wait_for_service_state decimal run polls uid label expected name log)
  unfolding wait_for_service_state
  PollsEnd-wait zero expected name log h = inr (λ j l. absurd (omega arith), refl)
  PollsEnd-wait (suc polls) expected name log h = elim (decide-cases (decision expected log 0)) [
    | inl (r, now) ↦ inl (
      0,
      r,
      omega arith,
      λ j l. absurd (omega arith),
      now,
      wait-step polls expected name log h ∙ continue_with-decided _ r _ _ now,
    )
    | inr wait ↦
        elim (PollsEnd-wait polls expected name (print_command decimal uid label ∷ log) h) [
          | inl (i, r, l, before, at, same) ↦ inl (
            suc i,
            r,
            omega arith,
            later expected log i wait before,
            at,
            wait-step polls expected name log h ∙ continue_with-again _ _ _ wait ∙ same,
          )
          | inr (all, same) ↦ inr (
            later expected log polls wait all,
            wait-step polls expected name log h ∙ continue_with-again _ _ _ wait ∙ same,
          )
        ]
  ]
