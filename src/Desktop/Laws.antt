-- ===== src/Desktop/Laws.antt =====
-- What the transition of src/desktop_transition.rs guarantees.
use grok_codex_bridge.Base.{
  Bool-cases, is_some, ◌&&◌, Option-cases, Result-cases, ◌+◌, refl, inl, inr, any, is_empty, Result,
  ok, err, ℕ, zero, suc, ◌≡◌, Bool, true, false, not, ◌||◌, some, List, [], arith, String,
}
use grok_codex_bridge.Desktop.{
  is_running, transition_with_operations, inspected, quit, DesktopTransitionOperations, Call,
  called_mutation, called_launch, Run, change, wait_from, after_mutation,
}
use mathlib.Core.Path.{subst}

abbrev pub is_mutation : Call → Bool
is_mutation called_mutation = true
is_mutation c = false

abbrev pub is_launch : Call → Bool
is_launch called_launch = true
is_launch c = false

-- Whether a process was found at the start.
abbrev pub was_running : DesktopTransitionOperations → Bool
was_running ops =
    not (is_empty (elim ops.app_pids as (λ r. List ℕ) [ ok ps ↦ ps | err e ↦ [] ]))
    || not (is_empty (elim ops.app_server_pids as (λ r. List ℕ) [ ok ps ↦ ps | err e ↦ [] ]))

module _ (ops : DesktopTransitionOperations) where
  -- Some poll found the application stopped.
  abbrev pub IsQuiet : Type 0
  IsQuiet = (poll : ℕ) × (ops.captured_pids_running poll ≡ ok false)

  -- The application is started again exactly when the mutation was made, which was after it stopped.
  abbrev IsSafe : Run → Type 0
  IsSafe run =
      (any is_launch run.1 ≡ any is_mutation run.1) × (any is_mutation run.1 ≡ true → IsQuiet)

  launch-after_mutation :
      (restart : Bool) (r : Result String (Unit {0}))
      → (any is_launch (after_mutation ops restart r).1 ≡ restart)
        × (any is_mutation (after_mutation ops restart r).1 ≡ false)
  launch-after_mutation true (ok u) = (refl, refl)
  launch-after_mutation false (ok u) = (refl, refl)
  launch-after_mutation false (err e) = (refl, refl)
  launch-after_mutation true (err e) = ground arith

  launch-change :
      (restart : Bool)
      → (any is_launch (change ops restart).1 ≡ restart)
        × (any is_mutation (change ops restart).1 ≡ true)
  unfolding change
  launch-change restart = (ground (arith, launch-after_mutation restart ops.mutation), refl)

  wait_from-IsSafe : (fuel poll : ℕ) (run : Run) → wait_from ops fuel poll ≡ some run → IsSafe run
  unfolding wait_from
  wait_from-IsSafe zero poll run h = ground arith
  wait_from-IsSafe (suc n) poll run h = elim (Result-cases (ops.captured_pids_running poll)) [
    | inr (e, he) ↦ (ground arith, λ m. ground arith)
    | inl (true, he) ↦ elim (Option-cases (wait_from ops n (poll + 1))) [
      | inl e ↦ (ground arith, λ m. ground arith)
      | inr (later, e) ↦
          let safe = wait_from-IsSafe n (poll + 1) later e in
          (ground (arith, safe.0), λ m. safe.1 (ground arith))
    ]
    | inl (false, he) ↦ (ground (arith, launch-change true), λ m. (poll, he))
  ]

  IsSafe-quit :
      (fuel : ℕ) (r : Result String (Unit {0})) (run : Run)
      → quit ops fuel r ≡ some run
      → IsSafe run
  unfolding quit
  IsSafe-quit fuel (err e) run h = (ground arith, λ m. ground arith)
  IsSafe-quit fuel (ok u) run h = wait_from-IsSafe fuel 0 run h

  transition_lem :
      (fuel : ℕ) (run : Run)
      → transition_with_operations ops fuel ≡ some run
      → (any is_launch run.1 ≡ (any is_mutation run.1 && was_running ops))
        × (any is_mutation run.1 ≡ true → was_running ops ≡ true → IsQuiet)
  unfolding transition_with_operations inspected quit
  transition_lem fuel run h = go ops.app_pids ops.app_server_pids refl refl h
    where
      go :
          (apps servers : Result String (List ℕ))
          → ops.app_pids ≡ apps
          → ops.app_server_pids ≡ servers
          → inspected ops fuel apps servers ≡ some run
          → (any is_launch run.1 ≡ (any is_mutation run.1 && was_running ops))
            × (any is_mutation run.1 ≡ true → was_running ops ≡ true → IsQuiet)
      go (err e) servers ha hs k = (ground arith, λ m w. ground arith)
      go (ok apps) (err e) ha hs k = (ground arith, λ m w. ground arith)
      go (ok apps) (ok servers) ha hs k = elim (Bool-cases (is_running ops apps servers)) [
        | inr e ↦ (ground (arith, launch-change false), λ m w. ground arith)
        | inl e ↦ elim (Option-cases (quit ops fuel ops.request_quit)) [
          | inl n ↦ ground arith
          | inr (later, e') ↦
              let safe = IsSafe-quit fuel ops.request_quit later e' in
              (ground (arith, safe.0), λ m w. safe.1 (ground arith))
        ]
      ]

  -- When the transition ends, the application was started exactly when the mutation was made and a
  -- process was found at the start.
  pub transition_relaunch :
      (fuel : ℕ) (run : Run)
      → transition_with_operations ops fuel ≡ some run
      → any is_launch run.1 ≡ (any is_mutation run.1 && was_running ops)
  transition_relaunch fuel run h = (transition_lem fuel run h).0

  -- If a process was found at the start, the mutation is made only after a poll found that the
  -- application had stopped.
  pub transition_quiet :
      (fuel : ℕ) (run : Run)
      → transition_with_operations ops fuel ≡ some run
      → any is_mutation run.1 ≡ true
      → was_running ops ≡ true
      → IsQuiet
  transition_quiet fuel run h = (transition_lem fuel run h).1

  -- The wait ends by the first poll that is past the deadline.
  wait_from-ends :
      (n poll : ℕ)
      → ops.past_deadline (n + poll) ≡ true
      → is_some (wait_from ops (suc n) poll) ≡ true
  unfolding wait_from
  wait_from-ends zero poll h = ground arith
  wait_from-ends (suc n) poll h =
      let later = wait_from-ends n (poll + 1) (
        subst (λ i. ops.past_deadline i ≡ true) {x = suc n + poll} {y = n + (poll + 1)}
          (omega arith) h) in
      ground arith

  -- The transition ends when the clock passes the deadline at some poll, and fuel for the polls up to
  -- that one is enough.
  pub transition_ends :
      (last : ℕ)
      → ops.past_deadline last ≡ true
      → is_some (transition_with_operations ops (suc last)) ≡ true
  unfolding transition_with_operations inspected quit
  transition_ends last h = ground (arith, wait_from-ends last 0)
