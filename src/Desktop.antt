-- ===== src/Desktop.antt =====
-- src/desktop_transition.rs: `transition_with_operations`, which stops the desktop application around
-- a change and starts it again.
use grok_codex_bridge.Base.{
  if◌then◌else◌, is_empty, Result, ok, err, ℕ, zero, suc, ◌+◌, Bool, true, false, not, ◌||◌, Option,
  none, some, List, [], ◌∷◌, ◌++◌, String,
}
pub mod Laws

-- The stages.
pub data DesktopTransitionStage : Type 0 where
  inspect_initial_state request_graceful_quit wait_for_quiescence mutate relaunch :
      DesktopTransitionStage

-- The errors; the error of an operation is its text
pub data DesktopTransitionError : Type 0 where
  stage_failed : DesktopTransitionStage → String → DesktopTransitionError
  mutation_failed : DesktopTransitionStage → String → DesktopTransitionError
  mutation_and_relaunch : String → String → DesktopTransitionError
  quiescence_timeout : DesktopTransitionError

-- What the operations, the clock and the mutation do: each poll has a number.
pub record DesktopTransitionOperations : Type 0 where
  pub app_pids : Result String (List ℕ)
  pub app_server_pids : Result String (List ℕ)
  pub request_quit : Result String (Unit {0})
  pub captured_pids_running : ℕ → Result String Bool
  pub past_deadline : ℕ → Bool
  pub mutation : Result String (Unit {0})
  pub launch_app : Result String (Unit {0})

-- The calls that are made, in order.
pub data Call : Type 0 where
  called_app_pids called_app_server_pids called_request_quit called_running : Call
  called_mutation called_launch : Call

-- The result and the calls.
abbrev pub Run : Type 0
Run = Result DesktopTransitionError (Unit {0}) × List Call

abbrev pub after_call : Call → Run → Run
after_call c (r, calls) = (r, c ∷ calls)

abbrev stage_result :
    DesktopTransitionStage → Result String (Unit {0}) → Result DesktopTransitionError (Unit {0})
stage_result stage (ok u) = ok tt
stage_result stage (err e) = err (stage_failed stage e)

module _ (ops : DesktopTransitionOperations) where
  -- The mutation and what follows it; the test is whether the application is started again.
  abbrev launch_after_failure : String → Result String (Unit {0}) → Run
  launch_after_failure failure (ok u) = (err (mutation_failed mutate failure), called_launch ∷ [])
  launch_after_failure failure (err e) = (err (mutation_and_relaunch failure e), called_launch ∷ [])

  abbrev after_mutation : Bool → Result String (Unit {0}) → Run
  after_mutation true (err failure) = launch_after_failure failure ops.launch_app
  after_mutation false (err failure) = (err (mutation_failed mutate failure), [])
  after_mutation true (ok u) = (stage_result relaunch ops.launch_app, called_launch ∷ [])
  after_mutation false (ok u) = (ok tt, [])

  unfoldable pub change : Bool → Run
  change restart = after_call called_mutation (after_mutation restart ops.mutation)

  -- The loop that waits, on fuel; none is fuel that did not suffice.
  unfoldable pub wait_from : ℕ → ℕ → Option Run
  unfolding change
  wait_from zero poll = none
  wait_from (suc n) poll =
      let later = wait_from n (poll + 1) in
      elim (ops.captured_pids_running poll) [
        | err e ↦ some (err (stage_failed wait_for_quiescence e), called_running ∷ [])
        | ok false ↦ some (after_call called_running (change true))
        | ok true ↦
            if ops.past_deadline poll
            then some (err quiescence_timeout, called_running ∷ [])
            else elim later [ none ↦ none | some run ↦ some (after_call called_running run) ]
      ]

  abbrev quit : ℕ → Result String (Unit {0}) → Option Run
  unfolding wait_from
  quit fuel (err e) = some (err (stage_failed request_graceful_quit e), [])
  quit fuel (ok u) = wait_from fuel 0

  abbrev prefix : List Call → Option Run → Option Run
  prefix calls none = none
  prefix calls (some (r, later)) = some (r, calls ++ later)

  abbrev is_running : List ℕ → List ℕ → Bool
  is_running apps servers = not (is_empty apps) || not (is_empty servers)

  abbrev inspected : ℕ → Result String (List ℕ) → Result String (List ℕ) → Option Run
  unfolding quit change
  inspected fuel (err e) servers =
      some (err (stage_failed inspect_initial_state e), called_app_pids ∷ [])
  inspected fuel (ok apps) (err e) =
      some
        (err (stage_failed inspect_initial_state e), called_app_pids ∷ called_app_server_pids ∷ [])
  inspected fuel (ok apps) (ok servers) =
      if is_running apps servers
      then prefix (called_app_pids ∷ called_app_server_pids ∷ called_request_quit ∷ [])
          (quit fuel ops.request_quit)
      else prefix (called_app_pids ∷ called_app_server_pids ∷ []) (some (change false))

  unfoldable pub transition_with_operations : ℕ → Option Run
  unfolding inspected
  transition_with_operations fuel = inspected fuel ops.app_pids ops.app_server_pids
