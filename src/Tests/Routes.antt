-- ===== src/Tests/Routes.antt =====
-- Runs of the retries (src/native.rs), of the transition of the desktop application
-- (src/desktop_transition.rs) and of the activation of the picker (src/picker_activation.rs).
use grok_codex_bridge.Base.{
  if◌then◌else◌, leb, nat_eq, any, ok, ℕ, ◌≡◌, refl, true, false, ◌&&◌, none, some, [], ◌∷◌,
}
use grok_codex_bridge.Picker.Rollback.{Fate, succeeds, fails_leaving, Machine}
use grok_codex_bridge.Desktop.Laws.{
  transition_relaunch, transition_quiet, is_mutation, is_launch, was_running, IsQuiet,
}
use grok_codex_bridge.Desktop.{
  DesktopTransitionOperations, called_app_pids, called_app_server_pids, called_request_quit,
  called_running, called_mutation, called_launch, Run, transition_with_operations,
}
use grok_codex_bridge.Native.Retry.{responded, Attempt, response, retry_after_or_default, post_from}
use grok_codex_bridge.Native.Retry.Laws.{IsExhausted, post_transient}

-- Every send is answered with 503 at once.
abbrev unavailable : ℕ → Attempt
unavailable i = record { elapsed_before = 0; elapsed_after = 0; outcome = responded 503 none }

all_sends_are_made : post_from unavailable 4 0 ≡ some (response 503, 4)
unfolding post_from retry_after_or_default
all_sends_are_made = refl

post_transient_example : IsExhausted 3 (unavailable 3) 503
post_transient_example = post_transient unavailable 503 3 all_sends_are_made refl

-- The application runs, and has stopped at the second poll.
abbrev stopping : DesktopTransitionOperations
stopping = record {
  app_pids = ok (7 ∷ []);
  app_server_pids = ok [];
  request_quit = ok tt;
  captured_pids_running = λ poll. ok (nat_eq poll 0);
  past_deadline = λ poll. leb 9 poll;
  mutation = ok tt;
  launch_app = ok tt;
}

abbrev stopped_run : Run
stopped_run = (
  ok tt,
  called_app_pids ∷ called_app_server_pids ∷ called_request_quit ∷ called_running ∷ called_running
      ∷ called_mutation ∷ called_launch ∷ [],
)

stopping_is_run : transition_with_operations stopping 10 ≡ some stopped_run
unfolding transition_with_operations
stopping_is_run = refl

transition_relaunch_example :
    any is_launch stopped_run.1 ≡ (any is_mutation stopped_run.1 && was_running stopping)
transition_relaunch_example = transition_relaunch stopping 10 stopped_run stopping_is_run

transition_quiet_example : IsQuiet stopping
transition_quiet_example = transition_quiet stopping 10 stopped_run stopping_is_run refl refl

abbrev busy_machine : Machine
busy_machine = record { service_loaded = true; picker_published = false; calls_made = 0 }

-- The fourth call, which starts the service, fails and leaves it loaded.
abbrev fourth_fails : ℕ → Fate
fourth_fails i = if nat_eq i 3 then fails_leaving true else succeeds
