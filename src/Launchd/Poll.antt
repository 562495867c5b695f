-- ===== src/Launchd/Poll.antt =====
-- The operations of src/launchd.rs on the service: install, uninstall, status, and the polls for a state.
use grok_codex_bridge.Launchd.Admission.{admission}
use grok_codex_bridge.Launchd.{
  service_state_timeout, validate_user_id, ServiceStatus, loaded, not_loaded, failed,
  LaunchctlOperation, bootout, print, LaunchdError, launchctl_io, launchctl_failed,
  ServiceUninstallOutcome, stopped, already_stopped,
}
use grok_codex_bridge.Launchd.Spec.{LaunchAgentSpec}
use grok_codex_bridge.Base.{
  map_ok, ℕ, suc, zero, Bool, true, false, List, ◌∷◌, String, if◌then◌else◌, Result, ok, err, ◌>>◌,
  ◌>>=◌,
}
use grok_codex_bridge.Launchd.Runner.{
  LaunchctlCommand, LaunchctlOutcome, LaunchAgentFile, ensure_success, bootstrap_command,
  kickstart_command, bootout_command, print_command, is_authoritative_not_loaded,
}

-- The result of an operation and the commands that were run, the newest first.
abbrev pub Run : Type 0 → Type 0
Run A = Result LaunchdError A × List LaunchctlCommand

-- `status == expected`, for the two that are waited for
unfoldable pub is_status : ServiceStatus → ServiceStatus → Bool
is_status loaded loaded = true
is_status not_loaded not_loaded = true
is_status status expected = false

-- `?` on a result after some commands
unfoldable pub step :
    {A B : Type 0} → Result LaunchdError A → List LaunchctlCommand → (A → Run B) → Run B
step (err e) log next = (err e, log)
step (ok value) log next = next value

abbrev pub service_state_poll_attempts : ℕ
service_state_poll_attempts = 100

-- How one poll goes on.
pub data Decision : Type 0 where
  decided : Result LaunchdError (Unit {0}) → Decision
  again : Decision

unfoldable pub decide_status : ServiceStatus → ServiceStatus → Decision
decide_status expected loaded = if is_status loaded expected then decided (ok tt) else again
decide_status expected not_loaded = if is_status not_loaded expected then decided (ok tt) else again
decide_status expected (failed exit_code) = decided (err (launchctl_failed print exit_code))

unfoldable pub decide : ServiceStatus → Result LaunchdError ServiceStatus → Decision
decide expected (err e) = decided (err e)
decide expected (ok status) = decide_status expected status

unfoldable pub continue_with : Decision → Run (Unit {0}) → List LaunchctlCommand → Run (Unit {0})
continue_with (decided result) rest log = (result, log)
continue_with again rest log = rest

-- `runner.run(&command).map_err(...)`, given what the runner answers
unfoldable pub ran :
    LaunchctlOperation → Result String LaunchctlOutcome → Result LaunchdError LaunchctlOutcome
ran operation (ok outcome) = ok outcome
ran operation (err source) = err (launchctl_io operation source)

module _ (decimal : ℕ → String) where
  unfoldable pub status_of : ℕ → String → LaunchctlOutcome → ServiceStatus
  status_of uid label outcome =
      if outcome.success
      then loaded
      else if is_authoritative_not_loaded decimal print outcome uid label
      then not_loaded
      else failed outcome.exit_code

  unfoldable pub uninstall_of :
      ℕ → String → LaunchctlOutcome → Result LaunchdError ServiceUninstallOutcome
  uninstall_of uid label outcome =
      if outcome.success
      then ok stopped
      else if is_authoritative_not_loaded decimal bootout outcome uid label
      then ok already_stopped
      else err (launchctl_failed bootout outcome.exit_code)

  module _ (run : List LaunchctlCommand → LaunchctlCommand → Result String LaunchctlOutcome) where
    -- What the print after some commands says.
    unfoldable pub status_after :
        ℕ → String → List LaunchctlCommand → Result LaunchdError ServiceStatus
    status_after uid label log =
        map_ok (status_of uid label) (ran print (run log (print_command decimal uid label)))

    unfoldable pub service_status : ℕ → String → List LaunchctlCommand → Run ServiceStatus
    service_status uid label log =
        step (validate_user_id uid) log
          (λ valid. (status_after uid label log, print_command decimal uid label ∷ log))

    -- `wait_for_service_state_with_runner`, with the number of polls first
    unfoldable pub wait_for_service_state :
        ℕ → ℕ → String → ServiceStatus → String → List LaunchctlCommand → Run (Unit {0})
    wait_for_service_state zero uid label expected name log =
        (err (service_state_timeout name), log)
    wait_for_service_state (suc polls) uid label expected name log =
        let polled = service_status uid label log in
        let rest = wait_for_service_state polls uid label expected name polled.1 in
        continue_with (decide expected polled.0) rest polled.1

    unfoldable pub service_uninstall :
        ℕ → String → List LaunchctlCommand → Run ServiceUninstallOutcome
    service_uninstall uid label log = step (validate_user_id uid) log (λ valid. (
      ran bootout (run log (bootout_command decimal uid label)) >>= uninstall_of uid label,
      bootout_command decimal uid label ∷ log,
    ))

    -- The wait after an uninstall that stopped something.
    unfoldable pub wait_if_stopped :
        ℕ → String → List LaunchctlCommand → ServiceUninstallOutcome → Run ServiceUninstallOutcome
    wait_if_stopped uid label log already_stopped = (ok already_stopped, log)
    wait_if_stopped uid label log stopped =
        let waited =
          wait_for_service_state service_state_poll_attempts uid label not_loaded "not_loaded"
            log in
        (waited.0 >> ok stopped, waited.1)

    unfoldable pub service_uninstall_and_wait :
        ℕ → String → List LaunchctlCommand → Run ServiceUninstallOutcome
    service_uninstall_and_wait uid label log =
        let uninstalled = service_uninstall uid label log in
        step uninstalled.0 uninstalled.1 (wait_if_stopped uid label uninstalled.1)

    -- A command that has to succeed.
    unfoldable pub must_run : LaunchctlCommand → List LaunchctlCommand → Run (Unit {0})
    must_run command log = (
      ran command.operation (run log command) >>= ensure_success command.operation,
      command ∷ log,
    )

    unfoldable pub service_install :
        (String → Result String LaunchAgentFile)
        → LaunchAgentSpec
        → String
        → ℕ
        → List LaunchctlCommand
        → Run (Unit {0})
    service_install open_file spec plist_path uid log =
        step (admission open_file spec plist_path uid) log (λ admitted.
          let bootstrapped = must_run (bootstrap_command decimal uid plist_path) log in
          step bootstrapped.0 bootstrapped.1
            (λ done. must_run (kickstart_command decimal uid spec.label) bootstrapped.1))

    unfoldable pub service_install_and_wait :
        (String → Result String LaunchAgentFile)
        → LaunchAgentSpec
        → String
        → ℕ
        → List LaunchctlCommand
        → Run (Unit {0})
    service_install_and_wait open_file spec plist_path uid log =
        let installed = service_install open_file spec plist_path uid log in
        step installed.0 installed.1 (λ done.
          wait_for_service_state service_state_poll_attempts uid spec.label loaded "loaded"
            installed.1)
