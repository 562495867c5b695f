-- ===== src/Tests/Launchd.antt =====
-- Runs of the launch agent of src/launchd.rs.
use grok_codex_bridge.Launchd.Admission.{
  equal_bytes, admit_content, admit_file, admit_launch_agent, admission,
}
use grok_codex_bridge.Launchd.Install.{IsInstalled, service_install_and_wait_lem}
use grok_codex_bridge.Launchd.Poll.{
  is_status, decide_status, decide, continue_with, status_of, status_after, service_status,
  wait_for_service_state, must_run, service_install, service_install_and_wait, ran, uninstall_of,
  service_uninstall, wait_if_stopped, service_uninstall_and_wait, step,
}
use grok_codex_bridge.Launchd.Runner.{
  ensure_success, bootstrap_command, kickstart_command, print_command, LaunchctlCommand,
  LaunchctlOutcome, LaunchAgentFile, lines_from, says_not_loaded, any_says_not_loaded, stderr_says,
  service_target, bootout_command, is_authoritative_not_loaded,
}
use grok_codex_bridge.Launchd.Spec.{
  is_file_name, parts_from, components_of, components, is_absolute, is_control, any_control,
  has_part, file_name_of, has_file_name, validate_path, LaunchAgentSpec, escape_char, escape_xml,
  render_plist,
}
use grok_codex_bridge.Launchd.Uninstall.{IsUninstalled, IsUninstalled-service_uninstall_and_wait}
use grok_codex_bridge.Launchd.Waits.{PollsEnd, PollsEnd-wait}
use grok_codex_bridge.Base.{
  nat_eq, if◌then◌else◌, Result, ok, err, ℕ, String, ◌≡◌, refl, Bool, true, false, Option, none,
  some, List, [], ◌∷◌,
}
use grok_codex_bridge.Base.Text.{bytes}
use grok_codex_bridge.Base.Trim.{trim_start, trim_end, trim}
use grok_codex_bridge.Launchd.{
  invalid_label, unsafe_path, is_label_byte, all_label_bytes, validate_label, validate_user_id,
  loaded, stopped, already_stopped,
}

abbrev decimal : ℕ → String
decimal n = if nat_eq n 501 then "501" else "0"

abbrev agent : LaunchAgentSpec
agent = record {
  label = "com.local.bridge";
  installed_binary = "/opt/bridge/grok-codex-bridge";
  bridge_config = "/opt/bridge/a&b.toml";
  stdout_log = "/opt/bridge/out.log";
  stderr_log = "/opt/bridge/err.log";
}

abbrev agent_path : String
agent_path = "/Users/me/Library/LaunchAgents/com.local.bridge.plist"

abbrev found_file : String → Result String LaunchAgentFile
found_file path = ok (record {
  is_file = true;
  mode = 0o100644;
  size = 900;
  content = ok (bytes (render_plist agent));
})

abbrev answer : Bool → Option String → LaunchctlOutcome
answer success stderr = record { success = success; exit_code = some 113; stderr = stderr }

abbrev missing : Option String
missing =
    some "Bad request.\nCould not find service \"com.local.bridge\" in domain for user gui: 501\n"

-- The first print says that the service is not there, and the second that it is.
abbrev launchctl : List LaunchctlCommand → LaunchctlCommand → Result String LaunchctlOutcome
launchctl (a ∷ b ∷ []) command = ok (answer false missing)
launchctl log command = ok (answer true none)

-- The bootout succeeds, and the print after it says that the service is not there.
abbrev launchctl_bootout : List LaunchctlCommand → LaunchctlCommand → Result String LaunchctlOutcome
launchctl_bootout [] command = ok (answer true none)
launchctl_bootout (a ∷ log) command = ok (answer false missing)

-- A bootout of a service that is not there.
abbrev launchctl_missing : List LaunchctlCommand → LaunchctlCommand → Result String LaunchctlOutcome
launchctl_missing log command = ok (answer false (some "  Boot-out failed: 3: No such process  \n"))

validate_label_dots : validate_label "com.local.bridge" ≡ ok tt
unfolding validate_label all_label_bytes is_label_byte bytes
validate_label_dots = refl

validate_label_slash : validate_label "com/bridge" ≡ err invalid_label
unfolding validate_label all_label_bytes is_label_byte bytes
validate_label_slash = refl

validate_path_up :
    validate_path "bridge config" "/opt/../bridge.toml" ≡ err (unsafe_path "bridge config")
unfolding validate_path is_absolute any_control is_control components components_of parts_from
    has_part file_name_of has_file_name
validate_path_up = refl

uninstalled_missing :
    service_uninstall_and_wait decimal launchctl_missing 501 "com.local.bridge" []
    ≡ (ok already_stopped, bootout_command decimal 501 "com.local.bridge" ∷ [])
unfolding service_uninstall_and_wait service_uninstall step wait_if_stopped validate_user_id ran
    uninstall_of is_authoritative_not_loaded stderr_says any_says_not_loaded says_not_loaded
    lines_from trim trim_start trim_end bootout_command service_target
uninstalled_missing = refl

installed_run :
    (service_install_and_wait decimal launchctl found_file agent agent_path 501 []).0 ≡ ok tt
unfolding service_install_and_wait service_install admission admit_launch_agent admit_file
    admit_content step validate_user_id validate_path is_absolute any_control is_control components
    components_of parts_from has_part file_name_of has_file_name is_file_name must_run ran
    ensure_success equal_bytes wait_for_service_state service_status status_after status_of decide
    decide_status is_status continue_with bootstrap_command kickstart_command print_command
    service_target is_authoritative_not_loaded stderr_says any_says_not_loaded says_not_loaded
    lines_from trim trim_start trim_end bytes render_plist escape_xml escape_char
installed_run = refl

uninstalled_run :
    (service_uninstall_and_wait decimal launchctl_bootout 501 "com.local.bridge" []).0 ≡ ok stopped
unfolding service_uninstall_and_wait service_uninstall uninstall_of wait_if_stopped step
    validate_user_id ran wait_for_service_state service_status status_after status_of decide
    decide_status is_status continue_with bootout_command print_command service_target
    is_authoritative_not_loaded stderr_says any_says_not_loaded says_not_loaded lines_from trim
    trim_start trim_end
uninstalled_run = refl

service_install_and_wait_example :
    IsInstalled decimal launchctl 501
      (found_file agent_path)
      agent
      agent_path
      []
      (service_install_and_wait decimal launchctl found_file agent agent_path 501 []).1
service_install_and_wait_example =
    service_install_and_wait_lem decimal launchctl 501 found_file agent agent_path [] installed_run

service_uninstall_and_wait_example :
    IsUninstalled decimal launchctl_bootout 501 "com.local.bridge" stopped []
      (service_uninstall_and_wait decimal launchctl_bootout 501 "com.local.bridge" []).1
service_uninstall_and_wait_example =
    IsUninstalled-service_uninstall_and_wait decimal launchctl_bootout 501 "com.local.bridge" []
      stopped uninstalled_run

PollsEnd-wait_example :
    PollsEnd decimal launchctl_bootout 501 "com.local.bridge" 3 loaded "loaded" []
      (wait_for_service_state decimal launchctl_bootout 3 501 "com.local.bridge" loaded "loaded" [])
PollsEnd-wait_example =
    PollsEnd-wait decimal launchctl_bootout 501 "com.local.bridge" 3 loaded "loaded" [] refl
