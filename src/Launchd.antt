-- ===== src/Launchd.antt =====
-- The launch agent of src/launchd.rs: its errors, its checks on labels and paths, and its outcomes. A
-- path is a text: one that is not UTF-8 is not modelled.
pub mod Spec
pub mod Runner
pub mod Admission
pub mod Poll
pub mod Waits
pub mod Laws
pub mod Install
pub mod Uninstall
use grok_codex_bridge.Base.{
  ℕ, zero, suc, leb, nat_eq, length, Bool, true, false, not, ◌&&◌, ◌||◌, Option, none, some, List,
  [], ◌∷◌, String, ◌==◌, if◌then◌else◌, Result, guard, ok, err, ◌>>◌,
}
use grok_codex_bridge.Base.Text.{bytes, is_ascii_alphanumeric}
use Prim.Native.Char.{code}
use Prim.Native.String

pub data LaunchctlOperation : Type 0 where
  bootstrap : LaunchctlOperation
  kickstart : LaunchctlOperation
  bootout : LaunchctlOperation
  print : LaunchctlOperation

pub data LaunchdError : Type 0 where
  invalid_label : LaunchdError
  relative_path : String → LaunchdError
  unsafe_path : String → LaunchdError
  invalid_installed_binary : LaunchdError
  launch_agent_filename_mismatch : LaunchdError
  launch_agent_read : String → LaunchdError
  unsafe_launch_agent_file_type : LaunchdError
  unsafe_launch_agent_permissions : LaunchdError
  launch_agent_too_large : LaunchdError
  launch_agent_content_mismatch : LaunchdError
  root_domain_unsupported : LaunchdError
  launchctl_io : LaunchctlOperation → String → LaunchdError
  launchctl_failed : LaunchctlOperation → Option ℕ → LaunchdError
  service_state_timeout : String → LaunchdError

pub data ServiceUninstallOutcome : Type 0 where
  stopped : ServiceUninstallOutcome
  already_stopped : ServiceUninstallOutcome

pub data ServiceStatus : Type 0 where
  loaded : ServiceStatus
  not_loaded : ServiceStatus
  failed : Option ℕ → ServiceStatus

unfoldable pub is_label_byte : ℕ → Bool
is_label_byte b = is_ascii_alphanumeric b || nat_eq b b'.' || nat_eq b b'-' || nat_eq b b'_'

unfoldable pub all_label_bytes : List ℕ → Bool
all_label_bytes [] = true
all_label_bytes (b ∷ bs) = is_label_byte b && all_label_bytes bs

unfoldable pub validate_label : String → Result LaunchdError (Unit {0})
validate_label label =
    guard (not (label == "") && leb (length (bytes label)) 255 && all_label_bytes (bytes label))
      invalid_label

unfoldable pub validate_user_id : ℕ → Result LaunchdError (Unit {0})
validate_user_id uid = guard (not (nat_eq uid 0)) root_domain_unsupported
