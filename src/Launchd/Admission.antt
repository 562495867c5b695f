-- ===== src/Launchd/Admission.antt =====
-- The checks of src/launchd.rs before a property list is given to launchctl.
use Prim.Native.String.{◌++◌}
use grok_codex_bridge.Base.{
  ◌>>◌, leb, nat_eq, length, Result, ok, err, guard, ℕ, ◌*◌, ◌%◌, String, Bool, true, false, ◌&&◌,
  List, [], ◌∷◌,
}
use grok_codex_bridge.Base.Text.{bytes}
use grok_codex_bridge.Launchd.{
  LaunchdError, launch_agent_filename_mismatch, launch_agent_read, unsafe_launch_agent_file_type,
  unsafe_launch_agent_permissions, launch_agent_too_large, launch_agent_content_mismatch,
  validate_user_id,
}
use grok_codex_bridge.Launchd.Runner.{LaunchAgentFile}
use grok_codex_bridge.Launchd.Spec.{
  components, file_name_of, is_file_name, validate_path, LaunchAgentSpec, render_plist,
}
pub mod Laws

unfoldable pub equal_bytes : List ℕ → List ℕ → Bool
equal_bytes [] [] = true
equal_bytes [] (c ∷ cs) = false
equal_bytes (b ∷ bs) [] = false
equal_bytes (b ∷ bs) (c ∷ cs) = nat_eq b c && equal_bytes bs cs

unfoldable pub admit_content :
    LaunchAgentSpec → Result String (List ℕ) → Result LaunchdError (Unit {0})
admit_content spec (err kind) = err (launch_agent_read kind)
admit_content spec (ok actual) =
    guard (leb (length actual) (1024 * 1024)) launch_agent_too_large
    >> guard (equal_bytes actual (bytes (render_plist spec))) launch_agent_content_mismatch

unfoldable pub admit_file :
    LaunchAgentSpec → Result String LaunchAgentFile → Result LaunchdError (Unit {0})
admit_file spec (err kind) = err (launch_agent_read kind)
admit_file spec (ok file) =
    guard file.is_file unsafe_launch_agent_file_type
    >> guard (nat_eq (file.mode % 0o10000) 0o644) unsafe_launch_agent_permissions
    >> guard (leb file.size (1024 * 1024)) launch_agent_too_large
    >> admit_content spec file.content

-- `admit_launch_agent`, given what is found at a path
unfoldable pub admit_launch_agent :
    (String → Result String LaunchAgentFile)
    → LaunchAgentSpec
    → String
    → Result LaunchdError (Unit {0})
admit_launch_agent open_file spec plist_path =
    guard (is_file_name (spec.label ++ ".plist") (file_name_of (components plist_path)))
      launch_agent_filename_mismatch
    >> admit_file spec (open_file plist_path)

-- The checks before the first command.
unfoldable pub admission :
    (String → Result String LaunchAgentFile)
    → LaunchAgentSpec
    → String
    → ℕ
    → Result LaunchdError (Unit {0})
admission open_file spec plist_path uid =
    validate_user_id uid
    >> validate_path "LaunchAgent plist" plist_path
    >> admit_launch_agent open_file spec plist_path
