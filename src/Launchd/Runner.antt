-- ===== src/Launchd/Runner.antt =====
-- The calls of launchctl in src/launchd.rs. The runner is a parameter: what it answers to a command after
-- those it has run, the newest first. An operation gives its result and the commands that have been run.
use grok_codex_bridge.Base.{
  ℕ, nat_eq, Bool, true, false, not, ◌&&◌, ◌||◌, Option, none, some, List, [], ◌∷◌, String, ◌==◌,
  if◌then◌else◌, Result, guard,
}
use grok_codex_bridge.Base.Trim.{trim}
use grok_codex_bridge.Launchd.{
  LaunchctlOperation, bootstrap, kickstart, bootout, print, LaunchdError, launchctl_failed,
}
use Prim.Native.Char.{code}
use Prim.Native.String.{◌++◌}

-- The number that `format!` writes is a parameter where it occurs, as `decimal`.
pub record LaunchctlCommand : Type 0 where
  pub operation : LaunchctlOperation
  pub arguments : List String

-- `LaunchctlOutcome`; the standard error is none where it is not UTF-8.
pub record LaunchctlOutcome : Type 0 where
  pub success : Bool
  pub exit_code : Option ℕ
  pub stderr : Option String

-- What `open_launch_agent` gives: a file with its type, permissions, size and content, read to one byte
-- over the bound, or the kind of the error.
pub record LaunchAgentFile : Type 0 where
  pub is_file : Bool
  pub mode : ℕ
  pub size : ℕ
  pub content : Result String (List ℕ)

-- `str::lines`, for texts that are then trimmed: the parts between line feeds.
unfoldable pub lines_from : String → String → List String
lines_from line String.[] = line ∷ []
lines_from line (String.◌∷◌ c s) =
    let next = lines_from "" s in
    let same = lines_from (line ++ String.◌∷◌ c "") s in
    if nat_eq (code c) 10 then line ∷ next else same

abbrev pub is_bootout : LaunchctlOperation → Bool
is_bootout bootout = true
is_bootout other = false

-- One line says that the service is not there.
unfoldable pub says_not_loaded : LaunchctlOperation → String → String → Bool
says_not_loaded operation missing line =
    trim line == missing
    || (is_bootout operation && trim line == "Boot-out failed: 3: No such process")

unfoldable pub any_says_not_loaded : LaunchctlOperation → String → List String → Bool
any_says_not_loaded operation missing [] = false
any_says_not_loaded operation missing (line ∷ lines) =
    says_not_loaded operation missing line || any_says_not_loaded operation missing lines

unfoldable pub stderr_says : LaunchctlOperation → String → Option String → Bool
stderr_says operation missing none = false
stderr_says operation missing (some text) =
    any_says_not_loaded operation missing (lines_from "" text)

unfoldable pub ensure_success :
    LaunchctlOperation → LaunchctlOutcome → Result LaunchdError (Unit {0})
ensure_success operation outcome =
    guard outcome.success (launchctl_failed operation outcome.exit_code)

module _ (decimal : ℕ → String) where
  unfoldable pub service_target : ℕ → String → String
  service_target uid label = "gui/" ++ decimal uid ++ "/" ++ label

  unfoldable pub bootstrap_command : ℕ → String → LaunchctlCommand
  bootstrap_command uid plist_path = record {
    operation = bootstrap;
    arguments = "bootstrap" ∷ ("gui/" ++ decimal uid) ∷ plist_path ∷ [];
  }

  unfoldable pub kickstart_command : ℕ → String → LaunchctlCommand
  kickstart_command uid label = record {
    operation = kickstart;
    arguments = "kickstart" ∷ "-k" ∷ service_target uid label ∷ [];
  }

  unfoldable pub bootout_command : ℕ → String → LaunchctlCommand
  bootout_command uid label = record {
    operation = bootout;
    arguments = "bootout" ∷ service_target uid label ∷ [];
  }

  unfoldable pub print_command : ℕ → String → LaunchctlCommand
  print_command uid label = record {
    operation = print;
    arguments = "print" ∷ service_target uid label ∷ [];
  }

  unfoldable pub is_authoritative_not_loaded :
      LaunchctlOperation → LaunchctlOutcome → ℕ → String → Bool
  is_authoritative_not_loaded operation outcome uid label =
      not outcome.success
      && stderr_says operation
          ("Could not find service \"" ++ label ++ "\" in domain for user gui: " ++ decimal uid)
          outcome.stderr
