-- ===== src/Launchd/Spec.antt =====
-- `LaunchAgentSpec` of src/launchd.rs: the checks on its paths and its property list.
use grok_codex_bridge.Base.{
  ℕ, leb, nat_eq, Bool, true, false, not, ◌&&◌, ◌||◌, Option, none, some, List, [], ◌∷◌, String,
  ◌==◌, if◌then◌else◌, Result, guard, ok, ◌>>◌,
}
use grok_codex_bridge.Launchd.{
  LaunchdError, relative_path, unsafe_path, invalid_installed_binary, validate_label,
}
use Prim.Native.Char.{code, Char}
use Prim.Native.String.{◌++◌}

-- The parts between slashes, the empty ones included.
unfoldable pub parts_from : String → String → List String
parts_from part String.[] = part ∷ []
parts_from part (String.◌∷◌ c s) =
    let next = parts_from "" s in
    let same = parts_from (part ++ String.◌∷◌ c "") s in
    if nat_eq (code c) b'/' then part ∷ next else same

-- `Path::components` of an absolute path, less the root: an empty part and a `.` are skipped.
unfoldable pub components_of : List String → List String
components_of [] = []
components_of (part ∷ parts) =
    let rest = components_of parts in if part == "" || part == "." then rest else part ∷ rest

unfoldable pub components : String → List String
components path = components_of (parts_from "" path)

unfoldable pub is_absolute : String → Bool
is_absolute String.[] = false
is_absolute (String.◌∷◌ c s) = nat_eq (code c) b'/'

-- `char::is_control`
unfoldable pub is_control : ℕ → Bool
is_control c = leb c 0x1f || (leb 0x7f c && leb c 0x9f)

unfoldable pub any_control : String → Bool
any_control String.[] = false
any_control (String.◌∷◌ c s) = is_control (code c) || any_control s

unfoldable pub has_part : String → List String → Bool
has_part name [] = false
has_part name (part ∷ parts) = part == name || has_part name parts

-- `Path::file_name`: the last component, unless it is `..`.
unfoldable pub file_name_of : List String → Option String
file_name_of [] = none
file_name_of (part ∷ []) = if part == ".." then none else some part
file_name_of (part ∷ next ∷ parts) = file_name_of (next ∷ parts)

unfoldable pub is_file_name : String → Option String → Bool
is_file_name name none = false
is_file_name name (some part) = part == name

unfoldable pub has_file_name : Option String → Bool
has_file_name none = false
has_file_name (some part) = true

unfoldable pub validate_path : String → String → Result LaunchdError (Unit {0})
validate_path field path =
    guard (is_absolute path) (relative_path field)
    >> guard (not (path == "" || any_control path)) (unsafe_path field)
    >> guard
        (not (has_part ".." (components path)) && has_file_name (file_name_of (components path)))
        (unsafe_path field)

unfoldable pub validate_installed_binary : String → Result LaunchdError (Unit {0})
validate_installed_binary path =
    guard
      (is_file_name "grok-codex-bridge" (file_name_of (components path))
        && not (has_part "target" (components path) || has_part ".build" (components path)))
      invalid_installed_binary

pub record LaunchAgentSpec : Type 0 where
  pub label : String
  pub installed_binary : String
  pub bridge_config : String
  pub stdout_log : String
  pub stderr_log : String

-- `LaunchAgentSpec::new`
unfoldable pub new_spec :
    String → String → String → String → String → Result LaunchdError LaunchAgentSpec
new_spec label installed_binary bridge_config stdout_log stderr_log =
    validate_label label
    >> validate_path "installed binary" installed_binary
    >> validate_installed_binary installed_binary
    >> validate_path "bridge config" bridge_config
    >> validate_path "stdout log" stdout_log
    >> validate_path "stderr log" stderr_log
    >> ok (record {
      label = label;
      installed_binary = installed_binary;
      bridge_config = bridge_config;
      stdout_log = stdout_log;
      stderr_log = stderr_log;
    })

unfoldable pub escape_char : Char → String
escape_char c =
    if nat_eq (code c) b'&'
    then "&amp;"
    else if nat_eq (code c) b'<'
    then "&lt;"
    else if nat_eq (code c) b'>'
    then "&gt;"
    else if nat_eq (code c) b'"'
    then "&quot;"
    else if nat_eq (code c) b'\''
    then "&apos;"
    else String.◌∷◌ c ""

unfoldable pub escape_xml : String → String
escape_xml String.[] = ""
escape_xml (String.◌∷◌ c s) = escape_char c ++ escape_xml s

-- The pieces of the property list around the five texts.
abbrev pub plist_label : String
plist_label =
    "<?xml version=\"1.0\" encoding=\"UTF-8\"?>\n<!DOCTYPE plist PUBLIC \"-//Apple//DTD PLIST 1.0//EN\" \"http://www.apple.com/DTDs/PropertyList-1.0.dtd\">\n<plist version=\"1.0\">\n<dict>\n<key>Label</key>\n<string>"

abbrev pub plist_binary : String
plist_binary = "</string>\n<key>ProgramArguments</key>\n<array>\n<string>"

abbrev pub plist_config : String
plist_config = "</string>\n<string>run</string>\n<string>--config</string>\n<string>"

abbrev pub plist_stdout : String
plist_stdout =
    "</string>\n</array>\n<key>RunAtLoad</key>\n<true/>\n<key>KeepAlive</key>\n<true/>\n<key>ProcessType</key>\n<string>Background</string>\n<key>StandardOutPath</key>\n<string>"

abbrev pub plist_stderr : String
plist_stderr = "</string>\n<key>StandardErrorPath</key>\n<string>"

abbrev pub plist_end : String
plist_end =
    "</string>\n<key>EnvironmentVariables</key>\n<dict>\n<key>RUST_LOG</key>\n<string>info</string>\n</dict>\n</dict>\n</plist>\n"

-- The text whose bytes `render_plist` gives.
unfoldable pub render_plist : LaunchAgentSpec → String
render_plist spec =
    plist_label
    ++ escape_xml spec.label
    ++ plist_binary
    ++ escape_xml spec.installed_binary
    ++ plist_config
    ++ escape_xml spec.bridge_config
    ++ plist_stdout
    ++ escape_xml spec.stdout_log
    ++ plist_stderr
    ++ escape_xml spec.stderr_log
    ++ plist_end
