-- ===== src/Launchd/Admission/Laws.antt =====
-- What the admission of a property list in src/launchd.rs has seen when it succeeds.
use Prim.Native.String.{◌++◌}
use grok_codex_bridge.Launchd.Admission.{
  equal_bytes, admit_content, admit_file, admit_launch_agent, admission,
}
use grok_codex_bridge.Base.{
  ◌>>◌, leb, nat_eq, length, Bool-cases, Result, ok, err, guard, ok_of_bind, ℕ, ◌*◌, ◌%◌, ◌≤◌,
  String, ◌≡◌, refl, ap, inl, inr, Bool, true, false, List, [], ◌∷◌, arith,
}
use grok_codex_bridge.Launchd.{
  launch_agent_filename_mismatch, validate_user_id, unsafe_launch_agent_file_type,
  unsafe_launch_agent_permissions, launch_agent_too_large, launch_agent_content_mismatch,
  LaunchctlOperation, LaunchdError,
}
use grok_codex_bridge.Launchd.Poll.{Run, step, ran}
use grok_codex_bridge.Launchd.Spec.{
  components, file_name_of, is_file_name, validate_path, LaunchAgentSpec, render_plist,
}
use grok_codex_bridge.Base.Text.{bytes}
use grok_codex_bridge.Launchd.Runner.{
  LaunchctlCommand, LaunchctlOutcome, LaunchAgentFile, ensure_success,
}

pub step-ok :
    {A B : Type 0} (r : Result LaunchdError A) (log : List LaunchctlCommand) (next : A → Run B)
    (b : B)
    → (step r log next).0 ≡ ok b
    → (a : A) × (r ≡ ok a) × (step r log next ≡ next a)
unfolding step
step-ok (ok a) log next b h = (a, refl, refl)
step-ok (err e) log next b h = ground arith

pub ran-ok :
    (operation : LaunchctlOperation) (answer : Result String LaunchctlOutcome)
    (outcome : LaunchctlOutcome)
    → ran operation answer ≡ ok outcome
    → answer ≡ ok outcome
unfolding ran
ran-ok operation (ok outcome) o h = ground arith
ran-ok operation (err source) o h = ground arith

pub ensure_success-ok :
    (operation : LaunchctlOperation) (outcome : LaunchctlOutcome)
    → ensure_success operation outcome ≡ ok tt
    → outcome.success ≡ true
unfolding ensure_success
ensure_success-ok operation outcome h = elim (Bool-cases outcome.success) [
  | inl good ↦ good
  | inr bad ↦ ground arith
]

equal_bytes-eq : (a b : List ℕ) → equal_bytes a b ≡ true → a ≡ b
unfolding equal_bytes
equal_bytes-eq [] [] h = refl
equal_bytes-eq [] (c ∷ b) h = ground arith
equal_bytes-eq (x ∷ a) [] h = ground arith
equal_bytes-eq (x ∷ a) (c ∷ b) h = ground (arith, equal_bytes-eq a b)

-- A regular file with the mode 0644, no larger than the bound, whose content is the list of the
-- specification.
abbrev pub IsAdmitted : LaunchAgentSpec → LaunchAgentFile → Type 0
IsAdmitted spec file =
    (file.is_file ≡ true)
    × (file.mode % 0o10000 ≡ 0o644)
    × (file.size ≤ 1024 * 1024)
    × (file.content ≡ ok (bytes (render_plist spec)))

-- The file that is found is one.
abbrev pub FindsAdmitted : LaunchAgentSpec → Result String LaunchAgentFile → Type 0
FindsAdmitted spec answer = (file : LaunchAgentFile) × (answer ≡ ok file) × IsAdmitted spec file

with_end : (m : Result LaunchdError (Unit {0})) → m ≡ ok tt → (m >> ok tt) ≡ ok tt
with_end (ok u) h = refl
with_end (err e) h = ground arith

guards-ok :
    (a b c : Bool) (e f g : LaunchdError) (m : Result LaunchdError (Unit {0}))
    → (guard a e >> guard b f >> guard c g >> m) ≡ ok tt
    → (a ≡ true) × (b ≡ true) × (c ≡ true) × (m ≡ ok tt)
guards-ok true true true e f g m h = (refl, refl, refl, h)
guards-ok true true false e f g m h = ground arith
guards-ok true false c e f g m h = ground arith
guards-ok false b c e f g m h = ground arith

IsAdmitted-admit_content :
    (spec : LaunchAgentSpec) (content : Result String (List ℕ))
    → admit_content spec content ≡ ok tt
    → content ≡ ok (bytes (render_plist spec))
unfolding admit_content
IsAdmitted-admit_content spec (err kind) h = ground arith
IsAdmitted-admit_content spec (ok actual) h =
    let (t, small, same, done) =
      guards-ok true (leb (length actual) (1024 * 1024))
        (equal_bytes actual (bytes (render_plist spec))) launch_agent_too_large
        launch_agent_too_large launch_agent_content_mismatch (ok tt) (with_end _ h) in
    ap ok (equal_bytes-eq actual (bytes (render_plist spec)) same)

IsAdmitted-admit_file :
    (spec : LaunchAgentSpec) (answer : Result String LaunchAgentFile)
    → admit_file spec answer ≡ ok tt
    → FindsAdmitted spec answer
unfolding admit_file
IsAdmitted-admit_file spec (err kind) h = ground arith
IsAdmitted-admit_file spec (ok file) h =
    let (regular, mode, small, content) =
      guards-ok file.is_file (nat_eq (file.mode % 0o10000) 0o644) (leb file.size (1024 * 1024))
        unsafe_launch_agent_file_type unsafe_launch_agent_permissions launch_agent_too_large
        (admit_content spec file.content) h in
    (
      file,
      refl,
      (regular, ground arith, ground arith, IsAdmitted-admit_content spec file.content content),
    )

pub not_root : (uid : ℕ) {u : Unit {0}} → validate_user_id uid ≡ ok u → nat_eq uid 0 ≡ false
unfolding validate_user_id
not_root uid h = elim (Bool-cases (nat_eq uid 0)) [ inl root ↦ ground arith | inr plain ↦ plain ]

pub IsAdmitted-admission :
    (open_file : String → Result String LaunchAgentFile) (spec : LaunchAgentSpec)
    (plist_path : String) (uid : ℕ)
    → admission open_file spec plist_path uid ≡ ok tt
    → (nat_eq uid 0 ≡ false) × FindsAdmitted spec (open_file plist_path)
unfolding admission validate_user_id admit_launch_agent
IsAdmitted-admission open_file spec plist_path uid h =
    let (u, valid, admitted) =
      ok_of_bind (validate_user_id uid >> validate_path "LaunchAgent plist" plist_path)
        (λ unused. admit_launch_agent open_file spec plist_path) h in
    let (v, plain, path) =
      ok_of_bind (validate_user_id uid) (λ unused. validate_path "LaunchAgent plist" plist_path)
        valid in
    let (w, named, file) =
      ok_of_bind
        (guard (is_file_name (spec.label ++ ".plist") (file_name_of (components plist_path)))
          launch_agent_filename_mismatch)
        (λ unused. admit_file spec (open_file plist_path)) admitted in
    (not_root uid plain, IsAdmitted-admit_file spec (open_file plist_path) file)
