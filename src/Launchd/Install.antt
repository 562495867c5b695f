-- ===== src/Launchd/Install.antt =====
-- Install of src/launchd.rs: what has happened when it succeeds, and what it has run.
use grok_codex_bridge.Base.{nat_eq, Result, ok, ℕ, String, ◌≡◌, sym, ap, ◌∙◌, false, List, ◌∷◌}
use grok_codex_bridge.Launchd.Admission.Laws.{step-ok, FindsAdmitted, IsAdmitted-admission}
use grok_codex_bridge.Launchd.Laws.{
  decide-loaded, Succeeds, must_run-Succeeds, IsReached, wait-IsReached,
}
use grok_codex_bridge.Launchd.Poll.{must_run, service_install, service_install_and_wait, Run}
use grok_codex_bridge.Launchd.Runner.{
  LaunchctlCommand, LaunchctlOutcome, LaunchAgentFile, bootstrap_command, kickstart_command,
}
use grok_codex_bridge.Launchd.Spec.{LaunchAgentSpec}
use mathlib.Core.Path.{subst}
use grok_codex_bridge.Launchd.{loaded}

module _ (decimal : ℕ → String)
    (run : List LaunchctlCommand → LaunchctlCommand → Result String LaunchctlOutcome)
    (uid : ℕ) where
  -- What a finished install has run and seen: the file was admitted, the bootstrap and then the restart
  -- succeeded, and a poll saw the service loaded.
  abbrev pub IsInstalled :
      Result String LaunchAgentFile
      → LaunchAgentSpec
      → String
      → List LaunchctlCommand
      → List LaunchctlCommand
      → Type 0
  IsInstalled found spec plist_path before after =
      FindsAdmitted spec found
      × Succeeds decimal run before (bootstrap_command decimal uid plist_path)
      × Succeeds decimal run (bootstrap_command decimal uid plist_path ∷ before)
          (kickstart_command decimal uid spec.label)
      × IsReached decimal run uid spec.label loaded
          (kickstart_command decimal uid spec.label
            ∷ bootstrap_command decimal uid plist_path
            ∷ before)
          after

  service_install-ok :
      (open_file : String → Result String LaunchAgentFile) (spec : LaunchAgentSpec)
      (plist_path : String) (log : List LaunchctlCommand)
      → (service_install decimal run open_file spec plist_path uid log).0 ≡ ok tt
      → (nat_eq uid 0 ≡ false)
        × FindsAdmitted spec (open_file plist_path)
        × Succeeds decimal run log (bootstrap_command decimal uid plist_path)
        × Succeeds decimal run
            (bootstrap_command decimal uid plist_path ∷ log)
            (kickstart_command decimal uid spec.label)
        × ((service_install decimal run open_file spec plist_path uid log).1
            ≡ kickstart_command decimal uid spec.label
              ∷ bootstrap_command decimal uid plist_path
              ∷ log)
  unfolding service_install must_run
  service_install-ok open_file spec plist_path log h =
      let (u, admitted, first) = step-ok _ _ _ tt h in
      let bootstrap_step = bootstrap_command decimal uid plist_path in
      let kickstart_step = kickstart_command decimal uid spec.label in
      let (v, booted, second) = step-ok _ _ _ tt (sym (ap (λ w. w.0) first) ∙ h) in
      let kicked = sym (ap (λ w. w.0) second) ∙ sym (ap (λ w. w.0) first) ∙ h in
      let (plain, found) = IsAdmitted-admission open_file spec plist_path uid admitted in
      (
        plain,
        found,
        must_run-Succeeds decimal run bootstrap_step log booted,
        must_run-Succeeds decimal run kickstart_step (bootstrap_step ∷ log) (kicked),
        ap (λ w. w.1) first ∙ ap (λ w. w.1) second,
      )

  -- An install that succeeds found a property list that is a regular file of the mode 0644 with the
  -- content of the specification, had it bootstrapped, restarted the service, and saw it loaded within
  -- 100 polls, with no command besides.
  pub service_install_and_wait_lem :
      (open_file : String → Result String LaunchAgentFile) (spec : LaunchAgentSpec)
      (plist_path : String) (log : List LaunchctlCommand)
      → (service_install_and_wait decimal run open_file spec plist_path uid log).0 ≡ ok tt
      → IsInstalled
          (open_file plist_path)
          spec
          plist_path
          log
          (service_install_and_wait decimal run open_file spec plist_path uid log).1
  unfolding service_install_and_wait
  service_install_and_wait_lem open_file spec plist_path log h =
      let (t, installed, last) = step-ok _ _ _ tt h in
      let (plain, found, booted, kicked, after) =
        service_install-ok open_file spec plist_path log installed in
      (
        found,
        booted,
        kicked,
        subst
            (λ before.
              IsReached decimal run uid spec.label loaded before
                (service_install_and_wait decimal run open_file spec plist_path uid log).1)
            after
            (subst
              (λ (r : Run (Unit {0})).
                IsReached decimal run uid spec.label loaded
                  (service_install decimal run open_file spec plist_path uid log).1 r.1)
              (sym last)
              (wait-IsReached decimal run uid spec.label loaded "loaded" _ plain decide-loaded
                (sym (ap (λ w. w.0) last) ∙ h))),
      )
