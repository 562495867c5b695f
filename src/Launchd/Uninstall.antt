-- ===== src/Launchd/Uninstall.antt =====
-- Uninstall of src/launchd.rs: what has happened when it succeeds.
use grok_codex_bridge.Base.{
  err, ◌>>◌, ok_inj, ◌≢◌, nat_eq, Result, ok_of_bind, sym, ap, ◌∙◌, Bool-cases, ok, ℕ, String, ◌≡◌,
  refl, ◌⊎◌, inl, inr, true, false, Option, none, some, List, [], ◌∷◌, arith, ◌==◌, eq_iff,
}
use grok_codex_bridge.Launchd.{
  LaunchdError, bootout, ServiceUninstallOutcome, not_loaded, stopped, already_stopped,
}
use grok_codex_bridge.Launchd.Laws.{decide-not_loaded, wait-IsReached, Succeeds, IsReached}
use grok_codex_bridge.Launchd.Admission.Laws.{step-ok, ran-ok, not_root}
use grok_codex_bridge.Launchd.Poll.{
  ran, service_uninstall, wait_if_stopped, service_uninstall_and_wait, uninstall_of, Run,
}
use grok_codex_bridge.Launchd.Runner.{
  LaunchctlCommand, bootout_command, LaunchctlOutcome, lines_from, says_not_loaded,
  any_says_not_loaded, stderr_says, is_authoritative_not_loaded,
}
use mathlib.Core.Path.{subst}
use Prim.Native.String.{◌++◌}
use grok_codex_bridge.Base.Trim.{trim}
use mathlib.Core.List.{mem-cons_self, mem-cons_of_mem, Mem}

-- Some line of the standard error, trimmed, is the one text or, of a bootout, the other.
abbrev pub SaysMissing : String → Option String → Type 0
SaysMissing missing stderr =
    (text : String) × (line : String) × (stderr ≡ some text)
    × Mem line (lines_from "" text)
    × ((trim line ≡ missing) ⊎ (trim line ≡ "Boot-out failed: 3: No such process"))

says_not_loaded-line :
    (missing line : String)
    → says_not_loaded bootout missing line ≡ true
    → (trim line ≡ missing) ⊎ (trim line ≡ "Boot-out failed: 3: No such process")
unfolding says_not_loaded
says_not_loaded-line missing line h = elim (Bool-cases (trim line == missing)) [
  | inl same ↦ inl ((eq_iff (trim line) missing).0 same)
  | inr other ↦ inr ((eq_iff (trim line) "Boot-out failed: 3: No such process").0 (ground arith))
]

any_says_not_loaded-line :
    (missing : String) (lines : List String)
    → any_says_not_loaded bootout missing lines ≡ true
    → (line : String) × Mem line lines
      × ((trim line ≡ missing) ⊎ (trim line ≡ "Boot-out failed: 3: No such process"))
unfolding any_says_not_loaded
any_says_not_loaded-line missing [] h = ground arith
any_says_not_loaded-line missing (line ∷ lines) h =
    elim (Bool-cases (says_not_loaded bootout missing line)) [
      | inl says ↦ (line, mem-cons_self, says_not_loaded-line missing line says)
      | inr silent ↦
          let (later, m, said) = any_says_not_loaded-line missing lines (ground arith) in
          (later, mem-cons_of_mem line m, said)
    ]

SaysMissing-stderr_says :
    (missing : String) (stderr : Option String)
    → stderr_says bootout missing stderr ≡ true
    → SaysMissing missing stderr
unfolding stderr_says
SaysMissing-stderr_says missing none h = ground arith
SaysMissing-stderr_says missing (some text) h =
    let (line, m, said) = any_says_not_loaded-line missing (lines_from "" text) h in
    (text, line, refl, m, said)

then_stopped :
    (m : Result LaunchdError (Unit {0})) {result : ServiceUninstallOutcome}
    → (m >> ok stopped) ≡ ok result
    → (m ≡ ok tt) × (result ≡ stopped)
then_stopped (ok u) h = (refl, sym (ok_inj h))
then_stopped (err e) h = ground arith

stopped≢already_stopped : already_stopped ≢ stopped
stopped≢already_stopped h = ground arith

module _ (decimal : ℕ → String) where
  -- What the outcome of a bootout says of it.
  abbrev pub Explains : ℕ → String → LaunchctlOutcome → ServiceUninstallOutcome → Type 0
  Explains uid label outcome stopped = outcome.success ≡ true
  Explains uid label outcome already_stopped =
      (outcome.success ≡ false)
      × SaysMissing
          ("Could not find service \"" ++ label ++ "\" in domain for user gui: " ++ decimal uid)
          outcome.stderr

  Explains-uninstall_of :
      (uid : ℕ) (label : String) (outcome : LaunchctlOutcome) (result : ServiceUninstallOutcome)
      → uninstall_of decimal uid label outcome ≡ ok result
      → Explains uid label outcome result
  unfolding uninstall_of is_authoritative_not_loaded
  Explains-uninstall_of uid label outcome stopped h = elim (Bool-cases outcome.success) [
    | inl good ↦ good
    | inr bad ↦ ground arith
  ]
  Explains-uninstall_of uid label outcome already_stopped h = elim (Bool-cases outcome.success) [
    | inl good ↦ ground arith
    | inr bad ↦ (bad, SaysMissing-stderr_says _ _ (ground arith))
  ]

  module _ (run : List LaunchctlCommand → LaunchctlCommand → Result String LaunchctlOutcome)
      (uid : ℕ) (label : String) where
    -- What a finished uninstall has run and seen.
    abbrev pub IsUninstalled :
        ServiceUninstallOutcome → List LaunchctlCommand → List LaunchctlCommand → Type 0
    IsUninstalled stopped before after =
        Succeeds decimal run before (bootout_command decimal uid label)
        × IsReached decimal run uid label not_loaded (bootout_command decimal uid label ∷ before)
            after
    IsUninstalled already_stopped before after =
        (outcome : LaunchctlOutcome) × (run before (bootout_command decimal uid label) ≡ ok outcome)
        × (outcome.success ≡ false)
        × SaysMissing
            ("Could not find service \"" ++ label ++ "\" in domain for user gui: " ++ decimal uid)
            outcome.stderr
        × (after ≡ bootout_command decimal uid label ∷ before)

    service_uninstall-ok :
        (log : List LaunchctlCommand) (result : ServiceUninstallOutcome)
        → (service_uninstall decimal run uid label log).0 ≡ ok result
        → (nat_eq uid 0 ≡ false)
          × (outcome : LaunchctlOutcome) × (run log (bootout_command decimal uid label)
              ≡ ok outcome)
          × Explains uid label outcome result
          × ((service_uninstall decimal run uid label log).1
              ≡ bootout_command decimal uid label ∷ log)
    unfolding service_uninstall
    service_uninstall-ok log result h =
        let (u, valid, same) = step-ok _ _ _ result h in
        let (outcome, r, e) =
          ok_of_bind (ran bootout (run log (bootout_command decimal uid label)))
            (uninstall_of decimal uid label) (sym (ap (λ w. w.0) same) ∙ h) in
        (
          not_root uid valid,
          outcome,
          ran-ok bootout _ outcome r,
          Explains-uninstall_of uid label outcome result e,
          ap (λ w. w.1) same,
        )

    IsUninstalled-wait_if_stopped :
        (outcome : LaunchctlOutcome) (before log : List LaunchctlCommand)
        (first result : ServiceUninstallOutcome)
        → nat_eq uid 0 ≡ false
        → run before (bootout_command decimal uid label) ≡ ok outcome
        → Explains uid label outcome first
        → log ≡ bootout_command decimal uid label ∷ before
        → (wait_if_stopped decimal run uid label log first).0 ≡ ok result
        → IsUninstalled result before (wait_if_stopped decimal run uid label log first).1
    unfolding wait_if_stopped
    IsUninstalled-wait_if_stopped outcome before log stopped stopped plain r e same h =
        let (waited, u) = then_stopped _ h in
        (
          (outcome, r, e),
          subst
              (λ ran_before.
                IsReached decimal run uid label not_loaded ran_before
                  (wait_if_stopped decimal run uid label log stopped).1)
              same
              (wait-IsReached decimal run uid label not_loaded "not_loaded" log plain
                decide-not_loaded waited),
        )
    IsUninstalled-wait_if_stopped outcome before log stopped already_stopped plain r e same h =
        absurd (stopped≢already_stopped (then_stopped _ h).1)
    IsUninstalled-wait_if_stopped outcome before log already_stopped stopped plain r e same h =
        ground arith
    IsUninstalled-wait_if_stopped outcome before log already_stopped already_stopped plain r
          (bad, says) same h =
        (outcome, r, bad, says, same)

    -- An uninstall that succeeds either had a bootout that succeeded and then saw the service gone within
    -- 100 polls, or ran the bootout alone, which failed with words that the service is not there.
    pub IsUninstalled-service_uninstall_and_wait :
        (log : List LaunchctlCommand) (result : ServiceUninstallOutcome)
        → (service_uninstall_and_wait decimal run uid label log).0 ≡ ok result
        → IsUninstalled result log (service_uninstall_and_wait decimal run uid label log).1
    unfolding service_uninstall_and_wait
    IsUninstalled-service_uninstall_and_wait log result h =
        let (first, done, same) = step-ok _ _ _ result h in
        let (plain, outcome, r, e, after) = service_uninstall-ok log first done in
        subst (λ (w : Run ServiceUninstallOutcome). IsUninstalled result log w.1) (sym same)
          (IsUninstalled-wait_if_stopped outcome log (service_uninstall decimal run uid label log).1
            first result plain r e after (sym (ap (λ w. w.0) same) ∙ h))
