-- ===== src/Picker/Rollback.antt =====
-- What is left after an activation of src/picker_activation.rs, on a machine where a call that fails may
-- have done anything to what it works on.
use grok_codex_bridge.Base.{ℕ, ◌+◌, ◌≡◌, Bool, true, false, Option, none, some, [], ◌∷◌}
use grok_codex_bridge.Picker.{
  status_failed, inspect_prior_service, stop_prior_service, publish_picker, PickerActivationStage,
  start_published_service, verify_published_service, PickerActivationOperations, ServiceStatus,
  loaded, not_loaded, Activation, activated, activation_failed,
}

-- Whether the service is loaded and the picker is published, and the number of calls so far.
pub record Machine : Type 0 where
  pub service_loaded : Bool
  pub picker_published : Bool
  pub calls_made : ℕ

-- What the call of a number does: it succeeds, or it fails and leaves what it works on, the service or
-- the picker, on or off.
pub data Fate : Type 0 where
  succeeds : Fate
  fails_leaving : Bool → Fate

abbrev outcome_of : Fate → Bool → Bool × Bool
outcome_of succeeds wanted = (true, wanted)
outcome_of (fails_leaving left) wanted = (false, left)

-- A call that is to load or to stop the service, and one that is to publish or to remove the picker.
abbrev set_service : (ℕ → Fate) → Bool → Machine → Bool × Machine
set_service fate wanted m =
    let r = outcome_of (fate m.calls_made) wanted in
    (r.0, record m { service_loaded = r.1; calls_made = m.calls_made + 1 })

abbrev set_picker : (ℕ → Fate) → Bool → Machine → Bool × Machine
set_picker fate wanted m =
    let r = outcome_of (fate m.calls_made) wanted in
    (r.0, record m { picker_published = r.1; calls_made = m.calls_made + 1 })

-- A look at the service that does not succeed is an error, or the status that it failed.
abbrev status_of : Fate → Bool → Option ServiceStatus
status_of succeeds true = some loaded
status_of succeeds false = some not_loaded
status_of (fails_leaving true) on = some status_failed
status_of (fails_leaving false) on = none

abbrev pub machine_operations : (ℕ → Fate) → PickerActivationOperations Machine
machine_operations fate = record {
  service_status = λ m.
      (status_of (fate m.calls_made) m.service_loaded, record m { calls_made = m.calls_made + 1 });
  stop_service = set_service fate false;
  publish = set_picker fate true;
  start_service = set_service fate true;
  remove_picker = set_picker fate false;
}

-- What holds after a failure at a stage, if no step back failed: where the service was not to be
-- touched or was put back, it is as it was, and a picker that had been published is gone.
abbrev IsLeft : PickerActivationStage → Machine → Machine → Type 0
IsLeft inspect_prior_service m m' =
    (m'.service_loaded ≡ m.service_loaded) × (m'.picker_published ≡ m.picker_published)
IsLeft stop_prior_service m m' = m'.picker_published ≡ m.picker_published
IsLeft publish_picker m m' = m'.service_loaded ≡ m.service_loaded
IsLeft start_published_service m m' =
    (m'.service_loaded ≡ m.service_loaded) × (m'.picker_published ≡ false)
IsLeft verify_published_service m m' =
    (m'.service_loaded ≡ m.service_loaded) × (m'.picker_published ≡ false)

abbrev pub IsRolledBack : Machine → Activation × Machine → Type 0
IsRolledBack m (activation_failed stage [], m') = IsLeft stage m m'
IsRolledBack m (activation_failed stage (s ∷ steps), m') = Unit
IsRolledBack m (activated prior, m') =
    (m'.service_loaded ≡ true) × (m'.picker_published ≡ true) × (prior ≡ m.service_loaded)

module _ (fate : ℕ → Fate) (m : Machine) where
  abbrev ops : PickerActivationOperations Machine
  ops = machine_operations fate
