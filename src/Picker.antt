-- ===== src/Picker.antt =====
-- src/picker_activation.rs: publishing the picker and starting its service, and the way back when a
-- step fails.
use grok_codex_bridge.Base.{Bool, true, false, Option, some, List, [], ◌∷◌, ◌++◌, String}
pub mod Rollback

-- `ServiceStatus`
pub data ServiceStatus : Type 0 where
  loaded not_loaded status_failed : ServiceStatus

-- The stages.
pub data PickerActivationStage : Type 0 where
  inspect_prior_service stop_prior_service publish_picker : PickerActivationStage
  start_published_service verify_published_service : PickerActivationStage

-- The steps back.
pub data PickerActivationRollbackStep : Type 0 where
  stop_published_service remove_published_picker restore_prior_service :
      PickerActivationRollbackStep

-- The trait, on the state `S` of the machine: each operation changes it and may fail. The errors of
-- the operations and the receipt of the picker are left out.
pub record PickerActivationOperations (S : Type 0) : Type 0 where
  pub service_status : S → Option ServiceStatus × S
  pub stop_service : S → Bool × S
  pub publish : S → Bool × S
  pub start_service : S → Bool × S
  pub remove_picker : S → Bool × S

-- `PickerActivationReceipt` and `PickerActivationError`
pub data Activation : Type 0 where
  activated : Bool → Activation
  activation_failed : PickerActivationStage → List PickerActivationRollbackStep → Activation

abbrev pub failure_of : PickerActivationRollbackStep → Bool → List PickerActivationRollbackStep
failure_of s true = []
failure_of s false = s ∷ []

module _ {S : Type 0} (ops : PickerActivationOperations S) where
  -- `restore_prior_service`
  unfoldable pub restore : Bool → S → List PickerActivationRollbackStep × S
  restore false s = ([], s)
  restore true s = let r = ops.start_service s in (failure_of restore_prior_service r.0, r.1)

  -- `post_publication_failure`
  unfoldable pub roll_back : Bool → PickerActivationStage → S → Activation × S
  unfolding restore
  roll_back prior stage s =
      let stopped = ops.stop_service s in
      let removed = ops.remove_picker stopped.1 in
      let restored_prior = restore prior removed.1 in
      (
        activation_failed stage (
            failure_of stop_published_service stopped.0
            ++ (failure_of remove_published_picker removed.0 ++ restored_prior.0)),
        restored_prior.1,
      )

  unfoldable pub verify : Bool → Option ServiceStatus × S → Activation × S
  unfolding roll_back
  verify prior (some loaded, s) = (activated prior, s)
  verify prior (_, s) = roll_back prior verify_published_service s

  unfoldable pub after_start : Bool → Bool × S → Activation × S
  unfolding verify roll_back
  after_start prior (true, s) = verify prior (ops.service_status s)
  after_start prior (false, s) = roll_back prior start_published_service s

  unfoldable pub after_publish : Bool → Bool × S → Activation × S
  unfolding after_start restore
  after_publish prior (true, s) = after_start prior (ops.start_service s)
  after_publish prior (false, s) =
      let r = restore prior s in (activation_failed publish_picker r.0, r.1)

  unfoldable pub after_stop : Bool × S → Activation × S
  unfolding after_publish
  after_stop (true, s) = after_publish true (ops.publish s)
  after_stop (false, s) = (activation_failed stop_prior_service [], s)

  unfoldable pub after_status : Option ServiceStatus × S → Activation × S
  unfolding after_stop after_publish
  after_status (some loaded, s) = after_stop (ops.stop_service s)
  after_status (some not_loaded, s) = after_publish false (ops.publish s)
  after_status (_, s) = (activation_failed inspect_prior_service [], s)

  -- `activate_picker_with_operations`
  unfoldable pub activate_picker : S → Activation × S
  unfolding after_status
  activate_picker s = after_status (ops.service_status s)
