-- ===== src/Maintenance/Sync.antt =====
-- `sync_runtime_picker` of src/main.rs, and one turn of the loop of `maintain_catalogs`.
use grok_codex_bridge.Catalog.{CatalogError, ModelObject, replace}
use grok_codex_bridge.Base.{
  leb, if◌then◌else◌, Result, ok, err, ℕ, zero, suc, ◌+◌, String, Bool, true, false, ◌&&◌, Option,
  none, some, List,
}
use grok_codex_bridge.Maintenance.{
  ArtifactIdentity, Disk, CatalogInputWatch, CatalogMaintenanceError, inputs_changed_during_sync,
  inputs_changed, routing, inspect, catalog, lifecycle,
}
use grok_codex_bridge.Native.Route.{NativeRouteState}
use grok_codex_bridge.Server.Publish.{RoutingUpdateError, replace_catalog, Routing}

-- What `sync_installed_picker_catalog` gives of a picker that is installed.
pub record PickerSyncReceipt : Type 0 where
  pub changed : Bool
  pub native_catalog : ArtifactIdentity
  pub grok_catalog : ArtifactIdentity
  pub grok_model_ids : List String
  pub native_route : NativeRouteState

-- `CATALOG_SYNC_MAX_ATTEMPTS`
abbrev pub catalog_sync_max_attempts : ℕ
catalog_sync_max_attempts = 3

-- `CatalogInputWatch::new`
abbrev pub new_watch : ArtifactIdentity → ArtifactIdentity → CatalogInputWatch
new_watch native grok = record {
  native_catalog = native;
  native_stamp = none;
  grok_catalog = grok;
  grok_stamp = none;
}

-- The result, and the routing state after it.
abbrev pub Synced : Type 0
Synced = Result CatalogMaintenanceError (Option (Bool × CatalogInputWatch)) × Routing

-- After `replace_catalog`
abbrev pub published :
    Bool → CatalogInputWatch → Result RoutingUpdateError (Unit {0}) × Routing → Synced
published changed watch (err e, after) = (err (routing e), after)
published changed watch (ok u, after) = (ok (some (changed, watch)), after)

-- After the look at the inputs; `rest` is the next attempt.
unfoldable pub after_look :
    Routing → PickerSyncReceipt → Result String Bool → CatalogInputWatch → Synced → Synced
after_look state receipt (err e) watch rest = (err (inspect e), state)
after_look state receipt (ok true) watch rest = rest
after_look state receipt (ok false) watch rest =
    published receipt.changed watch
      (replace_catalog state receipt.grok_model_ids receipt.native_route)

module _ (sha256_hex : List ℕ → String) where
  -- One attempt, with what the picker's files give and the disk after it.
  unfoldable pub attempt :
      Routing → Result String (Option PickerSyncReceipt) → Disk → Synced → Synced
  attempt state (err e) disk rest = (err (lifecycle e), state)
  attempt state (ok none) disk rest = (ok none, state)
  attempt state (ok (some receipt)) disk rest =
      let looked =
        inputs_changed sha256_hex disk (new_watch receipt.native_catalog receipt.grok_catalog) in
      after_look state receipt looked.0 looked.1 rest

  module _ (receipts : ℕ → Result String (Option PickerSyncReceipt)) (disks : ℕ → Disk) where
    -- The attempts that are left, from the n-th on
    unfoldable pub attempts_from : ℕ → ℕ → Routing → Synced
    attempts_from zero n state = (err inputs_changed_during_sync, state)
    attempts_from (suc left) n state =
        let rest = attempts_from left (n + 1) state in attempt state (receipts n) (disks n) rest

    -- `sync_runtime_picker`, with a native route
    unfoldable pub sync_runtime_picker : Routing → Synced
    sync_runtime_picker state = attempts_from catalog_sync_max_attempts 0 state

abbrev pub with_replaced :
    Result CatalogError (Unit {0})
    → Result CatalogMaintenanceError (Option (Bool × CatalogInputWatch))
with_replaced (ok u) = ok none
with_replaced (err e) = err (catalog e)

-- `sync_runtime_picker` without a native route: the catalog follows the snapshot of the cache, given what
-- its load comes to.
unfoldable pub sync_isolated :
    List ModelObject
    → Result CatalogError (Option (List String))
    → Result CatalogMaintenanceError (Option (Bool × CatalogInputWatch)) × List ModelObject
sync_isolated models (err e) = (err (catalog e), models)
sync_isolated models (ok none) = (ok none, models)
sync_isolated models (ok (some ids)) =
    let replaced = replace models ids in (with_replaced replaced.0, replaced.1)

-- What the loop keeps: the watch, the time before which no synchronization is tried again, and whether
-- a failure has been reported.
pub record Upkeep : Type 0 where
  pub watch : Option CatalogInputWatch
  pub sync_retry_after : ℕ
  pub sync_failure_reported : Bool
  pub state : Routing

-- `CATALOG_SYNC_RETRY_INTERVAL` comes as `retry`.
unfoldable pub after_sync : ℕ → ℕ → Upkeep → Synced → Upkeep
after_sync retry now upkeep (ok (some (changed, watch)), state) = record {
  watch = some watch;
  sync_retry_after = now;
  sync_failure_reported = false;
  state = state;
}
after_sync retry now upkeep (ok none, state) = record upkeep {
  watch = none;
  sync_retry_after = now + retry;
  state = state;
}
after_sync retry now upkeep (err e, state) = record upkeep {
  sync_retry_after = now + retry;
  sync_failure_reported = true;
  state = state;
}

-- A refresh of the Grok models that was due and succeeded.
unfoldable pub after_refresh : Bool → ℕ → Upkeep → Upkeep
after_refresh true now upkeep = record upkeep { watch = none; sync_retry_after = now }
after_refresh false now upkeep = upkeep

abbrev pub unwrap_or_true : Result String Bool → Bool
unwrap_or_true (ok b) = b
unwrap_or_true (err e) = true

unfoldable pub look : (List ℕ → String) → Disk → Upkeep → Option CatalogInputWatch → Bool × Upkeep
look sha256_hex disk upkeep none = (true, upkeep)
look sha256_hex disk upkeep (some watch) =
    let looked = inputs_changed sha256_hex disk watch in
    (unwrap_or_true looked.0, record upkeep { watch = some looked.1 })

-- One turn at a time: `sync` is what a synchronization would come to.
unfoldable pub turn : (List ℕ → String) → Disk → ℕ → ℕ → Bool → (Routing → Synced) → Upkeep → Upkeep
turn sha256_hex disk retry now refreshed sync upkeep =
    let started = after_refresh refreshed now upkeep in
    let looked = look sha256_hex disk started started.watch in
    if looked.0 && leb looked.1.sync_retry_after now
    then after_sync retry now looked.1 (sync looked.1.state)
    else looked.1
