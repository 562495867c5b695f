-- ===== src/Maintenance/Laws.antt =====
-- What a synchronization of src/main.rs publishes, and from which files.
use grok_codex_bridge.Base.{
  nat_eq, Bool-cases, if_else, Result, ok, err, ℕ, zero, suc, ◌+◌, ◌<◌, String, ◌≡◌, refl, ◌⊎◌, inl,
  inr, Bool, true, false, not, ◌||◌, Option, none, some, List, arith, ◌==◌, eq_iff,
}
use grok_codex_bridge.Maintenance.{
  ArtifactIdentity, FileStamp, OpenedFile, Disk, CatalogInputWatch, CatalogMaintenanceError,
  inputs_changed_during_sync, verify_content, verify_opened, read_verified, first_stamp,
  input_changed, with_grok, inputs_changed, routing, inspect, lifecycle,
}
use grok_codex_bridge.Maintenance.Sync.{
  PickerSyncReceipt, catalog_sync_max_attempts, new_watch, Synced, published, after_look, attempt,
  attempts_from, sync_runtime_picker,
}
use grok_codex_bridge.Server.Publish.{RoutingUpdateError, replace_catalog, Routing}
use grok_codex_bridge.Server.Publish.Laws.{IsWhole, IsPublished, IsWhole-replace_catalog}
use mathlib.Core.Path.{subst}

first_stamp-false :
    (r : Result String (Option FileStamp))
    → (first_stamp r).0 ≡ ok false
    → (stamp : FileStamp) × (r ≡ ok (some stamp))
first_stamp-false (err e) h = ground arith
first_stamp-false (ok none) h = ground arith
first_stamp-false (ok (some stamp)) h = (stamp, refl)

next : (n left : ℕ) → (n + 1) + left ≡ n + suc left
next n left = omega arith

module _ (sha256_hex : List ℕ → String) where
  -- A regular file of the length and the digest that are recorded.
  abbrev pub IsVerified : Disk → ArtifactIdentity → Type 0
  IsVerified disk identity =
      (file : OpenedFile) × (content : List ℕ) × (disk.open_file identity.path ≡ ok file)
      × (file.is_file ≡ true)
      × (file.stamp.length ≡ identity.byte_len)
      × (file.content ≡ ok content)
      × (sha256_hex content ≡ identity.sha256)

  verify_content-some :
      (identity : ArtifactIdentity) (stamp verified : FileStamp) (found : Result String (List ℕ))
      → verify_content sha256_hex identity stamp found ≡ ok (some verified)
      → (content : List ℕ) × (found ≡ ok content) × (sha256_hex content ≡ identity.sha256)
  unfolding verify_content
  verify_content-some identity stamp verified (err e) h = ground arith
  verify_content-some identity stamp verified (ok content) h =
      elim (Bool-cases (sha256_hex content == identity.sha256)) [
        | inl same ↦ (content, refl, (eq_iff (sha256_hex content) identity.sha256).0 same)
        | inr other ↦ ground arith
      ]

  IsVerified-verify_opened :
      (disk : Disk) (identity : ArtifactIdentity) (opened : Result String OpenedFile)
      (stamp : FileStamp)
      → disk.open_file identity.path ≡ opened
      → verify_opened sha256_hex identity opened ≡ ok (some stamp)
      → IsVerified disk identity
  unfolding verify_opened
  IsVerified-verify_opened disk identity (err e) stamp at h = ground arith
  IsVerified-verify_opened disk identity (ok file) stamp at h =
      elim (Bool-cases (not file.is_file || not (nat_eq file.stamp.length identity.byte_len))) [
        | inl odd ↦ ground arith
        | inr fits ↦
            let (content, found, digest) =
              verify_content-some identity file.stamp stamp file.content
                (if_else _ (ok none) _ _ fits h) in
            (file, content, at, ground arith, ground arith, found, digest)
      ]

  IsVerified-input_changed :
      (disk : Disk) (identity : ArtifactIdentity)
      → (input_changed sha256_hex disk identity none).0 ≡ ok false
      → IsVerified disk identity
  unfolding input_changed read_verified
  IsVerified-input_changed disk identity h =
      let (stamp, read) =
        first_stamp-false (verify_opened sha256_hex identity (disk.open_file identity.path)) h in
      IsVerified-verify_opened disk identity (disk.open_file identity.path) stamp refl read

  with_grok-false :
      (disk : Disk) (watch : CatalogInputWatch) (r : Result String Bool)
      → (with_grok sha256_hex disk watch r).0 ≡ ok false
      → (r ≡ ok false)
        × ((input_changed sha256_hex disk watch.grok_catalog watch.grok_stamp).0 ≡ ok false)
  unfolding with_grok
  with_grok-false disk watch (err e) h = ground arith
  with_grok-false disk watch (ok true) h = ground arith
  with_grok-false disk watch (ok false) h = (refl, h)

  IsVerified-inputs_changed :
      (disk : Disk) (native grok : ArtifactIdentity)
      → (inputs_changed sha256_hex disk (new_watch native grok)).0 ≡ ok false
      → IsVerified disk native × IsVerified disk grok
  unfolding inputs_changed
  IsVerified-inputs_changed disk native grok h =
      let (first, second) = with_grok-false disk _ _ h in
      (IsVerified-input_changed disk native first, IsVerified-input_changed disk grok second)

  module _ (receipts : ℕ → Result String (Option PickerSyncReceipt)) (disks : ℕ → Disk) where
    -- Nothing is published and nothing live changes; or an attempt found both files as its receipt
    -- records them, and then both halves of the routing state were published from that receipt.
    abbrev pub IsSynced : ℕ → Routing → Synced → Type 0
    IsSynced bound before (r, after) =
        ((((e : CatalogMaintenanceError) × (r ≡ err e)) ⊎ (r ≡ ok none)) × (after ≡ before))
        ⊎ ((k : ℕ) × (receipt : PickerSyncReceipt) × (watch : CatalogInputWatch) × (k < bound)
            × (receipts k ≡ ok (some receipt))
            × (r ≡ ok (some (receipt.changed, watch)))
            × (IsVerified (disks k) receipt.native_catalog
                × IsVerified (disks k) receipt.grok_catalog)
            × IsPublished before receipt.grok_model_ids receipt.native_route after)

    IsSynced-published :
        (bound n : ℕ) (before : Routing) (receipt : PickerSyncReceipt) (watch : CatalogInputWatch)
        (outcome : Result RoutingUpdateError (Unit {0}) × Routing)
        → n < bound
        → receipts n ≡ ok (some receipt)
        → IsVerified (disks n) receipt.native_catalog × IsVerified (disks n) receipt.grok_catalog
        → IsWhole before receipt.grok_model_ids receipt.native_route outcome
        → IsSynced bound before (published receipt.changed watch outcome)
    IsSynced-published bound n before receipt watch (err e, after) l at files (inl (f, r, same)) =
        inl (inl (routing e, refl), same)
    IsSynced-published bound n before receipt watch (err e, after) l at files (inr (r, made)) =
        ground arith
    IsSynced-published bound n before receipt watch (ok u, after) l at files (inl (f, r, same)) =
        ground arith
    IsSynced-published bound n before receipt watch (ok u, after) l at files (inr (r, made)) =
        inr (n, receipt, watch, l, at, refl, files, made)

    IsSynced-after_look :
        (bound n : ℕ) (before : Routing) (receipt : PickerSyncReceipt) (watch : CatalogInputWatch)
        (looked : Result String Bool) (rest : Synced)
        → n < bound
        → receipts n ≡ ok (some receipt)
        → (inputs_changed sha256_hex
            (disks n)
            (new_watch receipt.native_catalog receipt.grok_catalog)).0
          ≡ looked
        → IsSynced bound before rest
        → IsSynced bound before (after_look before receipt looked watch rest)
    unfolding after_look
    IsSynced-after_look bound n before receipt watch (err e) rest l at same later =
        inl (inl (inspect e, refl), refl)
    IsSynced-after_look bound n before receipt watch (ok true) rest l at same later = later
    IsSynced-after_look bound n before receipt watch (ok false) rest l at same later =
        IsSynced-published bound n before receipt watch
          (replace_catalog before receipt.grok_model_ids receipt.native_route) l at
          (IsVerified-inputs_changed (disks n) receipt.native_catalog receipt.grok_catalog same)
          (IsWhole-replace_catalog before receipt.grok_model_ids receipt.native_route)

    IsSynced-attempt :
        (bound n : ℕ) (before : Routing) (given : Result String (Option PickerSyncReceipt))
        (rest : Synced)
        → n < bound
        → receipts n ≡ given
        → IsSynced bound before rest
        → IsSynced bound before (attempt sha256_hex before given (disks n) rest)
    unfolding attempt
    IsSynced-attempt bound n before (err e) rest l at later = inl (inl (lifecycle e, refl), refl)
    IsSynced-attempt bound n before (ok none) rest l at later = inl (inr refl, refl)
    IsSynced-attempt bound n before (ok (some receipt)) rest l at later =
        IsSynced-after_look bound n before receipt _ _ rest l at refl later

    IsSynced-attempts_from :
        (left n : ℕ) (before : Routing)
        → IsSynced (n + left) before (attempts_from sha256_hex receipts disks left n before)
    unfolding attempts_from
    IsSynced-attempts_from zero n before = inl (inl (inputs_changed_during_sync, refl), refl)
    IsSynced-attempts_from (suc left) n before =
        IsSynced-attempt (n + suc left) n before (receipts n) _ (omega arith) refl (
          subst
            (λ bound.
              IsSynced bound before (attempts_from sha256_hex receipts disks left (n + 1) before))
            (next n left) (IsSynced-attempts_from left (n + 1) before))

    -- A synchronization gives an error or finds no picker and leaves both live halves as they were; or one
    -- of its three attempts found both input files as the receipt records them, and both halves are then
    -- those of that receipt.
    pub IsSynced-sync_runtime_picker :
        (before : Routing)
        → IsSynced catalog_sync_max_attempts before
            (sync_runtime_picker sha256_hex receipts disks before)
    unfolding sync_runtime_picker
    IsSynced-sync_runtime_picker before = IsSynced-attempts_from catalog_sync_max_attempts 0 before
