-- ===== src/Tests/Upkeep.antt =====
-- Runs of the upkeep of the catalogs in src/main.rs.
use grok_codex_bridge.Catalog.{validate_models, model_object}
use grok_codex_bridge.Native.Route.{grok_enabled, NativeRouteState, chatgpt_codex}
use grok_codex_bridge.Server.Publish.{is_compatible, replace_catalog, Routing}
use grok_codex_bridge.Base.{
  nat_eq, if◌then◌else◌, length, Result, ok, err, ℕ, String, ◌≡◌, refl, true, Option, some, List,
  [], ◌∷◌, map,
}
use grok_codex_bridge.Maintenance.{
  ArtifactIdentity, FileStamp, Disk, CatalogInputWatch, inputs_changed_during_sync, verify_content,
  verify_opened, read_verified, input_changed, with_grok, inputs_changed,
}
use grok_codex_bridge.Maintenance.Laws.{IsSynced, IsSynced-sync_runtime_picker}
use grok_codex_bridge.Maintenance.Sync.{
  PickerSyncReceipt, after_look, attempt, attempts_from, sync_runtime_picker,
}

abbrev hex : List ℕ → String
hex content = if nat_eq (length content) 2 then "aa" else "bb"

abbrev identity : String → ArtifactIdentity
identity path = record { path = path; byte_len = 2; sha256 = "aa" }

abbrev stamp : ℕ → FileStamp
stamp size = record { length = size; modified = some 5; device = 1; inode = 2 }

abbrev disk_of : ℕ → Disk
disk_of size = record {
  open_file = λ path. ok (record { is_file = true; stamp = stamp size; content = ok (1 ∷ 2 ∷ []) });
  stat = λ path. ok (stamp size);
}

-- The native file is replaced by a longer one before the first look, and is right before the second.
abbrev disks : ℕ → Disk
disks n = if nat_eq n 0 then disk_of 3 else disk_of 2

abbrev route : NativeRouteState
route = record {
  version = 1;
  upstream = chatgpt_codex;
  native_models = "gpt" ∷ [];
  mode = grok_enabled;
}

abbrev receipt : PickerSyncReceipt
receipt = record {
  changed = true;
  native_catalog = identity "/n";
  grok_catalog = identity "/g";
  grok_model_ids = "grok-5" ∷ [];
  native_route = route;
}

abbrev receipts : ℕ → Result String (Option PickerSyncReceipt)
receipts n = ok (some receipt)

abbrev live : Routing
live = record { models = map model_object ("grok-4.5" ∷ []); route = route }

one_attempt : attempts_from hex receipts disks 1 0 live ≡ (err inputs_changed_during_sync, live)
unfolding attempts_from attempt after_look inputs_changed input_changed read_verified verify_opened
    verify_content with_grok
one_attempt = refl

abbrev synced_watch : CatalogInputWatch
synced_watch = record {
  native_catalog = identity "/n";
  native_stamp = some (stamp 2);
  grok_catalog = identity "/g";
  grok_stamp = some (stamp 2);
}

second_attempt : sync_runtime_picker hex receipts disks live ≡ (
  ok (some (true, synced_watch)),
  record { models = map model_object ("grok-5" ∷ []); route = route },
)
unfolding sync_runtime_picker attempts_from attempt after_look inputs_changed input_changed
    read_verified verify_opened verify_content with_grok replace_catalog validate_models
    is_compatible grok_codex_bridge.Catalog.is_model_id
second_attempt = refl

IsSynced-sync_runtime_picker_example :
    IsSynced hex receipts disks 3 live (sync_runtime_picker hex receipts disks live)
IsSynced-sync_runtime_picker_example = IsSynced-sync_runtime_picker hex receipts disks live
