-- ===== src/Maintenance.antt =====
-- The upkeep of the catalogs in src/main.rs: the watch on the two files that a published catalog was
-- made from, the synchronization of the picker, and one turn of the loop.
use grok_codex_bridge.Base.{
  nat_eq, if◌then◌else◌, Result, ok, err, ℕ, String, Bool, true, false, not, ◌&&◌, ◌||◌, Option,
  none, some, List, ◌==◌,
}
use grok_codex_bridge.Catalog.{CatalogError}
use grok_codex_bridge.Server.Publish.{RoutingUpdateError, Routing}
pub mod Sync
pub mod Laws

-- `ArtifactIdentity` of src/picker.rs, as the watch uses it
pub record ArtifactIdentity : Type 0 where
  pub path : String
  pub byte_len : ℕ
  pub sha256 : String

pub record FileStamp : Type 0 where
  pub length : ℕ
  pub modified : Option ℕ
  pub device : ℕ
  pub inode : ℕ

-- An opened file: its metadata, and its content or the error of a read.
pub record OpenedFile : Type 0 where
  pub is_file : Bool
  pub stamp : FileStamp
  pub content : Result String (List ℕ)

-- What is found at paths: by opening them, and by their metadata alone.
pub record Disk : Type 0 where
  pub open_file : String → Result String OpenedFile
  pub stat : String → Result String FileStamp

pub record CatalogInputWatch : Type 0 where
  pub native_catalog : ArtifactIdentity
  pub native_stamp : Option FileStamp
  pub grok_catalog : ArtifactIdentity
  pub grok_stamp : Option FileStamp

pub data CatalogMaintenanceError : Type 0 where
  lifecycle : String → CatalogMaintenanceError
  catalog : CatalogError → CatalogMaintenanceError
  routing : RoutingUpdateError → CatalogMaintenanceError
  inspect : String → CatalogMaintenanceError
  inputs_changed_during_sync : CatalogMaintenanceError

abbrev pub same_time : Option ℕ → Option ℕ → Bool
same_time none none = true
same_time (some a) (some b) = nat_eq a b
same_time _ _ = false

abbrev pub same_stamp : FileStamp → FileStamp → Bool
same_stamp a b =
    nat_eq a.length b.length
    && same_time a.modified b.modified
    && nat_eq a.device b.device
    && nat_eq a.inode b.inode

abbrev pub changed_since : FileStamp → Result String FileStamp → Result String Bool
changed_since stamp (err e) = err e
changed_since stamp (ok read) = ok (not (same_stamp read stamp))

abbrev pub first_stamp : Result String (Option FileStamp) → Result String Bool × Option FileStamp
first_stamp (err e) = (err e, none)
first_stamp (ok none) = (ok true, none)
first_stamp (ok (some verified)) = (ok false, some verified)

-- The digest is read only for a file of the right length; it is written in hexadecimal.
module _ (sha256_hex : List ℕ → String) where
  unfoldable pub verify_content :
      ArtifactIdentity → FileStamp → Result String (List ℕ) → Result String (Option FileStamp)
  verify_content identity stamp (err e) = err e
  verify_content identity stamp (ok content) =
      ok (if sha256_hex content == identity.sha256 then some stamp else none)

  unfoldable pub verify_opened :
      ArtifactIdentity → Result String OpenedFile → Result String (Option FileStamp)
  verify_opened identity (err e) = err e
  verify_opened identity (ok file) =
      if not file.is_file || not (nat_eq file.stamp.length identity.byte_len)
      then ok none
      else verify_content identity file.stamp file.content

  -- `FileStamp::read_verified`
  unfoldable pub read_verified : Disk → ArtifactIdentity → Result String (Option FileStamp)
  read_verified disk identity = verify_opened identity (disk.open_file identity.path)

  -- `input_changed`, with the stamp after it
  unfoldable pub input_changed :
      Disk → ArtifactIdentity → Option FileStamp → Result String Bool × Option FileStamp
  input_changed disk identity (some stamp) =
      (changed_since stamp (disk.stat identity.path), some stamp)
  input_changed disk identity none = first_stamp (read_verified disk identity)

  -- The second file is looked at only if the first is as it was.
  unfoldable pub with_grok :
      Disk → CatalogInputWatch → Result String Bool → Result String Bool × CatalogInputWatch
  with_grok disk watch (err e) = (err e, watch)
  with_grok disk watch (ok true) = (ok true, watch)
  with_grok disk watch (ok false) =
      let looked = input_changed disk watch.grok_catalog watch.grok_stamp in
      (looked.0, record watch { grok_stamp = looked.1 })

  unfoldable pub inputs_changed : Disk → CatalogInputWatch → Result String Bool × CatalogInputWatch
  inputs_changed disk watch =
      let looked = input_changed disk watch.native_catalog watch.native_stamp in
      with_grok disk (record watch { native_stamp = looked.1 }) looked.0
