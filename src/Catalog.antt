-- ===== src/Catalog.antt =====
-- The model catalog of src/catalog.rs: the check of its identifiers, the list that the bridge holds, and
-- the snapshot that the cache keeps.
use grok_codex_bridge.Base.{
  leb, nat_eq, if◌then◌else◌, all, any, is_some, Result, ok, err, ◌>>=◌, map_ok, guard, ◌>>◌, ℕ,
  ◌*◌, String, Bool, not, ◌&&◌, ◌||◌, Option, none, some, List, [], ◌∷◌, ◌++◌, map, ◌==◌,
}
use grok_codex_bridge.Base.{
  String, List, ℕ, Bool, Option, none, some, [], ◌∷◌, ◌++◌, ◌&&◌, ◌||◌, not, if◌then◌else◌, leb,
  nat_eq, ◌==◌, all, any, map, is_some, Result, ok, err, guard, map_ok, ◌>>=◌,
}
use grok_codex_bridge.Base.Text.{bytes, byte_len, is_ascii_alphanumeric, strip_prefix}
use grok_codex_bridge.Protocol.Input.{contains}
pub mod Laws
pub mod Snapshot

pub data CatalogError : Type 0 where
  empty_catalog : CatalogError
  invalid_model_id : CatalogError
  duplicate_model_id : CatalogError
  invalid_cache_path : CatalogError
  cache_parent_not_directory : CatalogError
  cache_file_not_regular : CatalogError
  insecure_cache_permissions : ℕ → CatalogError
  unsupported_cache_version : ℕ → CatalogError
  wrong_cache_origin : CatalogError
  invalid_etag : CatalogError
  cache_read : String → CatalogError
  cache_write : String → CatalogError
  malformed_cache : String → CatalogError

pub record ModelObject : Type 0 where
  pub id : String
  pub object : String
  pub owned_by : String

abbrev pub model_object : String → ModelObject
model_object id = record { id = id; object = "model"; owned_by = "xai" }

abbrev is_model_byte : ℕ → Bool
is_model_byte b = is_ascii_alphanumeric b || nat_eq b b'.' || nat_eq b b'-' || nat_eq b b'_'

unfoldable pub is_model_id : String → Bool
unfolding bytes byte_len strip_prefix
is_model_id id =
    leb 6 (byte_len id)
    && leb (byte_len id) 128
    && is_some (strip_prefix "grok-" id)
    && all is_model_byte (bytes id)

-- The loop of `validate_models`, with `seen` and `admitted`.
unfoldable pub admit_from :
    List String → List ModelObject → List String → Result CatalogError (List ModelObject)
admit_from seen admitted [] = ok admitted
admit_from seen admitted (id ∷ ids) =
    let rest = admit_from (id ∷ seen) (admitted ++ model_object id ∷ []) ids in
    if not (is_model_id id)
    then err invalid_model_id
    else if contains seen id
    then err duplicate_model_id
    else rest

abbrev pub nonempty_models : List ModelObject → Result CatalogError (List ModelObject)
nonempty_models [] = err empty_catalog
nonempty_models (m ∷ ms) = ok (m ∷ ms)

unfoldable pub validate_models : List String → Result CatalogError (List ModelObject)
unfolding admit_from
validate_models models = admit_from [] [] models >>= nonempty_models

unfoldable pub validate_model_ids : List String → Result CatalogError (List String)
unfolding validate_models
validate_model_ids models = map_ok (map (λ m. m.id)) (validate_models models)

-- `value.contains(['\r', '\n'])`, by bytes
abbrev is_line_end : ℕ → Bool
is_line_end b = nat_eq b 13 || nat_eq b 10

unfoldable pub validate_etag : Option String → Result CatalogError (Unit {0})
unfolding bytes
validate_etag none = ok tt
validate_etag (some value) =
    if value == "" || any is_line_end (bytes value) then err invalid_etag else ok tt

-- `ModelCatalog`: the list behind the lock. `prepare_update` and `commit` are one step under it.
abbrev pub bootstrap_models : List String
bootstrap_models = "grok-4.6" ∷ "grok-4.5" ∷ []

unfoldable pub from_ids : List String → Result CatalogError (List ModelObject)
unfolding validate_models
from_ids models = validate_models models

abbrev pub commit : List ModelObject → List ModelObject → List ModelObject
commit current candidate = candidate

abbrev pub finish :
    List ModelObject
    → Result CatalogError (List ModelObject)
    → Result CatalogError (Unit {0}) × List ModelObject
finish current (ok candidate) = (ok tt, commit current candidate)
finish current (err e) = (err e, current)

unfoldable pub replace :
    List ModelObject → List String → Result CatalogError (Unit {0}) × List ModelObject
unfolding validate_models
replace current models = finish current (validate_models models)

-- `CatalogRead::contains`
unfoldable pub has_model : List ModelObject → String → Bool
has_model models model = any (λ candidate. candidate.id == model) models

abbrev pub cache_version : ℕ
cache_version = 1

abbrev pub official_models_origin : String
official_models_origin = "https://cli-chat-proxy.grok.com/v1/models"

pub record CatalogSnapshot : Type 0 where
  pub version : ℕ
  pub origin : String
  pub etag : Option String
  pub models : List String

unfoldable pub snapshot_new : List String → Option String → Result CatalogError CatalogSnapshot
unfolding validate_model_ids validate_etag
snapshot_new models etag = do
  ids ← validate_model_ids models
  checked ← validate_etag etag
  ok (record {
    version = cache_version;
    origin = official_models_origin;
    etag = etag;
    models = ids;
  })

unfoldable pub validate : CatalogSnapshot → Result CatalogError (Unit {0})
unfolding validate_model_ids validate_etag
validate s = do
  version ← guard (nat_eq s.version cache_version) (unsupported_cache_version s.version)
  origin ← guard (s.origin == official_models_origin) wrong_cache_origin
  etag ← validate_etag s.etag
  models ← validate_model_ids s.models
  ok tt
