-- ===== src/Tests/Models.antt =====
-- Runs of the model catalog (src/catalog.rs).
use grok_codex_bridge.Base.{String, List, ◌≡◌, ◌≢◌, ◌↔◌, refl, some, [], ◌∷◌, map, ok, err}
use grok_codex_bridge.Base.Text.{bytes, byte_len, strip_prefix}
use grok_codex_bridge.Catalog.{
  invalid_model_id, duplicate_model_id, empty_catalog, ModelObject, model_object, bootstrap_models,
  validate_models, from_ids, CatalogSnapshot, snapshot_new, validate, cache_version,
  official_models_origin, is_model_id,
}
use grok_codex_bridge.Catalog.Laws.{IsAdmissible, validate_models_iff}
use grok_codex_bridge.Catalog.Snapshot.{validate-snapshot_new}

abbrev bootstrapped : List ModelObject
bootstrapped = map model_object bootstrap_models

bootstrap_accepted : from_ids bootstrap_models ≡ ok bootstrapped
unfolding from_ids is_model_id bytes byte_len strip_prefix
bootstrap_accepted = refl

validate_models_example :
    (validate_models bootstrap_models ≡ ok bootstrapped)
    ↔ ((bootstrap_models ≢ []) × (IsAdmissible bootstrap_models × (bootstrapped ≡ bootstrapped)))
validate_models_example = validate_models_iff bootstrap_models bootstrapped

other_vendor : validate_models ("gpt-5.4" ∷ []) ≡ err invalid_model_id
unfolding validate_models is_model_id bytes byte_len strip_prefix
other_vendor = refl

repeated : validate_models ("grok-4.5" ∷ "grok-4.5" ∷ []) ≡ err duplicate_model_id
unfolding validate_models is_model_id bytes byte_len strip_prefix
repeated = refl

no_models : validate_models [] ≡ err empty_catalog
unfolding validate_models
no_models = refl

abbrev new_models : List String
new_models = "grok-5" ∷ []

abbrev snapshot : CatalogSnapshot
snapshot = record {
  version = cache_version;
  origin = official_models_origin;
  etag = some "abc";
  models = bootstrap_models;
}

snapshot_made : snapshot_new bootstrap_models (some "abc") ≡ ok snapshot
unfolding snapshot_new is_model_id bytes byte_len strip_prefix
snapshot_made = refl

snapshot_example :
    (validate snapshot ≡ ok tt)
    × ((snapshot.models ≡ bootstrap_models) × (snapshot.etag ≡ some "abc"))
snapshot_example = validate-snapshot_new bootstrap_models (some "abc") snapshot snapshot_made
