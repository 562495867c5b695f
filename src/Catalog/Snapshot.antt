-- ===== src/Catalog/Snapshot.antt =====
-- The cached snapshot of src/catalog.rs: what `new` makes passes `validate`.
use grok_codex_bridge.Base.{
  err, String, List, Option, ◌≡◌, refl, sym, ap, ◌∙◌, arith, [], ◌∷◌, map, ok, map_ok, ok_of_bind,
  ok_inj, Result,
}
use mathlib.Core.Path.{subst}
use grok_codex_bridge.Catalog.{
  cache_version, official_models_origin, ModelObject, model_object, validate_models,
  validate_model_ids, validate_etag, CatalogSnapshot, snapshot_new, validate,
}
use grok_codex_bridge.Catalog.Laws.{validate_models_iff}

id-model_object : (ids : List String) → map (λ m. m.id) (map model_object ids) ≡ ids
id-model_object [] = refl
id-model_object (id ∷ ids) = ap (λ rest. id ∷ rest) (id-model_object ids)

ok_of_map_ok :
    {E A B : Type 0} (f : A → B) (r : Result E A) {b : B}
    → map_ok f r ≡ ok b
    → (a : A) × (r ≡ ok a) × (f a ≡ b)
ok_of_map_ok f (ok a) h = (a, refl, ground arith)
ok_of_map_ok f (err e) h = ground arith

validate_model_ids-same :
    (ids names : List String) → validate_model_ids ids ≡ ok names → names ≡ ids
unfolding validate_model_ids
validate_model_ids-same ids names h =
    let (ms, accepted, named) =
      ok_of_map_ok (map (λ (m : ModelObject). m.id)) (validate_models ids) h in
    sym named
    ∙ ap (map (λ (m : ModelObject). m.id)) ((validate_models_iff ids ms).0 accepted).1.1
    ∙ id-model_object ids

abbrev made_of : List String → Option String → CatalogSnapshot
made_of models etag = record {
  version = cache_version;
  origin = official_models_origin;
  etag = etag;
  models = models;
}

validate-made_of :
    (models : List String) (etag : Option String)
    → validate_model_ids models ≡ ok models
    → validate_etag etag ≡ ok tt
    → validate (made_of models etag) ≡ ok tt
unfolding validate
validate-made_of models etag h t = rw (t, h) refl

-- A snapshot that `new` makes has the models and the tag that it was given, and passes the check that a
-- snapshot from the cache must pass.
pub validate-snapshot_new :
    (models : List String) (etag : Option String) (s : CatalogSnapshot)
    → snapshot_new models etag ≡ ok s
    → (validate s ≡ ok tt) × ((s.models ≡ models) × (s.etag ≡ etag))
unfolding snapshot_new validate
validate-snapshot_new models etag s h =
    let (ids, accepted, later) = ok_of_bind (validate_model_ids models) _ h in
    let (checked, tagged, made) = ok_of_bind (validate_etag etag) _ later in
    let same = validate_model_ids-same models ids accepted in
    let again : validate_model_ids models ≡ ok models = accepted ∙ ap ok same in
    let given : made_of models etag ≡ s =
      ap (λ names. made_of names etag) (sym same) ∙ ok_inj made in
    let checks = validate-made_of models etag again tagged in
    (
      subst (λ t. validate t ≡ ok tt) given checks,
      (ap (λ t. t.models) (sym given), ap (λ t. t.etag) (sym given)),
    )
