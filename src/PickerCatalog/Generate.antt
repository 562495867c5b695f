-- ===== src/PickerCatalog/Generate.antt =====
-- `generate_picker_catalog`, `generate_native_compatibility_catalog` and
-- `with_hidden_grok_compatibility` of src/picker.rs. The reader and the printer of JSON are parameters.
use grok_codex_bridge.Base.{
  ltb, length, Result, ok, err, ok_or, ◌>>=◌, guard, ℕ, ◌+◌, ◌^◌, String, Bool, true, false, not,
  Option, List, [], ◌∷◌, ◌++◌, ◌==◌,
}
use grok_codex_bridge.Json.{
  Value, array, object, Map, to_list, of_list, get, modify, as_array, as_object, ◌and_then◌,
}
use grok_codex_bridge.Native.Route.{sort_unstable}
use grok_codex_bridge.PickerCatalog.{
  PickerError, malformed_native_catalog, invalid_native_catalog, too_many_models, serialize_catalog,
  empty_overlay, duplicate_slug,
}
use grok_codex_bridge.PickerCatalog.Entry.{validate_model_entry, grok_picker_entry}
use grok_codex_bridge.Protocol.Input.{contains}

pub record GeneratedPickerCatalog : Type 0 where
  pub bytes : List ℕ
  pub native_model_slugs : List String
  pub native_model_count : ℕ
  pub grok_model_count : ℕ

-- The check of the native entries, with the slugs so far: their slugs, in order.
unfoldable pub slugs_from : List String → ℕ → List Value → Result PickerError (List String)
slugs_from seen index [] = ok []
slugs_from seen index (model ∷ models) = do
  slug ← validate_model_entry model index
  fresh ← guard (not (contains seen slug)) (duplicate_slug slug)
  slugs ← slugs_from (slug ∷ seen) (index + 1) models
  ok (slug ∷ slugs)

-- The entries for Grok's models, with the slugs so far; `1_000 + index` has to be an `i32`.
unfoldable pub entries_from :
    String → ℕ → List String → ℕ → List String → Result PickerError (List Value)
entries_from overlay count seen index [] = ok []
entries_from overlay count seen index (id ∷ ids) = do
  fresh ← guard (not (contains seen id)) (duplicate_slug id)
  fits ← guard (ltb (1000 + index) (2 ^ 31)) too_many_models
  valid ← validate_model_entry (grok_picker_entry id (1000 + index) overlay) (count + index)
  entries ← entries_from overlay count (id ∷ seen) (index + 1) ids
  ok (grok_picker_entry id (1000 + index) overlay ∷ entries)

abbrev pub push_models : List Value → Value → Value
push_models entries (array models) = array (of_list (to_list models ++ entries))
push_models entries other = other

abbrev pub printed_error : Result String (List ℕ) → Result PickerError (List ℕ)
printed_error (ok bytes) = ok bytes
printed_error (err reason) = err (serialize_catalog reason)

abbrev is_empty : List Value → Bool
is_empty [] = true
is_empty (v ∷ vs) = false

-- The list of models in the root, which may not be empty.
unfoldable pub native_models_of : Map → Result PickerError (List Value)
native_models_of m = do
  models ←
      ok_or (invalid_native_catalog "catalog must contain a models array")
        (get m "models" and_then as_array)
  some_model ←
      guard (not (is_empty models)) (invalid_native_catalog "native models array must not be empty")
  ok models

module _ (from_slice : List ℕ → Option Value) (to_vec_pretty : Value → Result String (List ℕ)) where
  abbrev printed : Value → Result PickerError (List ℕ)
  printed v = printed_error (to_vec_pretty v)

  -- The last part: the entries are pushed, and the root is printed.
  unfoldable pub with_entries :
      Map → List Value → List String → ℕ → List Value → Result PickerError GeneratedPickerCatalog
  with_entries m models slugs grok_count entries = do
    bytes ← printed (object (modify m "models" (push_models entries)))
    ok (record {
      bytes = bytes;
      native_model_slugs = slugs;
      native_model_count = length models;
      grok_model_count = grok_count;
    })

  -- The part from the native models on, with Grok's identifiers sorted.
  unfoldable pub with_models :
      String → List String → Map → List Value → Result PickerError GeneratedPickerCatalog
  with_models overlay grok_ids m models = do
    slugs ← slugs_from [] 0 models
    entries ← entries_from overlay (length models) slugs 0 grok_ids
    with_entries m models slugs (length grok_ids) entries

  unfoldable pub with_root :
      String → List String → Value → Result PickerError GeneratedPickerCatalog
  with_root overlay grok_ids root = do
    m ← ok_or (invalid_native_catalog "catalog root must be an object") (as_object root)
    models ← native_models_of m
    with_models overlay grok_ids m models

  unfoldable pub generate_picker_catalog :
      List ℕ → List String → String → Result PickerError GeneratedPickerCatalog
  generate_picker_catalog native_catalog grok_models overlay = do
    written ← guard (not (overlay == "")) empty_overlay
    root ← ok_or malformed_native_catalog (from_slice native_catalog)
    with_root overlay (sort_unstable grok_models) root

  -- A root that is no object has no list of models.
  unfoldable pub generate_native_compatibility_catalog :
      List ℕ → Result PickerError GeneratedPickerCatalog
  generate_native_compatibility_catalog native_catalog = do
    root ← ok_or malformed_native_catalog (from_slice native_catalog)
    m ← ok_or (invalid_native_catalog "catalog must contain a models array") (as_object root)
    models ← native_models_of m
    slugs ← slugs_from [] 0 models
    ok (record {
      bytes = native_catalog;
      native_model_slugs = slugs;
      native_model_count = length models;
      grok_model_count = 0;
    })
