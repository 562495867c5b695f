-- ===== src/PickerCatalog/Hidden.antt =====
-- `with_hidden_grok_compatibility` of src/picker.rs: hidden entries for saved tasks of Grok, made from
-- the entry of the native fallback.
use grok_codex_bridge.Base.{
  if◌then◌else◌, length, Result, ok, ok_or, ◌>>=◌, guard, ℕ, ◌+◌, String, Bool, false, not, Option,
  none, some, List, [], ◌∷◌, ◌==◌,
}
use grok_codex_bridge.Json.{
  Value, string, object, get, insert, modify, as_array, as_object, ◌and_then◌, get_str,
}
use grok_codex_bridge.Native.Route.{sort_unstable}
use grok_codex_bridge.PickerCatalog.{
  PickerError, malformed_native_catalog, invalid_native_catalog,
  missing_native_compatibility_fallback, duplicate_slug,
}
use grok_codex_bridge.PickerCatalog.Entry.{validate_model_entry}
use grok_codex_bridge.PickerCatalog.Generate.{GeneratedPickerCatalog, push_models, printed_error}
use grok_codex_bridge.Protocol.Input.{contains}

abbrev slug_text : Value → Option String
slug_text v = as_object v and_then (λ m. get_str m "slug")

abbrev is_slug : String → Option String → Bool
is_slug slug none = false
is_slug slug (some s) = s == slug

-- `models.iter().find(...)`
unfoldable pub find_model : String → List Value → Option Value
find_model slug [] = none
find_model slug (model ∷ models) =
    let rest = find_model slug models in if is_slug slug (slug_text model) then some model else rest

-- The fallback is an object, since it has a slug.
abbrev pub hidden_entry : String → Value → Value
hidden_entry id (object m) = object (
    insert
      (insert (insert (insert m "slug" (string id)) "display_name" (string id)) "description"
        (string "Saved Grok task routed through Native compatibility."))
      "visibility" (string "hide"))
hidden_entry id other = other

unfoldable pub hidden_from :
    Value → ℕ → List String → ℕ → List String → Result PickerError (List Value)
hidden_from fallback count seen index [] = ok []
hidden_from fallback count seen index (id ∷ ids) = do
  fresh ← guard (not (contains seen id)) (duplicate_slug id)
  valid ← validate_model_entry (hidden_entry id fallback) (count + index)
  entries ← hidden_from fallback count (id ∷ seen) (index + 1) ids
  ok (hidden_entry id fallback ∷ entries)

module _ (from_slice : List ℕ → Option Value) (to_vec_pretty : Value → Result String (List ℕ)) where
  unfoldable pub with_hidden_grok_compatibility :
      GeneratedPickerCatalog → List String → String → Result PickerError GeneratedPickerCatalog
  with_hidden_grok_compatibility catalog grok_models fallback_model = do
    root ← ok_or malformed_native_catalog (from_slice catalog.bytes)
    m ← ok_or (invalid_native_catalog "catalog must contain a models array") (as_object root)
    models ←
        ok_or (invalid_native_catalog "catalog must contain a models array")
          (get m "models" and_then as_array)
    fallback ← ok_or missing_native_compatibility_fallback (find_model fallback_model models)
    entries ←
        hidden_from fallback catalog.native_model_count catalog.native_model_slugs 0
          (sort_unstable grok_models)
    bytes ← printed_error (to_vec_pretty (object (modify m "models" (push_models entries))))
    ok (record catalog { bytes = bytes; grok_model_count = length (sort_unstable grok_models) })
