-- ===== src/Tests/Pickers.antt =====
-- Runs of the catalog of the picker in src/picker.rs.
use grok_codex_bridge.Base.{
  Result, ok, err, ℕ, String, ◌≡◌, refl, true, Option, some, List, [], ◌∷◌,
}
use grok_codex_bridge.Json.{Value, bool, array, object, Map, end, field, of_list, get, insert}
use grok_codex_bridge.Native.Route.{insert_sorted, sort_unstable}
use grok_codex_bridge.PickerCatalog.{
  required_array, required_bool, required_string_array, duplicate_slug, required_non_empty_string,
  required_enum,
}
use grok_codex_bridge.PickerCatalog.Entry.{
  check_modalities, check_levels, validate_reasoning_levels, validate_instructions, check_fields,
  validate_model_entry, object_of, grok_picker_entry,
}
use grok_codex_bridge.PickerCatalog.Generate.{
  GeneratedPickerCatalog, slugs_from, entries_from, native_models_of, with_entries, with_models,
  with_root, generate_picker_catalog,
}
use grok_codex_bridge.PickerCatalog.Kept.{IsGenerated, IsKept-generate_picker_catalog}

abbrev native_model : String → Value
native_model slug = grok_picker_entry slug 1 "native"

abbrev native_root : Map
native_root =
    field "extra" (bool true)
      (field "models" (array (of_list (native_model "gpt-b" ∷ native_model "gpt-a" ∷ []))) end)

abbrev reader : List ℕ → Option Value
reader bytes = some (object native_root)

abbrev printer : Value → Result String (List ℕ)
printer v = ok (7 ∷ [])

abbrev generated : GeneratedPickerCatalog
generated = record {
  bytes = 7 ∷ [];
  native_model_slugs = "gpt-b" ∷ "gpt-a" ∷ [];
  native_model_count = 2;
  grok_model_count = 2;
}

generate_run :
    generate_picker_catalog reader printer [] ("grok-4" ∷ "grok-3" ∷ []) "overlay" ≡ ok generated
unfolding generate_picker_catalog with_root with_models with_entries native_models_of slugs_from
    entries_from validate_model_entry check_fields required_non_empty_string required_array
    required_bool required_enum required_string_array check_modalities check_levels
    validate_reasoning_levels validate_instructions grok_picker_entry object_of insert get
    sort_unstable insert_sorted
generate_run = refl

generate_collision :
    generate_picker_catalog reader printer [] ("gpt-a" ∷ []) "overlay"
    ≡ err (duplicate_slug "gpt-a")
unfolding generate_picker_catalog with_root with_models with_entries native_models_of slugs_from
    entries_from validate_model_entry check_fields required_non_empty_string required_array
    required_bool required_enum required_string_array check_modalities check_levels
    validate_reasoning_levels validate_instructions grok_picker_entry object_of insert get
    sort_unstable insert_sorted
generate_collision = refl

IsKept-generate_picker_catalog_example :
    IsGenerated reader printer [] "overlay" (sort_unstable ("grok-4" ∷ "grok-3" ∷ [])) generated
IsKept-generate_picker_catalog_example =
    IsKept-generate_picker_catalog reader printer [] ("grok-4" ∷ "grok-3" ∷ []) "overlay" generated
      generate_run
