-- ===== src/PickerCatalog/Entry.antt =====
-- `validate_model_entry` of src/picker.rs, and the entry that `grok_picker_entry` makes.
use grok_codex_bridge.Base.{
  any, Result, ok, ◌>>=◌, guard, ℕ, String, true, false, not, ◌||◌, Option, none, some, List, [],
  ◌∷◌,
}
use grok_codex_bridge.Json.{
  pos_int, Value, null, bool, number, string, array, object, nil, Map, end, of_list, get, insert,
  as_str, as_array, as_object, ◌and_then◌, get_object,
}
use grok_codex_bridge.PickerCatalog.{
  required_array, required_bool, is_text, required_string_array, PickerError, required,
  required_non_empty_string, admitted_text, required_enum, is_i64, is_i32, holds,
  invalid_model_schema,
}

-- An `if let Some` on the modalities: absent is admitted.
unfoldable pub check_modalities : ℕ → Option Value → Result PickerError (Unit {0})
check_modalities index none = ok tt
check_modalities index (some modalities) = do
  values ← required index "input_modalities" (as_array modalities)
  guard (not (any (λ v. not (admitted_text ("text" ∷ "image" ∷ "audio" ∷ []) (as_str v))) values))
      (invalid_model_schema index "input_modalities")

unfoldable pub check_levels : ℕ → List Value → Result PickerError (Unit {0})
check_levels index [] = ok tt
check_levels index (level ∷ levels) = do
  m ← required index "supported_reasoning_levels" (as_object level)
  effort ← required_non_empty_string m "effort" index
  description ← required_non_empty_string m "description" index
  check_levels index levels

unfoldable pub validate_reasoning_levels : Map → ℕ → Result PickerError (Unit {0})
validate_reasoning_levels m index =
    required_array m "supported_reasoning_levels" index >>= check_levels index

unfoldable pub validate_instructions : Map → ℕ → Result PickerError (Unit {0})
validate_instructions m index =
    guard
      (holds is_text (get m "base_instructions")
        || holds is_text (
            get_object m "model_messages"
            and_then (λ messages. get messages "instructions_template")))
      (invalid_model_schema index "base_instructions or model_messages.instructions_template")

-- The checks after the slug's.
unfoldable pub check_fields : Map → ℕ → Result PickerError (Unit {0})
check_fields m index = do
  name ← required_non_empty_string m "display_name" index
  levels ← required_array m "supported_reasoning_levels" index
  shell ←
      required_enum m "shell_type"
        ("default" ∷ "local" ∷ "unified_exec" ∷ "disabled" ∷ "shell_command" ∷ []) index
  visibility ← required_enum m "visibility" ("list" ∷ "hide" ∷ "none" ∷ []) index
  supported ← required_bool m "supported_in_api" index
  priority ← guard (holds is_i32 (get m "priority")) (invalid_model_schema index "priority")
  verbosity ← required_bool m "support_verbosity" index
  truncation ← required index "truncation_policy" (get_object m "truncation_policy")
  mode ← required_enum truncation "mode" ("bytes" ∷ "tokens" ∷ []) index
  limit ←
      guard (holds is_i64 (get truncation "limit"))
        (invalid_model_schema index "truncation_policy.limit")
  tools ← required_string_array m "experimental_supported_tools" index
  modalities ← check_modalities index (get m "input_modalities")
  checked ← validate_reasoning_levels m index
  validate_instructions m index

unfoldable pub validate_model_entry : Value → ℕ → Result PickerError String
validate_model_entry model index = do
  m ← required index "model entry" (as_object model)
  slug ← required_non_empty_string m "slug" index
  checked ← check_fields m index
  ok slug

-- The fields of an object, in the order in which `json!` names them.
unfoldable pub object_of : List (String × Value) → Map
object_of [] = end
object_of ((name, v) ∷ fields) = insert (object_of fields) name v

abbrev level : String → String → Value
level effort description =
    object (object_of (("effort", string effort) ∷ ("description", string description) ∷ []))

abbrev int : ℕ → Value
int n = number (pos_int n)

abbrev remaining : List (String × Value)
remaining =
    ("apply_patch_tool_type", null)
    ∷ ("web_search_tool_type", string "text")
    ∷ (
      "truncation_policy",
      object (object_of (("mode", string "bytes") ∷ ("limit", int 10000) ∷ [])),
    )
    ∷ ("supports_parallel_tool_calls", bool true)
    ∷ ("supports_image_detail_original", bool false)
    ∷ ("context_window", int 272000)
    ∷ ("max_context_window", int 272000)
    ∷ ("auto_compact_token_limit", null)
    ∷ ("comp_hash", null)
    ∷ ("effective_context_window_percent", int 95)
    ∷ ("experimental_supported_tools", array nil)
    ∷ ("input_modalities", array (of_list (string "text" ∷ string "image" ∷ [])))
    ∷ ("supports_search_tool", bool true)
    ∷ ("use_responses_lite", bool false)
    ∷ ("node_repl_auto_review_required", bool false)
    ∷ ("node_repl_disabled", bool false)
    ∷ ("auto_review_model_override", null)
    ∷ ("model_specialty", null)
    ∷ ("tool_mode", null)
    ∷ ("multi_agent_version", null)
    ∷ []

unfoldable pub grok_picker_entry : String → ℕ → String → Value
grok_picker_entry id priority overlay = object (
    object_of (
      ("slug", string id)
      ∷ ("display_name", string id)
      ∷ ("description", string "Grok model served through Grok Codex Bridge.")
      ∷ ("default_reasoning_level", string "high")
      ∷ (
        "supported_reasoning_levels",
        array (
            of_list (
              level "low" "Faster, lighter reasoning"
              ∷ level "medium" "Balanced reasoning"
              ∷ level "high" "Heavy reasoning"
              ∷ level "xhigh" "Maximum reasoning depth"
              ∷ [])),
      )
      ∷ ("shell_type", string "default")
      ∷ ("visibility", string "list")
      ∷ ("supported_in_api", bool true)
      ∷ ("priority", int priority)
      ∷ ("additional_speed_tiers", array nil)
      ∷ ("service_tiers", array nil)
      ∷ ("default_service_tier", null)
      ∷ ("availability_nux", null)
      ∷ ("upgrade", null)
      ∷ ("base_instructions", string overlay)
      ∷ ("model_messages", null)
      ∷ ("include_skills_usage_instructions", bool true)
      ∷ ("include_plugin_usage_instructions", bool true)
      ∷ ("include_apps_usage_instructions", bool true)
      ∷ ("supports_reasoning_summary_parameter", bool false)
      ∷ ("default_reasoning_summary", string "auto")
      ∷ ("support_verbosity", bool false)
      ∷ ("default_verbosity", null)
      ∷ remaining))
