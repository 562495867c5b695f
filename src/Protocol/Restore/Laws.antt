-- ===== src/Protocol/Restore/Laws.antt =====
-- A tool call that was sent under a flat name comes back under the tool's own name.
use grok_codex_bridge.Base.{ok, arith, eq_iff, ◌≡◌, ◌≢◌, some, String}
use grok_codex_bridge.Json.{string, insert, object, Map, get, get_str}
use grok_codex_bridge.Json.Laws.{get-insert}
use grok_codex_bridge.Protocol.Namespace.{
  ensure_provider_name, NativeToolName, NamespaceToolProjection, native_of,
}
use grok_codex_bridge.Protocol.Namespace.Laws.{IsInverse, Extends, ensure_provider_name_lem}
use grok_codex_bridge.Protocol.Restore.{restore_function_item}

-- What `restore_function_item` makes of a function call whose name is projected.
abbrev restored : Map → NativeToolName → Map
restored m tool = insert (insert m "name" (string tool.name)) "namespace" (string tool.namespace)

restore_function_item-restored :
    (p : NamespaceToolProjection) (m : Map) (provider : String) (tool : NativeToolName)
    → get_str m "type" ≡ some "function_call"
    → get_str m "name" ≡ some provider
    → native_of p.provider_to_native provider ≡ some tool
    → restore_function_item p (object m) ≡ object (restored m tool)
unfolding restore_function_item
restore_function_item-restored p m provider tool type name known = ground arith

-- The call has the tool's name and namespace, and every other field as it was.
pub record IsRestored (m : Map) (tool : NativeToolName) (r : Map) : Type 0 where
  pub named : get_str r "name" ≡ some tool.name
  pub in_namespace : get_str r "namespace" ≡ some tool.namespace
  pub others : (key : String) → key ≢ "name" → key ≢ "namespace" → get r key ≡ get m key

IsRestored-restored : (m : Map) (tool : NativeToolName) → IsRestored m tool (restored m tool)
IsRestored-restored m tool = record {
  named = simp get-insert;
  in_namespace = simp get-insert;
  others = λ key n s. simp get-insert (ground (arith, eq_iff "name" key, eq_iff "namespace" key));
}

-- Whenever a tool's name has been projected and entries were only added to the projection since, a
-- function call under the flat name comes back as one under the tool's own name and namespace, with
-- every other field as it was.
pub restore-ensure_provider_name :
    (p p' now : NamespaceToolProjection) (tool : NativeToolName) (provider : String) (m : Map)
    → IsInverse p
    → ensure_provider_name p tool ≡ ok (provider, p')
    → Extends p' now
    → get_str m "type" ≡ some "function_call"
    → get_str m "name" ≡ some provider
    → (r : Map) × (restore_function_item now (object m) ≡ object r) × IsRestored m tool r
restore-ensure_provider_name p p' now tool provider m inv made grown type name =
    let (known, inv', old) = ensure_provider_name_lem p p' tool provider inv made in
    (
      restored m tool,
      restore_function_item-restored now m provider tool type name
          (grown.keeps provider tool known),
      IsRestored-restored m tool,
    )
