-- ===== src/Protocol/Tools/Catalog/Merged.antt =====
-- The tools that src/protocol.rs has once the ones that a search found are merged.
use grok_codex_bridge.Base.{
  none, some, Bool-cases, ok, ok_or, ok_of_bind, ◌≡◌, sym, inl, inr, Option, List, [], ◌∷◌, arith,
}
use grok_codex_bridge.Json.{
  null, bool, number, string, array, to_list, Value, object, get, as_array, ◌and_then◌,
}
use grok_codex_bridge.Protocol.Namespace.{default, NamespaceToolProjection}
use grok_codex_bridge.Protocol.Namespace.Laws.{IsInverse-default}
use grok_codex_bridge.Protocol.Tools.Catalog.Listed.{IsCatalog-parse_tool_list}
use grok_codex_bridge.Protocol.Error.{invalid_request_field}
use grok_codex_bridge.Protocol.Restore.{is_type}
use grok_codex_bridge.Protocol.Tools.{
  ToolsField, tools_absent, tools_null, tools_list, parse_tool_list, parse_tools,
}
use grok_codex_bridge.Protocol.Tools.Catalog.{IsCatalog, IsCatalog-merge_all}
use grok_codex_bridge.Protocol.Tools.Choice.{admitted}
use grok_codex_bridge.Protocol.Tools.Merge.{
  strip_defer_loading, merge_all, merge_value, merge_values, merge_output, merge_item,
  merge_discovered_tool_search_specs,
}
use mathlib.Core.Path.{subst}

abbrev pub Field : Type 0
Field = ToolsField × NamespaceToolProjection

abbrev pub HasCatalog : Field → Type 0
HasCatalog f = IsCatalog (admitted f.0) f.1

HasCatalog-same : (f g : Field) → g ≡ f → HasCatalog f → HasCatalog g
HasCatalog-same f g h c = subst HasCatalog {x = f} {y = g} (sym h) c

HasCatalog-merge_value :
    (f : Field) (v : Value) (g : Field) → merge_value f v ≡ ok g → HasCatalog f → HasCatalog g
unfolding merge_value
HasCatalog-merge_value (tools_list existing, p) v g h c =
    let ((additions, d), h1, k1) = ok_of_bind (parse_tool_list (strip_defer_loading v ∷ [])) _ h in
    let ((existing', p'), h2, k2) = ok_of_bind (merge_all (existing, p) d additions) _ k1 in
    HasCatalog-same (tools_list existing', p') g (ground arith)
      (IsCatalog-merge_all (existing, p) d additions (existing', p') h2 c)
HasCatalog-merge_value (tools_absent, p) v g h c =
    let (found, h1, k1) = ok_of_bind (parse_tool_list (strip_defer_loading v ∷ [])) _ h in
    ground arith
HasCatalog-merge_value (tools_null, p) v g h c =
    let (found, h1, k1) = ok_of_bind (parse_tool_list (strip_defer_loading v ∷ [])) _ h in
    ground arith

HasCatalog-merge_values :
    (f : Field) (vs : List Value) (g : Field)
    → merge_values f vs ≡ ok g
    → HasCatalog f
    → HasCatalog g
unfolding merge_values
HasCatalog-merge_values f [] g h c = HasCatalog-same f g (ground arith) c
HasCatalog-merge_values f (v ∷ vs) g h c =
    let (f', h1, k1) = ok_of_bind (merge_value f v) _ h in
    HasCatalog-merge_values f' vs g k1 (HasCatalog-merge_value f v f' h1 c)

HasCatalog-merge_item :
    (f : Field) (item : Value) (g : Field) → merge_item f item ≡ ok g → HasCatalog f → HasCatalog g
unfolding merge_item merge_output
HasCatalog-merge_item f (object m) g h c = elim (Bool-cases (is_type m "tool_search_output")) [
  | inr e ↦ HasCatalog-same f g (ground arith) c
  | inl e ↦
      let (found, h1, k1) =
        ok_of_bind
          (ok_or (invalid_request_field "tool_search_output") (get m "tools" and_then as_array)) _
          (simp e at h) in
      HasCatalog-merge_values f found g k1 c
]
HasCatalog-merge_item f v g h c = HasCatalog-same f g (ground arith) c

pub HasCatalog-merge :
    (f : Field) (items : List Value) (g : Field)
    → merge_discovered_tool_search_specs f items ≡ ok g
    → HasCatalog f
    → HasCatalog g
unfolding merge_discovered_tool_search_specs
HasCatalog-merge f [] g h c = HasCatalog-same f g (ground arith) c
HasCatalog-merge f (item ∷ items) g h c =
    let (f', h1, k1) = ok_of_bind (merge_item f item) _ h in
    HasCatalog-merge f' items g k1 (HasCatalog-merge_item f item f' h1 c)

HasCatalog-empty : IsCatalog [] default
HasCatalog-empty = record { few = ground arith; distinct = tt; inverse = IsInverse-default }

pub HasCatalog-parse_tools : (v : Option Value) (f : Field) → parse_tools v ≡ ok f → HasCatalog f
unfolding parse_tools
HasCatalog-parse_tools none f h =
    HasCatalog-same (tools_absent, default) f (ground arith) HasCatalog-empty
HasCatalog-parse_tools (some null) f h =
    HasCatalog-same (tools_null, default) f (ground arith) HasCatalog-empty
HasCatalog-parse_tools (some (array vs)) f h =
    let ((tools, p), h1, k1) = ok_of_bind (parse_tool_list (to_list vs)) _ h in
    HasCatalog-same (tools_list tools, p) f (ground arith)
      (IsCatalog-parse_tool_list (to_list vs) (tools, p) h1)
HasCatalog-parse_tools (some (bool b)) f h = ground arith
HasCatalog-parse_tools (some (number n)) f h = ground arith
HasCatalog-parse_tools (some (string s)) f h = ground arith
HasCatalog-parse_tools (some (object m)) f h = ground arith

-- When the tools of a request are accepted, and those that its history found are merged into them,
-- there are at most 128, no two have one name, and the two maps of names are inverse.
pub IsCatalog-discovered :
    (v : Option Value) (items : List Value) (f g : Field)
    → parse_tools v ≡ ok f
    → merge_discovered_tool_search_specs f items ≡ ok g
    → IsCatalog (admitted g.0) g.1
IsCatalog-discovered v items f g h k = HasCatalog-merge f items g k (HasCatalog-parse_tools v f h)
