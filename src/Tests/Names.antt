-- ===== src/Tests/Names.antt =====
-- Runs of `NamespaceToolProjection` (src/protocol.rs).
use grok_codex_bridge.Protocol.Restore.Laws.{IsRestored, restore-ensure_provider_name}
use grok_codex_bridge.Base.{ok, ◌≡◌, refl, none, some, [], ◌∷◌}
use grok_codex_bridge.Json.{string, object, Map, end, field, get}
use grok_codex_bridge.Protocol.Namespace.{
  NativeToolName, NamespaceToolProjection, default, native_of, provider_of, ensure_provider_name,
}
use grok_codex_bridge.Protocol.Namespace.Laws.{
  IsInverse, IsInverse-default, Extends, ensure_provider_name_lem,
}
use grok_codex_bridge.Protocol.Restore.{restore_function_item}

abbrev docs_search : NativeToolName
docs_search = record { namespace = "docs"; name = "search" }

abbrev projected : NamespaceToolProjection
projected = record {
  provider_to_native = ("docs__search", docs_search) ∷ [];
  native_to_provider = (docs_search, "docs__search") ∷ [];
  tool_search_provider_name = none;
}

search_is_projected : ensure_provider_name default docs_search ≡ ok ("docs__search", projected)
unfolding ensure_provider_name native_of provider_of
search_is_projected = refl

ensure_provider_name_example :
    (native_of projected.provider_to_native "docs__search" ≡ some docs_search)
    × IsInverse projected
    × Extends default projected
ensure_provider_name_example =
    ensure_provider_name_lem default projected docs_search "docs__search" IsInverse-default
      search_is_projected

abbrev flat_call : Map
flat_call = field "name" (string "docs__search") (field "type" (string "function_call") end)

Extends-projected : Extends projected projected
Extends-projected = record { keeps = λ q t e. e; keeps_search = refl }

restore_example :
    (r : Map) × (restore_function_item projected (object flat_call) ≡ object r)
    × IsRestored flat_call docs_search r
unfolding get
restore_example =
    restore-ensure_provider_name default projected projected docs_search "docs__search" flat_call
      IsInverse-default search_is_projected Extends-projected refl refl
