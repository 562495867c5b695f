-- ===== src/Server/Publish.antt =====
-- `NativeRouteHandle::replace_catalog` of src/server.rs: both halves of the routing state are published
-- under the catalog's lock, as one step.
use grok_codex_bridge.Base.{
  Bool, true, false, not, ◌&&◌, ◌||◌, Option, some, none, List, String, is_some, Result, ok, err,
  if◌then◌else◌,
}
use grok_codex_bridge.Catalog.{CatalogError, ModelObject, validate_models, commit}
use grok_codex_bridge.Native.Route.{
  NativeError, invalid_state, NativeUpstream, chatgpt_codex, openai_api, NativeRouteState,
  native_compatibility_fallback,
}
pub mod Laws

pub data RoutingUpdateError : Type 0 where
  catalog_failed : CatalogError → RoutingUpdateError
  native_failed : NativeError → RoutingUpdateError

-- The list behind the catalog's lock and the route.
pub record Routing : Type 0 where
  pub models : List ModelObject
  pub route : NativeRouteState

abbrev pub same_upstream : NativeUpstream → NativeUpstream → Bool
same_upstream chatgpt_codex chatgpt_codex = true
same_upstream openai_api openai_api = true
same_upstream _ _ = false

abbrev pub same_bool : Bool → Bool → Bool
same_bool true b = b
same_bool false b = not b

-- neither the upstream nor the kind of the mode changes
unfoldable pub is_compatible : NativeRouteState → NativeRouteState → Bool
is_compatible route candidate =
    same_upstream route.upstream candidate.upstream
    && same_bool (is_some (native_compatibility_fallback route))
        (is_some (native_compatibility_fallback candidate))

abbrev pub with_update :
    Routing
    → NativeRouteState
    → Result CatalogError (List ModelObject)
    → Result RoutingUpdateError (Unit {0}) × Routing
with_update routing candidate (err e) = (err (catalog_failed e), routing)
with_update routing candidate (ok update) =
    if not (is_compatible routing.route candidate)
    then (err (native_failed invalid_state), routing)
    else (ok tt, record { models = commit routing.models update; route = candidate })

unfoldable pub replace_catalog :
    Routing → List String → NativeRouteState → Result RoutingUpdateError (Unit {0}) × Routing
unfolding validate_models
replace_catalog routing grok_models candidate =
    with_update routing candidate (validate_models grok_models)
