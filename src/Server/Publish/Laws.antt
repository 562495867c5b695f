-- ===== src/Server/Publish/Laws.antt =====
-- A publication of src/server.rs changes both halves or neither.
use grok_codex_bridge.Base.{
  Bool, true, List, String, is_some, Result, ok, err, ◌≡◌, ◌⊎◌, inl, inr, refl, sym, arith,
  Bool-cases,
}
use grok_codex_bridge.Catalog.{CatalogError, ModelObject, has_model, validate_models}
use grok_codex_bridge.Catalog.Laws.{validate_models_iff, has_model-map}
use grok_codex_bridge.Native.Route.{
  invalid_state, NativeUpstream, NativeRouteState, native_compatibility_fallback,
}
use grok_codex_bridge.Protocol.Input.{contains}
use grok_codex_bridge.Server.Publish.{
  catalog_failed, native_failed, RoutingUpdateError, Routing, same_upstream, same_bool,
  is_compatible, with_update, replace_catalog,
}

same_upstream-eq : (a b : NativeUpstream) → same_upstream a b ≡ true → a ≡ b
same_upstream-eq a b h = ground arith

same_bool-eq : (a b : Bool) → same_bool a b ≡ true → a ≡ b
same_bool-eq a b h = ground arith

-- Both halves are new: the catalog has exactly the models, the route is the candidate, and neither the
-- upstream nor the kind of the mode has changed.
abbrev pub IsPublished : Routing → List String → NativeRouteState → Routing → Type 0
IsPublished before models candidate after =
    ((s : String) → has_model after.models s ≡ contains models s)
    × (after.route ≡ candidate)
    × (candidate.upstream ≡ before.route.upstream)
    × (is_some (native_compatibility_fallback candidate)
        ≡ is_some (native_compatibility_fallback before.route))

compatible_parts :
    (route candidate : NativeRouteState)
    → is_compatible route candidate ≡ true
    → (candidate.upstream ≡ route.upstream)
      × (is_some (native_compatibility_fallback candidate)
          ≡ is_some (native_compatibility_fallback route))
unfolding is_compatible
compatible_parts route candidate h = (
  sym (same_upstream-eq route.upstream candidate.upstream (ground (arith, h))),
  sym (
      same_bool-eq (is_some (native_compatibility_fallback route))
        (is_some (native_compatibility_fallback candidate)) (ground (arith, h))),
)

abbrev pub Outcome : Type 0
Outcome = Result RoutingUpdateError (Unit {0}) × Routing

-- What may come of a publication.
abbrev pub IsWhole : Routing → List String → NativeRouteState → Outcome → Type 0
IsWhole before models candidate (r, after) =
    ((e : RoutingUpdateError) × (r ≡ err e) × (after ≡ before))
    ⊎ ((r ≡ ok tt) × IsPublished before models candidate after)

IsWhole-with_update :
    (routing : Routing) (models : List String) (candidate : NativeRouteState)
    (checked : Result CatalogError (List ModelObject))
    → validate_models models ≡ checked
    → IsWhole routing models candidate (with_update routing candidate checked)
IsWhole-with_update routing models candidate (err e) h = inl (catalog_failed e, refl, refl)
IsWhole-with_update routing models candidate (ok ms) h =
    elim (Bool-cases (is_compatible routing.route candidate)) [
      | inr c ↦ rw c (inl (native_failed invalid_state, refl, refl))
      | inl c ↦
          let given = ((validate_models_iff models ms).0 h).1.1 in
          let parts = compatible_parts routing.route candidate c in
          rw c (inr (refl, (λ s. rw given (has_model-map models s), refl, parts.0, parts.1)))
    ]

-- A publication is refused and changes nothing, or it is made and changes both halves.
pub IsWhole-replace_catalog :
    (routing : Routing) (models : List String) (candidate : NativeRouteState)
    → IsWhole routing models candidate (replace_catalog routing models candidate)
unfolding replace_catalog
IsWhole-replace_catalog routing models candidate =
    IsWhole-with_update routing models candidate (validate_models models) refl
