-- ===== src/Native/Route/Laws.antt =====
-- The states of src/native.rs that are accepted: what they contain.
use grok_codex_bridge.Base.{
  ◌||◌, true, some, List, [], ◌∷◌, String, ok, ◌≡◌, refl, sym, ◌∙◌, ap, arith, All, ok_of_bind,
  ok_inj, ◌==◌, length,
}
use mathlib.Core.Path.{subst}
use grok_codex_bridge.Base.Text.{text_lt}
use grok_codex_bridge.Base.Text.Order.{text_lt_trans}
use grok_codex_bridge.Native.Route.{
  NativeUpstream, NativeRouteState, route_state_version, fallback_of, NativeRouteMode,
  checked_state, native_compatibility, route_contains, validate, is_ascending, insert_sorted,
  sort_unstable, new_native_compatibility, has_fallback, native_compatibility_fallback,
}
use grok_codex_bridge.Native.Route.Search.{IsAscending, binary_search-contains}
use grok_codex_bridge.Protocol.Input.{contains}

above_of_first :
    (x y : String) (xs : List String)
    → text_lt x y ≡ true
    → All (λ z. text_lt y z ≡ true) xs
    → All (λ z. text_lt x z ≡ true) xs
above_of_first x y [] h a = tt
above_of_first x y (z ∷ xs) h a = (text_lt_trans x y z h a.0, above_of_first x y xs h a.1)

IsAscending-of_neighbours : (xs : List String) → is_ascending xs ≡ true → IsAscending xs
unfolding is_ascending
IsAscending-of_neighbours [] h = tt
IsAscending-of_neighbours (x ∷ []) h = (tt, tt)
IsAscending-of_neighbours (x ∷ y ∷ xs) h =
    let below : text_lt x y ≡ true = ground (arith, h) in
    let ih = IsAscending-of_neighbours (y ∷ xs) (ground (arith, h)) in
    ((below, above_of_first x y xs below ih.0), ih)

-- What `validate` accepts.
validate-parts :
    (s : NativeRouteState)
    → validate s ≡ ok tt
    → (is_ascending s.native_models ≡ true)
      × (has_fallback s (native_compatibility_fallback s) ≡ true)
unfolding validate
validate-parts s h = ground (arith, h)

-- In a state that `validate` accepts, the binary search finds exactly the models of the state.
pub route_contains_iff :
    (s : NativeRouteState) (model : String)
    → validate s ≡ ok tt
    → route_contains s model ≡ contains s.native_models model
unfolding route_contains
route_contains_iff s model h =
    binary_search-contains (length s.native_models) s.native_models model (omega arith)
      (IsAscending-of_neighbours s.native_models (validate-parts s h).0)

contains-insert_sorted :
    (x : String) (xs : List String) (s : String)
    → contains (insert_sorted x xs) s ≡ contains (x ∷ xs) s
unfolding insert_sorted
contains-insert_sorted x [] s = refl
contains-insert_sorted x (y ∷ ys) s = ground (arith, contains-insert_sorted x ys s)

contains-sort_unstable :
    (xs : List String) (s : String) → contains (sort_unstable xs) s ≡ contains xs s
unfolding sort_unstable
contains-sort_unstable [] s = refl
contains-sort_unstable (x ∷ xs) s =
    contains-insert_sorted x (sort_unstable xs) s
    ∙ ap (λ b. (x == s) || b) (contains-sort_unstable xs s)

-- A state over sorted models that is checked.
checked_state_lem :
    (upstream : NativeUpstream) (models : List String) (mode : NativeRouteMode)
    (s : NativeRouteState)
    → checked_state (record {
      version = route_state_version;
      upstream = upstream;
      native_models = sort_unstable models;
      mode = mode;
    })
      ≡ ok s
    → ((model : String) → route_contains s model ≡ contains models model)
      × (validate s ≡ ok tt)
      × (s.mode ≡ mode)
unfolding checked_state
checked_state_lem upstream models mode s h =
    let made : NativeRouteState = record {
      version = route_state_version;
      upstream = upstream;
      native_models = sort_unstable models;
      mode = mode;
    } in
    let (u, valid, same) = ok_of_bind (validate made) (λ u. ok made) h in
    subst
      (λ t.
        ((model : String) → route_contains t model ≡ contains models model)
        × (validate t ≡ ok tt)
        × (t.mode ≡ mode))
      {x = made} {y = s} (ok_inj same)
      (
        λ model. route_contains_iff made model valid ∙ contains-sort_unstable models model,
        valid,
        refl,
      )

-- A compatibility state that is made contains exactly the models that it was given, and its fallback is
-- one of them.
pub new_native_compatibility_lem :
    (upstream : NativeUpstream) (models : List String) (fallback : String) (s : NativeRouteState)
    → new_native_compatibility upstream models fallback ≡ ok s
    → ((model : String) → route_contains s model ≡ contains models model)
      × (contains models fallback ≡ true)
      × (native_compatibility_fallback s ≡ some fallback)
unfolding new_native_compatibility has_fallback
new_native_compatibility_lem upstream models fallback s h =
    let (exact, valid, same) =
      checked_state_lem upstream models (native_compatibility fallback) s h in
    let named : native_compatibility_fallback s ≡ some fallback = ap fallback_of same in
    let held : route_contains s fallback ≡ true =
      ground (arith, (validate-parts s valid).1, named, has_fallback) in
    (exact, sym (exact fallback) ∙ held, named)
