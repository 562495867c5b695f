-- ===== src/Native/Route.antt =====
-- `NativeRouteState` of src/native.rs: the models of the first-party service.
use grok_codex_bridge.Base.{
  ◌>>◌, ℕ, zero, suc, ◌-◌, ◌/◌, Bool, true, false, not, ◌&&◌, ◌||◌, Option, none, some, List, [],
  ◌∷◌, String, ◌==◌, leb, nat_eq, if◌then◌else◌, all, any, is_empty, length, take, drop, Result, ok,
  err, guard, ◌>>=◌,
}
use grok_codex_bridge.Protocol.Content.{low, high}
use Prim.Native.Nat.{Ordering}
use Prim.Native.String.{compare}
use grok_codex_bridge.Base.Text.{bytes, byte_len, is_ascii_alphanumeric, text_lt}
use grok_codex_bridge.Protocol.Input.{contains}
pub mod Search
pub mod Laws

-- The causes of other crates are left out.
pub data NativeError : Type 0 where
  unsupported_upstream invalid_state parse_state serialize_state read_state : NativeError
  unsafe_state construct_client transport deadline_exceeded : NativeError

pub data NativeUpstream : Type 0 where
  chatgpt_codex openai_api : NativeUpstream

abbrev pub base_url : NativeUpstream → String
base_url chatgpt_codex = "https://chatgpt.com/backend-api/codex/"
base_url openai_api = "https://api.openai.com/v1/"

-- What `parse_base_url` makes of a URL that is parsed and has lost its last slashes.
unfoldable pub upstream_of : String → Result NativeError NativeUpstream
upstream_of canonical =
    if canonical == "https://chatgpt.com/backend-api/codex"
    then ok chatgpt_codex
    else if canonical == "https://api.openai.com/v1"
    then ok openai_api
    else err unsupported_upstream

pub data NativeRouteMode : Type 0 where
  grok_enabled : NativeRouteMode
  native_compatibility : String → NativeRouteMode

pub record NativeRouteState : Type 0 where
  pub version : ℕ
  pub upstream : NativeUpstream
  pub native_models : List String
  pub mode : NativeRouteMode

abbrev pub route_state_version : ℕ
route_state_version = 1

abbrev pub is_greater : Ordering → Bool
is_greater Ordering.gt = true
is_greater _ = false

-- whether the first element of the list is above the text
abbrev pub head_is_above : List String → String → Bool
head_is_above [] s = false
head_is_above (x ∷ xs) s = is_greater (compare x s)

-- `slice::binary_search_by` with `cmp`, and `is_ok`: the loop halves its window, the list; `size` is the
-- length of the window, and the fuel counts down at least as fast.
unfoldable pub binary_search : ℕ → List String → String → Bool
binary_search zero xs s = false
binary_search (suc fuel) [] s = false
binary_search (suc fuel) (x ∷ []) s = x == s
binary_search (suc fuel) (x ∷ y ∷ xs) s =
    let size = length (x ∷ y ∷ xs) in
    let low = binary_search fuel (take (size - size / 2) (x ∷ y ∷ xs)) s in
    let high = binary_search fuel (drop (size / 2) (x ∷ y ∷ xs)) s in
    if head_is_above (drop (size / 2) (x ∷ y ∷ xs)) s then low else high

-- `NativeRouteState::contains`
unfoldable pub route_contains : NativeRouteState → String → Bool
unfolding binary_search
route_contains s model = binary_search (length s.native_models) s.native_models model

abbrev is_model_byte : ℕ → Bool
is_model_byte b =
    is_ascii_alphanumeric b || nat_eq b b'-' || nat_eq b b'_' || nat_eq b b'.' || nat_eq b b':'

unfoldable pub is_native_model : String → Bool
unfolding bytes byte_len
is_native_model model =
    not (model == "") && leb (byte_len model) 128 && all is_model_byte (bytes model)

-- The loop of `validate`, with its set.
unfoldable pub check_models : List String → List String → Bool
check_models seen [] = true
check_models seen (model ∷ models) =
    let rest = check_models (model ∷ seen) models in
    if is_native_model model && not (contains seen model) then rest else false

-- no pair of neighbours with `pair[0] >= pair[1]`
unfoldable pub is_ascending : List String → Bool
is_ascending [] = true
is_ascending (x ∷ []) = true
is_ascending (x ∷ y ∷ xs) = let rest = is_ascending (y ∷ xs) in if text_lt x y then rest else false

abbrev pub fallback_of : NativeRouteMode → Option String
fallback_of grok_enabled = none
fallback_of (native_compatibility fallback_model) = some fallback_model

abbrev pub native_compatibility_fallback : NativeRouteState → Option String
native_compatibility_fallback s = fallback_of s.mode

abbrev pub has_fallback : NativeRouteState → Option String → Bool
unfolding route_contains
has_fallback s none = true
has_fallback s (some model) = route_contains s model

unfoldable pub validate : NativeRouteState → Result NativeError (Unit {0})
unfolding check_models is_ascending route_contains has_fallback
validate s = do
  version ← guard (nat_eq s.version route_state_version) invalid_state
  models ← guard (not (is_empty s.native_models)) invalid_state
  checked ← guard (check_models [] s.native_models) invalid_state
  ascending ← guard (is_ascending s.native_models) invalid_state
  guard (has_fallback s (native_compatibility_fallback s)) invalid_state

-- `sort_unstable`: equal texts are the same text, so any sort gives this list.
unfoldable pub insert_sorted : String → List String → List String
insert_sorted x [] = x ∷ []
insert_sorted x (y ∷ ys) =
    let rest = insert_sorted x ys in if text_lt y x then y ∷ rest else x ∷ y ∷ ys

unfoldable pub sort_unstable : List String → List String
unfolding insert_sorted
sort_unstable [] = []
sort_unstable (x ∷ xs) = insert_sorted x (sort_unstable xs)

abbrev pub checked_state : NativeRouteState → Result NativeError NativeRouteState
unfolding validate
checked_state state = validate state >>= λ checked. ok state

unfoldable pub new : NativeUpstream → List String → Result NativeError NativeRouteState
unfolding sort_unstable checked_state
new upstream native_models = checked_state (record {
  version = route_state_version;
  upstream = upstream;
  native_models = sort_unstable native_models;
  mode = grok_enabled;
})

unfoldable pub new_native_compatibility :
    NativeUpstream → List String → String → Result NativeError NativeRouteState
unfolding sort_unstable checked_state
new_native_compatibility upstream native_models fallback_model = checked_state (record {
  version = route_state_version;
  upstream = upstream;
  native_models = sort_unstable native_models;
  mode = native_compatibility fallback_model;
})
