-- ===== src/Server/Handler/Effects.antt =====
-- What the two handlers of Responses in src/server.rs do outside, and for whom.
use grok_codex_bridge.Base.{
  Bool, true, false, not, ◌&&◌, List, [], ◌∷◌, String, ◌≡◌, refl, arith, All, get_or, is_some,
}
use grok_codex_bridge.Base.Text.{bytes}
use grok_codex_bridge.Config.{capability_matches}
use grok_codex_bridge.Config.Compare.{capability_matches_iff}
use grok_codex_bridge.Server.Handler.{
  route_authorized_responses, picker_authorized, route_picker_responses, route_responses,
}
use grok_codex_bridge.Server.World.{ServiceState, Incoming, World, Effect}
use grok_codex_bridge.Server.Handler.Grok.{All-if}
use grok_codex_bridge.Server.Handler.Laws.{Allows, with_body-Allows}

module _ (world : World) (state : ServiceState) (incoming : Incoming) where
  -- The caller showed the capability token, and the effect is one that the request allows.
  abbrev pub AllowsCaller : String → Effect → Type 0
  AllowsCaller caller e = (state.capability ≡ bytes caller) × Allows world state incoming e

  with_caller :
      (caller : String) (effects : List Effect)
      → capability_matches state.capability (bytes caller) ≡ true
      → All (Allows world state incoming) effects
      → All (AllowsCaller caller) effects
  with_caller caller [] m h = tt
  with_caller caller (e ∷ effects) m h = (
    ((capability_matches_iff state.capability (bytes caller)).0 m, h.0),
    with_caller caller effects m h.1,
  )

  authorized-AllowsCaller :
      (caller : String)
      → capability_matches state.capability (bytes caller) ≡ true
      → All (AllowsCaller caller) (route_authorized_responses world state incoming).1
  unfolding route_authorized_responses
  authorized-AllowsCaller caller m =
      with_caller caller (route_authorized_responses world state incoming).1 m
        (with_body-Allows world state incoming incoming.body refl)

of_not : (b : Bool) → not b ≡ false → b ≡ true
of_not b h = ground arith

-- Whatever a handler does outside, the caller showed the capability token. The first-party service is
-- sent the body of a request whose model is that service's alone, or Grok's alone where there is a
-- fallback; the credential is loaded, and Grok is sent the projected request, only for a request that
-- is parsed, is not a compaction, and whose model is Grok's alone, with no fallback and with the
-- service on.
pub effects_lem :
    (world : World) (state : ServiceState) (incoming : Incoming) (capability : String)
    → All
        (AllowsCaller world state incoming (get_or "" incoming.caller))
        (route_picker_responses world state incoming).1
      × All
          (AllowsCaller world state incoming capability)
          (route_responses world state capability incoming).1
unfolding route_picker_responses route_responses
effects_lem world state incoming capability = (
  All-if (AllowsCaller world state incoming (get_or "" incoming.caller))
      (not (picker_authorized state incoming)) _ _ (λ c. tt)
      (λ c. authorized-AllowsCaller world state incoming (get_or "" incoming.caller) (of_not _ c)),
  All-if (AllowsCaller world state incoming capability)
      (not (capability_matches state.capability (bytes capability))) _ _ (λ c. tt)
      (λ c.
        All-if (AllowsCaller world state incoming capability)
          (state.responses_disabled && not (is_some state.native)) _ _ (λ d. tt)
          (λ d. authorized-AllowsCaller world state incoming capability (of_not _ c))),
)
