-- ===== src/Server/Handler/Laws.antt =====
-- What the routing of src/server.rs does outside.
use grok_codex_bridge.Server.Handler.{
  routes_natively, forward, fallback_if, dispatch, route_model, with_envelope, with_decoded,
  with_body, to_grok,
}
use grok_codex_bridge.Server.World.{
  Incoming, ServiceState, World, Effect, native_posted, credential_loaded, grok_posted,
}
use grok_codex_bridge.Base.{
  String, ◌⊎◌, not, ◌&&◌, [], ◌∷◌, Bool, ℕ, true, false, Option, none, some, List, ◌≡◌, refl, inl,
  inr, All,
}
use grok_codex_bridge.Catalog.{has_model}
use grok_codex_bridge.Server.Body.{
  RoutedRequest, into_value, decode_request_copy, native_request_body,
}
use grok_codex_bridge.Server.Handler.Grok.{AllowsGrok, to_grok-AllowsGrok}

module _ (world : World) (state : ServiceState) where
  -- How a request comes to be read: its body, the copy that is decoded, and what that says.
  abbrev pub IsRead : Incoming → List ℕ → RoutedRequest → Type 0
  IsRead incoming raw envelope =
      (decoded : List ℕ) × (incoming.body ≡ some raw)
      × (decode_request_copy world.codec incoming.encoding raw ≡ some decoded)
      × (world.codec.from_slice decoded ≡ some envelope)

  -- Which model may go to the first-party service, and what replaces it: a model of that service alone
  -- as it is, and one of Grok's alone where there is a fallback.
  abbrev pub IsNativeRoute : RoutedRequest → Option String → Type 0
  IsNativeRoute envelope model_override =
      ((routes_natively state.native envelope.model ≡ true)
        × (has_model state.catalog envelope.model ≡ false)
        × (model_override ≡ none))
      ⊎ ((fallback : String) × (routes_natively state.native envelope.model ≡ false)
          × (has_model state.catalog envelope.model ≡ true)
          × (fallback_if true state.native ≡ some fallback)
          × (model_override ≡ some fallback))

  abbrev pub IsGrokRoute : RoutedRequest → Type 0
  IsGrokRoute envelope =
      (routes_natively state.native envelope.model ≡ false)
      × (has_model state.catalog envelope.model ≡ true)
      × (fallback_if true state.native ≡ none)

  -- What an effect says of the request behind it.
  abbrev pub AllowsRouted : Incoming → List ℕ → RoutedRequest → Effect → Type 0
  AllowsRouted incoming raw envelope (native_posted path body) =
      (model_override : Option String) × IsNativeRoute envelope model_override
      × (path ≡ incoming.path)
      × (native_request_body world.codec incoming.path incoming.encoding raw (into_value envelope)
            model_override
          ≡ some body)
  AllowsRouted incoming raw envelope credential_loaded =
      IsGrokRoute envelope
      × AllowsGrok world state incoming.path (into_value envelope) credential_loaded
  AllowsRouted incoming raw envelope (grok_posted body conversation) =
      IsGrokRoute envelope
      × AllowsGrok world state incoming.path (into_value envelope) (grok_posted body conversation)

  forward-AllowsRouted :
      (incoming : Incoming) (raw : List ℕ) (envelope : RoutedRequest)
      (model_override : Option String) (text : String) (body : Option (List ℕ))
      → IsNativeRoute envelope model_override
      → native_request_body world.codec incoming.path incoming.encoding raw
          (into_value envelope)
          model_override
        ≡ body
      → All (AllowsRouted incoming raw envelope) (forward world incoming.path text body).1
  forward-AllowsRouted incoming raw envelope model_override text none r h = tt
  forward-AllowsRouted incoming raw envelope model_override text (some body) r h =
      ((model_override, r, refl, h), tt)

  grok_of_routed :
      (incoming : Incoming) (raw : List ℕ) (envelope : RoutedRequest) (effects : List Effect)
      → IsGrokRoute envelope
      → All (AllowsGrok world state incoming.path (into_value envelope)) effects
      → All (AllowsRouted incoming raw envelope) effects
  grok_of_routed incoming raw envelope [] r h = tt
  grok_of_routed incoming raw envelope (native_posted p b ∷ effects) r h = absurd h.0
  grok_of_routed incoming raw envelope (credential_loaded ∷ effects) r h =
      ((r, h.0), grok_of_routed incoming raw envelope effects r h.1)
  grok_of_routed incoming raw envelope (grok_posted b c ∷ effects) r h =
      ((r, h.0), grok_of_routed incoming raw envelope effects r h.1)

  dispatch-AllowsRouted :
      (incoming : Incoming) (raw : List ℕ) (envelope : RoutedRequest) (is_native is_grok : Bool)
      (fallback : Option String)
      → routes_natively state.native envelope.model ≡ is_native
      → has_model state.catalog envelope.model ≡ is_grok
      → fallback_if (is_grok && not is_native) state.native ≡ fallback
      → All
          (AllowsRouted incoming raw envelope)
          (dispatch world state incoming raw (into_value envelope) is_native is_grok fallback).1
  unfolding dispatch
  dispatch-AllowsRouted incoming raw envelope true false fallback n g f =
      forward-AllowsRouted incoming raw envelope none _ _ (inl (n, g, refl)) refl
  dispatch-AllowsRouted incoming raw envelope true true fallback n g f = tt
  dispatch-AllowsRouted incoming raw envelope false false fallback n g f = tt
  dispatch-AllowsRouted incoming raw envelope false true (some model) n g f =
      forward-AllowsRouted incoming raw envelope (some model) _ _ (inr (model, n, g, f, refl)) refl
  dispatch-AllowsRouted incoming raw envelope false true none n g f =
      grok_of_routed incoming raw envelope
        (to_grok world state incoming.path (into_value envelope)).1 (n, g, f)
        (to_grok-AllowsGrok world state incoming.path (into_value envelope))

  -- The same with the reading that led to it.
  abbrev pub Allows : Incoming → Effect → Type 0
  Allows incoming e =
      (raw : List ℕ) × (envelope : RoutedRequest) × IsRead incoming raw envelope
      × AllowsRouted incoming raw envelope e

  Allows-of_routed :
      (incoming : Incoming) (raw : List ℕ) (envelope : RoutedRequest) (effects : List Effect)
      → IsRead incoming raw envelope
      → All (AllowsRouted incoming raw envelope) effects
      → All (Allows incoming) effects
  Allows-of_routed incoming raw envelope [] r h = tt
  Allows-of_routed incoming raw envelope (e ∷ effects) r h =
      ((raw, envelope, r, h.0), Allows-of_routed incoming raw envelope effects r h.1)

  with_envelope-Allows :
      (incoming : Incoming) (raw decoded : List ℕ) (read : Option RoutedRequest)
      → incoming.body ≡ some raw
      → decode_request_copy world.codec incoming.encoding raw ≡ some decoded
      → world.codec.from_slice decoded ≡ read
      → All (Allows incoming) (with_envelope world state incoming raw read).1
  unfolding with_envelope
  with_envelope-Allows incoming raw decoded none b d h = tt
  with_envelope-Allows incoming raw decoded (some envelope) b d h =
      Allows-of_routed incoming raw envelope (route_model world state incoming raw envelope).1
        (decoded, b, d, h) (dispatch-AllowsRouted incoming raw envelope _ _ _ refl refl refl)

  with_decoded-Allows :
      (incoming : Incoming) (raw : List ℕ) (decoded : Option (List ℕ))
      → incoming.body ≡ some raw
      → decode_request_copy world.codec incoming.encoding raw ≡ decoded
      → All (Allows incoming) (with_decoded world state incoming raw decoded).1
  unfolding with_decoded
  with_decoded-Allows incoming raw none b d = tt
  with_decoded-Allows incoming raw (some decoded) b d =
      with_envelope-Allows incoming raw decoded (world.codec.from_slice decoded) b d refl

  pub with_body-Allows :
      (incoming : Incoming) (body : Option (List ℕ))
      → incoming.body ≡ body
      → All (Allows incoming) (with_body world state incoming body).1
  unfolding with_body
  with_body-Allows incoming none b = tt
  with_body-Allows incoming (some raw) b =
      with_decoded-Allows incoming raw (decode_request_copy world.codec incoming.encoding raw) b
        refl
