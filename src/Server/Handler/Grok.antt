-- ===== src/Server/Handler/Grok.antt =====
-- What src/server.rs does for a request that is Grok's.
use grok_codex_bridge.Server.Handler.{post_all, with_credential, with_normalized, to_grok}
use grok_codex_bridge.Server.World.{
  Run, ServiceState, CredentialLoad, loaded, refused_load, task_failed, World, Effect,
  native_posted, credential_loaded, grok_posted,
}
use grok_codex_bridge.Base.{
  Bool, if◌then◌else◌, ℕ, true, false, Option, none, some, List, ok, err, ◌≡◌, refl, All,
}
use grok_codex_bridge.Native.Transport.{NativeApiPath, is_compact}
use grok_codex_bridge.Protocol.Error.{Res}
use grok_codex_bridge.Json.{Map, object}
use grok_codex_bridge.Protocol.Request.{NormalizedResponsesRequest, parse_request, to_xai_object}
use grok_codex_bridge.Protocol.Routing.{GrokRoutingMetadata, derived_conversation_id}

-- The two ways of a test, each with what the test gave.
pub All-if :
    (P : Effect → Type 0) (b : Bool) (x y : Run)
    → (b ≡ true → All P x.1)
    → (b ≡ false → All P y.1)
    → All P (if b then x else y).1
All-if P true x y f g = f refl
All-if P false x y f g = g refl

module _ (world : World) (state : ServiceState) where
  -- Grok may be asked for the request.
  pub record IsForGrok (path : NativeApiPath) (value : Map)
      (normalized : NormalizedResponsesRequest) : Type 0 where
    pub not_compact : is_compact path ≡ false
    pub enabled : state.responses_disabled ≡ false
    pub served : state.responses ≡ true
    pub accepted : parse_request world.parse_url world.json (object value) ≡ ok normalized

  abbrev pub AllowsGrok : NativeApiPath → Map → Effect → Type 0
  AllowsGrok path value (native_posted p b) = ⊥
  AllowsGrok path value credential_loaded =
      (n : NormalizedResponsesRequest) × IsForGrok path value n
  AllowsGrok path value (grok_posted body conversation) =
      (n : NormalizedResponsesRequest) × IsForGrok path value n
      × (world.codec.to_vec (object (to_xai_object world.json.to_string n)) ≡ some body)
      × (conversation ≡ derived_conversation_id world.json.to_string world.sha256 world.fresh n)
      × (world.credential ≡ loaded)

  post_all-AllowsGrok :
      (path : NativeApiPath) (value : Map) (n : NormalizedResponsesRequest)
      (routing : GrokRoutingMetadata) (body : Option (List ℕ))
      → IsForGrok path value n
      → world.credential ≡ loaded
      → routing.conversation_id
        ≡ derived_conversation_id world.json.to_string world.sha256 world.fresh n
      → world.codec.to_vec (object (to_xai_object world.json.to_string n)) ≡ body
      → All (AllowsGrok path value) (post_all world n routing body).1
  post_all-AllowsGrok path value n routing none h c r e = tt
  post_all-AllowsGrok path value n routing (some body) h c r e = ((n, h, e, r, c), tt)

  with_credential-AllowsGrok :
      (path : NativeApiPath) (value : Map) (n : NormalizedResponsesRequest)
      (routing : GrokRoutingMetadata) (load : CredentialLoad)
      → IsForGrok path value n
      → world.credential ≡ load
      → routing.conversation_id
        ≡ derived_conversation_id world.json.to_string world.sha256 world.fresh n
      → All (AllowsGrok path value) (with_credential world n routing load).1
  with_credential-AllowsGrok path value n routing loaded h c r =
      post_all-AllowsGrok path value n routing
        (world.codec.to_vec (object (to_xai_object world.json.to_string n))) h c r refl
  with_credential-AllowsGrok path value n routing refused_load h c r = tt
  with_credential-AllowsGrok path value n routing task_failed h c r = tt

  with_normalized-AllowsGrok :
      (path : NativeApiPath) (value : Map) (parsed : Res NormalizedResponsesRequest)
      → is_compact path ≡ false
      → state.responses_disabled ≡ false
      → parse_request world.parse_url world.json (object value) ≡ parsed
      → All (AllowsGrok path value) (with_normalized world state parsed).1
  unfolding with_normalized
  with_normalized-AllowsGrok path value (err e) c d h = tt
  with_normalized-AllowsGrok path value (ok n) c d h =
      let routing : GrokRoutingMetadata = record {
        conversation_id = derived_conversation_id world.json.to_string world.sha256 world.fresh n;
        request_id = world.request_id;
        agent_id = world.agent_id;
        turn_index = 1;
      } in
      All-if (AllowsGrok path value) state.responses _ _
        (λ served.
          let fit : IsForGrok path value n = record {
            not_compact = c;
            enabled = d;
            served = served;
            accepted = h;
          } in
          (
            (n, fit),
            with_credential-AllowsGrok path value n routing world.credential fit refl refl,
          ))
        (λ unserved. tt)

  pub to_grok-AllowsGrok :
      (path : NativeApiPath) (value : Map)
      → All (AllowsGrok path value) (to_grok world state path value).1
  unfolding to_grok
  to_grok-AllowsGrok path value =
      All-if (AllowsGrok path value) (is_compact path) _ _ (λ c. tt)
        (λ c.
          All-if (AllowsGrok path value) state.responses_disabled _ _ (λ d. tt)
            (λ d.
              with_normalized-AllowsGrok path value
                (parse_request world.parse_url world.json (object value)) c d refl))
