-- ===== src/Server/World.antt =====
-- What a request meets in src/server.rs: the state of the service, the outside as a record of what each
-- call to it would give, and the answer with what was done outside, in order. An answer of none is fuel
-- that did not suffice.
use grok_codex_bridge.Base.{ℕ, Bool, Option, some, List, [], ◌∷◌, String}
use grok_codex_bridge.Catalog.{ModelObject}
use grok_codex_bridge.Native.Route.{NativeRouteState}
use grok_codex_bridge.Native.Transport.{NativeApiPath}
use grok_codex_bridge.Server.Body.{Codec, Encoding}
use grok_codex_bridge.Grok.Events.{Event}
use grok_codex_bridge.Native.Retry.{Attempt}
use grok_codex_bridge.Protocol.Base64.Image.{ParseUrl}
use grok_codex_bridge.Protocol.Restore.{JsonText}
use grok_codex_bridge.Protocol.Stream.{ValidatedTextStreamEvent}
use grok_codex_bridge.Server.{Failure, route_error}
use grok_codex_bridge.Server.Attempt.{Post}
use grok_codex_bridge.Server.Native.{Body, NativeAnswer}

-- `ServiceState`, as one request sees it; `responses` says whether there is a service for Grok.
pub record ServiceState : Type 0 where
  pub capability : List ℕ
  pub catalog : List ModelObject
  pub responses : Bool
  pub native : Option NativeRouteState
  pub responses_disabled : Bool

-- The load of the credential, in a task of its own.
pub data CredentialLoad : Type 0 where
  loaded : CredentialLoad
  refused_load : CredentialLoad
  task_failed : CredentialLoad

-- What a request brings: the body as `to_bytes` collects it, none if it fails or is too large; and the
-- header of the caller, if it is text.
pub record Incoming : Type 0 where
  pub path : NativeApiPath
  pub body : Option (List ℕ)
  pub encoding : Encoding
  pub caller : Option String

-- The outside.
pub record World : Type 0 where
  pub codec : Codec
  pub parse_url : ParseUrl
  pub json : JsonText
  pub sha256 : List ℕ → List ℕ
  pub fresh : List ℕ
  pub request_id : List ℕ
  pub agent_id : List ℕ
  pub uuid : String
  pub credential : CredentialLoad
  pub posts : ℕ → Post
  pub sends : ℕ → Attempt
  pub bodies : ℕ → Body

-- What is done outside: a post to the first-party service with its body, a load of the credential, or
-- the loop of posts to Grok with its body and conversation.
pub data Effect : Type 0 where
  native_posted : NativeApiPath → List ℕ → Effect
  credential_loaded : Effect
  grok_posted : List ℕ → List ℕ → Effect

pub data Answer : Type 0 where
  status_only : ℕ → Answer
  failed : Failure → Answer
  from_native : NativeAnswer → Answer
  from_grok : List ValidatedTextStreamEvent → List Event → Answer

abbrev pub Run : Type 0
Run = Option Answer × List Effect

abbrev pub refuse : Failure → Run
refuse failure = (some (failed failure), [])

abbrev pub bad_request : String → String → Run
bad_request code text = refuse (route_error 400 "invalid_request_error" code text)

abbrev pub unavailable : String → String → Run
unavailable code text = refuse (route_error 503 "server_error" code text)

abbrev pub bridge_disabled : Run
bridge_disabled = unavailable "bridge_disabled" "Grok Responses routing is disabled"

abbrev pub after : Effect → Run → Run
after e (answer, effects) = (answer, e ∷ effects)
