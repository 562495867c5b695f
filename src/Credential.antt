-- ===== src/Credential.antt =====
-- The credential of src/credential.rs: its errors, the choice of the one session in the
-- file, and the check that it is current. A time is a number of nanoseconds,
-- counted from the first that can be written.
pub mod Store
pub mod Renewal
pub mod Selected
pub mod Sound
pub mod Laws
use grok_codex_bridge.Base.{
  ℕ, ◌+◌, ◌*◌, leb, Bool, true, false, ◌&&◌, ◌||◌, Option, none, some, List, [], ◌∷◌, String, ◌==◌,
  if◌then◌else◌, Result, ok, err, guard, ok_or, is_some, not, get_or, ◌>>=◌, ◌>>◌,
}
use grok_codex_bridge.Base.Text.{strip_prefix, is_blank}

pub data CredentialError : Type 0 where
  relative_auth_path : CredentialError
  home_unavailable : CredentialError
  read_auth : String → CredentialError
  unsafe_auth_file_type : CredentialError
  unsafe_auth_permissions : CredentialError
  invalid_auth_file_size : CredentialError
  parse_auth : CredentialError
  session_credential_missing : CredentialError
  ambiguous_session_credential : CredentialError
  invalid_session_credential : CredentialError
  expired_session_credential : CredentialError
  start_official_login : CredentialError
  official_login_failed : Option ℕ → CredentialError
  official_login_timed_out : CredentialError
  wait_for_official_login : CredentialError
  cache_unavailable : CredentialError

abbrev pub allows_official_login : CredentialError → Bool
allows_official_login session_credential_missing = true
allows_official_login invalid_session_credential = true
allows_official_login expired_session_credential = true
allows_official_login (read_auth kind) = kind == "NotFound"
allows_official_login other = false

pub data AuthMode : Type 0 where
  oidc : AuthMode
  external : AuthMode
  unsupported : AuthMode

pub record RawAuthRecord : Type 0 where
  pub key : String
  pub auth_mode : AuthMode
  pub create_time : ℕ
  pub user_id : String
  pub expires_at : Option ℕ
  pub oidc_issuer : Option String

pub record SessionCredential : Type 0 where
  pub token : String
  pub user_id : String
  pub scope : String
  pub expires_at : ℕ

abbrev pub is_session_mode : AuthMode → Bool
is_session_mode oidc = true
is_session_mode external = true
is_session_mode unsupported = false

abbrev pub is_xai_issuer : Option String → Bool
is_xai_issuer none = true
is_xai_issuer (some issuer) = issuer == "https://auth.x.ai"

unfoldable pub is_current_xai_session : String × RawAuthRecord → Bool
is_current_xai_session (scope, auth) =
    is_some (strip_prefix "https://auth.x.ai::" scope)
    && is_session_mode auth.auth_mode
    && is_xai_issuer auth.oidc_issuer

-- The entries that the test accepts, in order.
unfoldable pub candidates : List (String × RawAuthRecord) → List (String × RawAuthRecord)
candidates [] = []
candidates (entry ∷ entries) =
    let rest = candidates entries in if is_current_xai_session entry then entry ∷ rest else rest

-- `let [(scope, selected)] = candidates.as_slice() else { ... }`
abbrev pub only_one :
    List (String × RawAuthRecord) → Result CredentialError (String × RawAuthRecord)
only_one [] = err session_credential_missing
only_one (entry ∷ []) = ok entry
only_one (entry ∷ other ∷ more) = err ambiguous_session_credential

-- `TOKEN_TTL`: 30 days, in nanoseconds.
abbrev pub token_ttl : ℕ
token_ttl = 30 * 86400 * 1000000000

unfoldable pub credential_of : String × RawAuthRecord → SessionCredential
credential_of (scope, auth) = record {
  token = auth.key;
  user_id = auth.user_id;
  scope = scope;
  expires_at = get_or (auth.create_time + token_ttl) auth.expires_at;
}

-- The credential of the selected entry, before the check that it is current.
unfoldable pub complete : String × RawAuthRecord → Result CredentialError SessionCredential
complete (scope, auth) =
    guard (not (is_blank auth.key || is_blank auth.user_id)) invalid_session_credential
    >> ok (credential_of (scope, auth))

unfoldable pub ensure_current : ℕ → SessionCredential → Result CredentialError SessionCredential
ensure_current now credential =
    if leb credential.expires_at now then err expired_session_credential else ok credential

-- The reading of a map of records by serde, its keys in order.
abbrev pub ReadMap : Type 0
ReadMap = String → Option (List (String × RawAuthRecord))

-- The selection of `parse_auth_map`, all but its last check.
unfoldable pub select : ReadMap → String → Result CredentialError SessionCredential
select from_str source =
    ok_or parse_auth (from_str source) >>= (λ entries. only_one (candidates entries) >>= complete)

unfoldable pub parse_auth_map : ReadMap → ℕ → String → Result CredentialError SessionCredential
parse_auth_map from_str now source = select from_str source >>= ensure_current now
