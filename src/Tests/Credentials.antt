-- ===== src/Tests/Credentials.antt =====
-- Runs of the credential of src/credential.rs.
use grok_codex_bridge.Base.{
  ap, if◌then◌else◌, Result, ok, err, ok_inj, ℕ, ◌<◌, String, ◌≡◌, refl, sym, true, false, Option,
  none, some, List, [], ◌∷◌, map, arith, ◌==◌,
}
use grok_codex_bridge.Credential.Store.{
  AuthFile, FileFingerprint, Reading, validate_auth_metadata, same_fingerprint, cached_for,
  open_auth, read_fresh, store, load_opened, load_from, load, loads,
}
use grok_codex_bridge.Base.Text.{is_blank, strip_prefix}
use grok_codex_bridge.Credential.{
  ambiguous_session_credential, expired_session_credential, official_login_failed, RawAuthRecord,
  SessionCredential, is_current_xai_session, candidates, credential_of, complete, ensure_current,
  ReadMap, select, parse_auth_map, oidc,
}
use grok_codex_bridge.Credential.Laws.{loads-uncached}
use grok_codex_bridge.Credential.Renewal.{
  Look, exited, running, login_from, run_official_login, renew_credential_until, after_login,
  after_refresh, after_load, ensure_with_official_login, Outcome, refresh, login,
}
use grok_codex_bridge.Credential.Renewal.Grace.{IsRenewed, renew_credential_until-ends}
use grok_codex_bridge.Credential.Renewal.Laws.{IsEnsured, IsEnsured-ensure_with_official_login}
use grok_codex_bridge.Credential.Selected.{IsOnlySession, IsComplete, IsOnlySession-parse_auth_map}
use grok_codex_bridge.Credential.Sound.{IsFaithful}

abbrev session : String × RawAuthRecord
session = (
  "https://auth.x.ai::client",
  record {
    key = "token";
    auth_mode = oidc;
    create_time = 0;
    user_id = "user-1";
    expires_at = some 50;
    oidc_issuer = some "https://auth.x.ai";
  },
)

abbrev foreign : String × RawAuthRecord
foreign = (
  "https://example.org::client",
  record {
    key = "other";
    auth_mode = oidc;
    create_time = 0;
    user_id = "user-2";
    expires_at = none;
    oidc_issuer = none;
  },
)

abbrev from_str : ReadMap
from_str source =
    if source == "one"
    then some (session ∷ foreign ∷ [])
    else if source == "two"
    then some (session ∷ session ∷ [])
    else none

abbrev current : SessionCredential
current = record {
  token = "token";
  user_id = "user-1";
  scope = "https://auth.x.ai::client";
  expires_at = 50;
}

abbrev reading_at : ℕ → Reading
reading_at now = record {
  file =
      ok (record { is_file = true; mode = 0o100600; len = 3; modified = ok 7; content = ok "one" });
  first = now;
  second = now;
}

abbrev content_of : FileFingerprint → Result String String
content_of of_file = ok "one"

-- Every load finds the session over.
abbrev readings : ℕ → Reading
readings n = reading_at 60

-- The login ends with a failure.
abbrev failed_login : Option (List Look)
failed_login = some (running true ∷ exited false (some 3) ∷ [])

two_sessions : parse_auth_map from_str 10 "two" ≡ err ambiguous_session_credential
unfolding parse_auth_map select candidates is_current_xai_session strip_prefix
two_sessions = refl

one_session : parse_auth_map from_str 10 "one" ≡ ok current
unfolding parse_auth_map select candidates is_current_xai_session strip_prefix complete
    credential_of is_blank ensure_current
one_session = refl

cached_loads :
    loads from_str (reading_at 10 ∷ reading_at 20 ∷ reading_at 60 ∷ []) none
    ≡ ok current ∷ ok current ∷ err expired_session_credential ∷ []
unfolding loads load load_from load_opened open_auth validate_auth_metadata cached_for
    same_fingerprint read_fresh store parse_auth_map select candidates is_current_xai_session
    strip_prefix complete credential_of is_blank ensure_current
cached_loads = refl

abbrev failed_outcome : Outcome
failed_outcome = record {
  result = err (official_login_failed (some 3));
  cache = none;
  launched = refresh ∷ login ∷ [];
}

failed_login_run :
    ensure_with_official_login from_str readings none failed_login ≡ some failed_outcome
unfolding ensure_with_official_login after_load after_refresh after_login run_official_login
    login_from load load_from load_opened open_auth validate_auth_metadata cached_for
    same_fingerprint read_fresh store parse_auth_map select candidates is_current_xai_session
    strip_prefix complete credential_of is_blank ensure_current
failed_login_run = refl

IsOnlySession-parse_auth_map_example :
    (entries : List (String × RawAuthRecord)) × (entry : String × RawAuthRecord) × (from_str "one"
      ≡ some entries)
    × IsOnlySession entries entry
    × IsComplete entry current
    × (10 < current.expires_at)
IsOnlySession-parse_auth_map_example =
    IsOnlySession-parse_auth_map from_str 10 "one" current one_session

reading_at-IsFaithful : (now : ℕ) → IsFaithful content_of (reading_at now)
reading_at-IsFaithful now = (λ file m f w. ap (λ (g : AuthFile). g.content) (sym (ok_inj f)), refl)

loads-uncached_example :
    loads from_str (reading_at 10 ∷ reading_at 60 ∷ []) none
    ≡ map (λ reading. (load from_str reading none).0) (reading_at 10 ∷ reading_at 60 ∷ [])
loads-uncached_example =
    loads-uncached from_str content_of (reading_at 10 ∷ reading_at 60 ∷ [])
      (reading_at-IsFaithful 10, (reading_at-IsFaithful 60, tt))

IsEnsured-ensure_with_official_login_example :
    IsEnsured from_str readings none failed_login failed_outcome
IsEnsured-ensure_with_official_login_example =
    IsEnsured-ensure_with_official_login from_str readings none failed_login failed_outcome
      failed_login_run

-- A grace period of 600 milliseconds, and 7 for each load.
renew_credential_until-ends_example :
    (outcome : Outcome) × (renew_credential_until from_str readings 4 600
        (λ n. 7)
        expired_session_credential
        none
      ≡ some outcome)
    × (outcome.launched ≡ refresh ∷ [])
    × IsRenewed from_str readings expired_session_credential outcome.result
renew_credential_until-ends_example =
    renew_credential_until-ends from_str readings 3 600 (λ n. 7) expired_session_credential none
      (omega arith)
