-- ===== src/Credential/Renewal.antt =====
-- The renewals of src/credential.rs: `renew_credential_until`, and `ensure_with_official_login` with the
-- waits for the official helper. The n-th load of an operation meets the n-th reading.
pub mod Grace
pub mod Laws
use grok_codex_bridge.Base.{
  ℕ, zero, suc, ◌+◌, ◌-◌, nat_eq, Bool, true, false, not, ◌||◌, Option, none, some, List, [], ◌∷◌,
  ◌++◌, if◌then◌else◌, Result, ok, err,
}
use Prim.Native.Nat.{min}
use grok_codex_bridge.Credential.{
  CredentialError, allows_official_login, official_login_failed, official_login_timed_out,
  wait_for_official_login, start_official_login, SessionCredential, ReadMap,
}
use grok_codex_bridge.Credential.Store.{CachedCredential, Reading, load}

-- What the bridge starts.
pub data Launch : Type 0 where
  refresh : Launch
  login : Launch

-- One look at the child, and whether the deadline was still to come then.
pub data Look : Type 0 where
  exited : Bool → Option ℕ → Look
  running : Bool → Look
  wait_failed : Look

-- The wait for the login, none where the looks do not suffice.
unfoldable pub login_from : List Look → Option (Result CredentialError (Unit {0}))
login_from [] = none
login_from (exited true code ∷ looks) = some (ok tt)
login_from (exited false code ∷ looks) = some (err (official_login_failed code))
login_from (running true ∷ looks) = login_from looks
login_from (running false ∷ looks) = some (err official_login_timed_out)
login_from (wait_failed ∷ looks) = some (err wait_for_official_login)

-- `run_official_login`, none looks where the helper does not start
unfoldable pub run_official_login : Option (List Look) → Option (Result CredentialError (Unit {0}))
run_official_login none = some (err start_official_login)
run_official_login (some looks) = login_from looks

-- The result, the cache after, and what was started, in order.
pub record Outcome : Type 0 where
  pub result : Result CredentialError SessionCredential
  pub cache : Option CachedCredential
  pub launched : List Launch

abbrev pub outcome_of :
    List Launch → Result CredentialError SessionCredential × Option CachedCredential → Outcome
outcome_of launched (result, cache) = record { result = result; cache = cache; launched = launched }

-- `RENEWAL_POLL_INTERVAL`, in milliseconds.
abbrev pub renewal_poll_interval : ℕ
renewal_poll_interval = 250

-- One turn of the loop: what a load gave, the time that remained then, and the rest of the loop.
unfoldable pub renew_step :
    ℕ
    → CredentialError
    → Result CredentialError SessionCredential
    → Option CachedCredential
    → Option (Result CredentialError SessionCredential × Option CachedCredential)
    → Option (Result CredentialError SessionCredential × Option CachedCredential)
renew_step remaining initial (ok credential) cache rest = some (ok credential, cache)
renew_step remaining initial (err e) cache rest =
    if not (allows_official_login e) || nat_eq remaining 0 then some (err initial, cache) else rest

-- What is left when the bridge has slept for the interval, or for what remains of the time.
abbrev pub after_sleep : ℕ → ℕ
after_sleep remaining = remaining - min renewal_poll_interval remaining

-- The refresh came before the loop; its own failure is dropped.
abbrev pub renewed :
    Option (Result CredentialError SessionCredential × Option CachedCredential) → Option Outcome
renewed none = none
renewed (some r) = some (outcome_of (refresh ∷ []) r)

module _ (from_str : ReadMap) (readings : ℕ → Reading) where
  -- The loop of `renew_credential_until` from the n-th load on, its fuel first, with the time that is
  -- left before the load. `spent n` is the time that the n-th load takes, and what the sleep before it
  -- took too long; the refresh counts with the first.
  unfoldable pub renew_from :
      ℕ
      → ℕ
      → ℕ
      → (ℕ → ℕ)
      → CredentialError
      → Option CachedCredential
      → Option (Result CredentialError SessionCredential × Option CachedCredential)
  renew_from zero n left spent initial cache = none
  renew_from (suc fuel) n left spent initial cache =
      let loaded = load from_str (readings n) cache in
      let remaining = left - spent n in
      let rest = renew_from fuel (n + 1) (after_sleep remaining) spent initial loaded.1 in
      renew_step remaining initial loaded.0 loaded.1 rest

  unfoldable pub renew_credential_until :
      ℕ → ℕ → (ℕ → ℕ) → CredentialError → Option CachedCredential → Option Outcome
  unfolding renew_from
  renew_credential_until fuel left spent initial cache =
      renewed (renew_from fuel 0 left spent initial cache)

  unfoldable pub after_login :
      Option (Result CredentialError (Unit {0})) → Option CachedCredential → Option Outcome
  after_login none cache = none
  after_login (some (err e)) cache = some (outcome_of (refresh ∷ login ∷ []) (err e, cache))
  after_login (some (ok u)) cache =
      some (outcome_of (refresh ∷ login ∷ []) (load from_str (readings 2) none))

  -- After the second load; the helper for the login comes last.
  unfoldable pub after_refresh :
      Result CredentialError SessionCredential
      → Option CachedCredential
      → Option (List Look)
      → Option Outcome
  after_refresh (ok credential) cache helper =
      some (outcome_of (refresh ∷ []) (ok credential, cache))
  after_refresh (err e) cache helper =
      if allows_official_login e
      then after_login (run_official_login helper) cache
      else some (outcome_of (refresh ∷ []) (err e, cache))

  unfoldable pub after_load :
      Result CredentialError SessionCredential
      → Option CachedCredential
      → Option (List Look)
      → Option Outcome
  after_load (ok credential) cache helper = some (outcome_of [] (ok credential, cache))
  after_load (err e) cache helper =
      let reloaded = load from_str (readings 1) none in
      if allows_official_login e
      then after_refresh reloaded.0 reloaded.1 helper
      else some (outcome_of [] (err e, cache))

  unfoldable pub ensure_with_official_login :
      Option CachedCredential → Option (List Look) → Option Outcome
  ensure_with_official_login cache helper =
      let loaded = load from_str (readings 0) cache in after_load loaded.0 loaded.1 helper
