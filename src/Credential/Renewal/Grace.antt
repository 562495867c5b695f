-- ===== src/Credential/Renewal/Grace.antt =====
-- The loop of the grace period of src/credential.rs ends.
use grok_codex_bridge.Base.{
  [], ◌∷◌, nat_eq, if◌then◌else◌, Result, ok, err, ℕ, zero, suc, ◌+◌, ◌-◌, ◌*◌, ◌≤◌, ◌≡◌, refl, ◌⊎◌,
  inl, inr, Bool, true, false, not, ◌||◌, Option, none, some, arith,
}
use grok_codex_bridge.Credential.Renewal.{
  Outcome, refresh, outcome_of, renewal_poll_interval, after_sleep, renewed, renew_credential_until,
  renew_step, renew_from,
}
use grok_codex_bridge.Credential.{
  CredentialError, allows_official_login, SessionCredential, ReadMap,
}
use grok_codex_bridge.Credential.Store.{CachedCredential, Reading, load}

module _ (from_str : ReadMap) (readings : ℕ → Reading) where
  -- A credential that one of the loads gave, or the error of the first load.
  abbrev pub IsRenewed : CredentialError → Result CredentialError SessionCredential → Type 0
  IsRenewed initial result =
      ((credential : SessionCredential) × (i : ℕ) × (before : Option CachedCredential) × ((load
            from_str (readings i) before).0
          ≡ ok credential)
        × (result ≡ ok credential))
      ⊎ (result ≡ err initial)

  abbrev Ends :
      CredentialError
      → Option (Result CredentialError SessionCredential × Option CachedCredential)
      → Type 0
  Ends _ none = ⊥
  Ends initial (some (result, cache)) = IsRenewed initial result

  Ends-if :
      (late : Bool) (initial : CredentialError) (cache : Option CachedCredential)
      (rest : Option (Result CredentialError SessionCredential × Option CachedCredential))
      → (late ≡ true) ⊎ Ends initial rest
      → Ends initial (if late then some (err initial, cache) else rest)
  Ends-if true initial cache rest h = inr refl
  Ends-if false initial cache rest (inl late) = ground arith
  Ends-if false initial cache rest (inr ends) = ends

  Ends-renew_step :
      (i : ℕ) (before : Option CachedCredential) (remaining : ℕ) (initial : CredentialError)
      (r : Result CredentialError SessionCredential) (cache : Option CachedCredential)
      (rest : Option (Result CredentialError SessionCredential × Option CachedCredential))
      → (load from_str (readings i) before).0 ≡ r
      → (remaining ≡ 0) ⊎ Ends initial rest
      → Ends initial (renew_step remaining initial r cache rest)
  unfolding renew_step
  Ends-renew_step i before remaining initial (ok credential) cache rest from h =
      inl (credential, i, before, from, refl)
  Ends-renew_step i before remaining initial (err e) cache rest from h =
      Ends-if (not (allows_official_login e) || nat_eq remaining 0) initial cache rest
        (elim h [ inl none_left ↦ inl (ground arith) | inr ends ↦ inr ends ])

  Ends-renew_from :
      (polls n left : ℕ) (spent : ℕ → ℕ) (initial : CredentialError)
      (cache : Option CachedCredential)
      → left ≤ renewal_poll_interval * polls
      → Ends initial (renew_from from_str readings (suc polls) n left spent initial cache)
  unfolding renew_from
  Ends-renew_from zero n left spent initial cache few =
      Ends-renew_step n cache (left - spent n) initial _ _ _ refl (inl (omega arith))
  Ends-renew_from (suc polls) n left spent initial cache few =
      Ends-renew_step n cache (left - spent n) initial _ _ _ refl (
        inr (
          Ends-renew_from polls (n + 1) (after_sleep (left - spent n)) spent initial
            (load from_str (readings n) cache).1 (omega arith)))

  Ends-renewed :
      (initial : CredentialError)
      (o : Option (Result CredentialError SessionCredential × Option CachedCredential))
      → Ends initial o
      → (outcome : Outcome) × (renewed o ≡ some outcome)
        × (outcome.launched ≡ refresh ∷ [])
        × IsRenewed initial outcome.result
  Ends-renewed initial none h = absurd h
  Ends-renewed initial (some r) h = (outcome_of (refresh ∷ []) r, refl, refl, h)

  -- However long the refresh and the loads take, the loop of the grace period ends after at most one
  -- load more than the poll intervals that cover the period. It has started one refresh, and it gives
  -- a credential that a load gave or the error of the first load.
  pub renew_credential_until-ends :
      (polls left : ℕ) (spent : ℕ → ℕ) (initial : CredentialError) (cache : Option CachedCredential)
      → left ≤ renewal_poll_interval * polls
      → (outcome : Outcome) × (renew_credential_until from_str readings
            (suc polls)
            left
            spent
            initial
            cache
          ≡ some outcome)
        × (outcome.launched ≡ refresh ∷ [])
        × IsRenewed initial outcome.result
  unfolding renew_credential_until
  renew_credential_until-ends polls left spent initial cache few =
      Ends-renewed initial _ (Ends-renew_from polls 0 left spent initial cache few)
