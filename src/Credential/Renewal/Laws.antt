-- ===== src/Credential/Renewal/Laws.antt =====
-- What an ensured login of src/credential.rs starts, and why.
use grok_codex_bridge.Base.{
  Bool-cases, if_then, if_else, sym, ap, ◌∙◌, Result, ok, err, ℕ, ◌≡◌, refl, ◌⊎◌, inl, inr, Bool,
  true, false, Option, none, some, List, [], ◌∷◌, arith,
}
use grok_codex_bridge.Credential.Renewal.{
  Launch, after_login, after_refresh, after_load, ensure_with_official_login, Outcome, refresh,
  login, Look, run_official_login,
}
use grok_codex_bridge.Credential.{
  CredentialError, allows_official_login, SessionCredential, ReadMap,
}
use grok_codex_bridge.Credential.Store.{CachedCredential, Reading, load}

-- The errors after which the official helper may be started.
abbrev pub is_recoverable : Result CredentialError SessionCredential → Bool
is_recoverable (ok credential) = false
is_recoverable (err e) = allows_official_login e

abbrev launched_of : Outcome → List Launch
launched_of outcome = outcome.launched

abbrev result_of : Outcome → Result CredentialError SessionCredential
result_of outcome = outcome.result

some_inj : {a b : Outcome} → ◌≡◌ {A = Option Outcome} (some a) (some b) → a ≡ b
some_inj h = ground arith

module _ (from_str : ReadMap) (readings : ℕ → Reading) where
  -- What was started, and why: nothing after a load that gives a credential or an error that the helper
  -- does not mend; a refresh after one that it may mend; a login after two.
  abbrev pub IsEnsured : Option CachedCredential → Option (List Look) → Outcome → Type 0
  IsEnsured cache helper outcome =
      let first = (load from_str (readings 0) cache).0 in
      let second = (load from_str (readings 1) none).0 in
      ((outcome.launched ≡ []) × (is_recoverable first ≡ false) × (outcome.result ≡ first))
      ⊎ ((outcome.launched ≡ refresh ∷ [])
          × (is_recoverable first ≡ true)
          × (is_recoverable second ≡ false)
          × (outcome.result ≡ second))
      ⊎ ((outcome.launched ≡ refresh ∷ login ∷ [])
          × (is_recoverable first ≡ true)
          × (is_recoverable second ≡ true)
          × ((outcome.result ≡ (load from_str (readings 2) none).0)
              ⊎ ((e : CredentialError) × (run_official_login helper ≡ some (err e))
                  × (outcome.result ≡ err e))))

  IsEnsured-after_login :
      (cache : Option CachedCredential) (helper : Option (List Look)) (outcome : Outcome)
      (after : Option CachedCredential) (done : Option (Result CredentialError (Unit {0})))
      → is_recoverable (load from_str (readings 0) cache).0 ≡ true
      → is_recoverable (load from_str (readings 1) none).0 ≡ true
      → run_official_login helper ≡ done
      → after_login from_str readings done after ≡ some outcome
      → IsEnsured cache helper outcome
  unfolding after_login
  IsEnsured-after_login cache helper outcome after none first second ran h = ground arith
  IsEnsured-after_login cache helper outcome after (some (ok u)) first second ran h = inr (
      inr (ap launched_of (sym (some_inj h)), first, second, inl (ap result_of (sym (some_inj h)))))
  IsEnsured-after_login cache helper outcome after (some (err e)) first second ran h = inr (
      inr (
        ap launched_of (sym (some_inj h)),
        first,
        second,
        inr (e, ran, ap result_of (sym (some_inj h))),
      ))

  IsEnsured-after_refresh :
      (cache : Option CachedCredential) (helper : Option (List Look)) (outcome : Outcome)
      (after : Option CachedCredential) (second : Result CredentialError SessionCredential)
      → is_recoverable (load from_str (readings 0) cache).0 ≡ true
      → (load from_str (readings 1) none).0 ≡ second
      → after_refresh from_str readings second after helper ≡ some outcome
      → IsEnsured cache helper outcome
  unfolding after_refresh
  IsEnsured-after_refresh cache helper outcome after (ok c) first same h = inr (
      inl (
        ap launched_of (sym (some_inj h)),
        first,
        ap is_recoverable same,
        ap result_of (sym (some_inj h)) ∙ sym same,
      ))
  IsEnsured-after_refresh cache helper outcome after (err e) first same h =
      elim (Bool-cases (allows_official_login e)) [
        | inl mends ↦
            IsEnsured-after_login cache helper outcome after (run_official_login helper) first
              (ap is_recoverable same ∙ mends) refl
              (if_then (allows_official_login e) _ _ _ mends h)
        | inr final ↦
            let stop = if_else (allows_official_login e) _ _ _ final h in
            inr (
              inl (
                ap launched_of (sym (some_inj stop)),
                first,
                ap is_recoverable same ∙ final,
                ap result_of (sym (some_inj stop)) ∙ sym same,
              ))
      ]

  IsEnsured-after_load :
      (cache : Option CachedCredential) (helper : Option (List Look)) (outcome : Outcome)
      (after : Option CachedCredential) (first : Result CredentialError SessionCredential)
      → (load from_str (readings 0) cache).0 ≡ first
      → after_load from_str readings first after helper ≡ some outcome
      → IsEnsured cache helper outcome
  unfolding after_load
  IsEnsured-after_load cache helper outcome after (ok c) same h = inl (
    ap launched_of (sym (some_inj h)),
    ap is_recoverable same,
    ap result_of (sym (some_inj h)) ∙ sym same,
  )
  IsEnsured-after_load cache helper outcome after (err e) same h =
      elim (Bool-cases (allows_official_login e)) [
        | inl mends ↦
            IsEnsured-after_refresh cache helper outcome (load from_str (readings 1) none).1
              (load from_str (readings 1) none).0 (ap is_recoverable same ∙ mends) refl
              (if_then (allows_official_login e) _ _ _ mends h)
        | inr final ↦
            let stop = if_else (allows_official_login e) _ _ _ final h in
            inl (
              ap launched_of (sym (some_inj stop)),
              ap is_recoverable same ∙ final,
              ap result_of (sym (some_inj stop)) ∙ sym same,
            )
      ]

  -- The official helper is started once for a refresh only after a load failed in a way that it may mend,
  -- and once for a login only after the load that followed failed so too; the result is that of the last
  -- load, or the failure of the login.
  pub IsEnsured-ensure_with_official_login :
      (cache : Option CachedCredential) (helper : Option (List Look)) (outcome : Outcome)
      → ensure_with_official_login from_str readings cache helper ≡ some outcome
      → IsEnsured cache helper outcome
  unfolding ensure_with_official_login
  IsEnsured-ensure_with_official_login cache helper outcome h =
      IsEnsured-after_load cache helper outcome _ _ refl h
