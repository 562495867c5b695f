-- ===== src/Credential/Selected.antt =====
-- The one session that `parse_auth_map` of src/credential.rs takes.
use grok_codex_bridge.Base.{
  Option-cases, get_or, is_some, ◌+◌, ◌⊎◌, eq_iff, if◌then◌else◌, guard, ◌>>◌, sym, ◌∙◌, Bool, not,
  Bool-cases, cons-same, All, ok, ok_or, ◌>>=◌, ok_of_bind, ok_inj, ℕ, ◌<◌, String, ◌≡◌, refl, ap,
  inl, inr, true, false, ◌||◌, Option, none, some, List, [], ◌∷◌, ◌++◌, arith,
}
use grok_codex_bridge.Base.Text.{strip_prefix, is_blank}
use grok_codex_bridge.Base.Text.Laws.{strip_prefix-append, append-strip_prefix}
use grok_codex_bridge.Credential.{
  AuthMode, oidc, external, unsupported, is_session_mode, is_xai_issuer, token_ttl,
  invalid_session_credential, parse_auth, RawAuthRecord, SessionCredential, is_current_xai_session,
  candidates, only_one, credential_of, complete, ensure_current, ReadMap, select, parse_auth_map,
}
use Prim.Native.String
use grok_codex_bridge.Credential.Sound.{ensure_current-ok}
use mathlib.Core.Path.{subst}

-- A record of a session with x.ai: its scope begins with the issuer, its mode is one that Grok's own
-- program signs in with, and if it names an issuer, it is x.ai.
abbrev pub IsSession : String × RawAuthRecord → Type 0
IsSession (scope, auth) =
    ((rest : String) × (scope ≡ String.◌++◌ "https://auth.x.ai::" rest))
    × ((auth.auth_mode ≡ oidc) ⊎ (auth.auth_mode ≡ external))
    × ((auth.oidc_issuer ≡ none) ⊎ (auth.oidc_issuer ≡ some "https://auth.x.ai"))

abbrev pub IsOther : String × RawAuthRecord → Type 0
IsOther entry = ¬ IsSession entry

-- The entry is a session and no other of the entries is.
abbrev pub IsOnlySession : List (String × RawAuthRecord) → String × RawAuthRecord → Type 0
IsOnlySession entries entry =
    (before : List (String × RawAuthRecord)) × (after : List (String × RawAuthRecord)) × (entries
      ≡ before ++ entry ∷ after)
    × IsSession entry
    × All IsOther before
    × All IsOther after

mode_of_test : (mode : AuthMode) → is_session_mode mode ≡ true → (mode ≡ oidc) ⊎ (mode ≡ external)
mode_of_test oidc h = inl refl
mode_of_test external h = inr refl
mode_of_test unsupported h = ground arith

issuer_of_test :
    (issuer : Option String)
    → is_xai_issuer issuer ≡ true
    → (issuer ≡ none) ⊎ (issuer ≡ some "https://auth.x.ai")
issuer_of_test none h = inl refl
issuer_of_test (some issuer) h = inr (ap some ((eq_iff issuer "https://auth.x.ai").0 h))

prefix_of_test :
    (scope : String)
    → is_some (strip_prefix "https://auth.x.ai::" scope) ≡ true
    → (rest : String) × (scope ≡ String.◌++◌ "https://auth.x.ai::" rest)
prefix_of_test scope h = elim (Option-cases (strip_prefix "https://auth.x.ai::" scope)) [
  | inl e ↦ ground (arith, ap is_some e)
  | inr (rest, e) ↦ (rest, append-strip_prefix "https://auth.x.ai::" scope rest e)
]

IsSession-test :
    (entry : String × RawAuthRecord) → is_current_xai_session entry ≡ true → IsSession entry
unfolding is_current_xai_session
IsSession-test (scope, auth) h = (
  prefix_of_test scope (ground arith),
  mode_of_test auth.auth_mode (ground arith),
  issuer_of_test auth.oidc_issuer (ground arith),
)

test-mode : (mode : AuthMode) → (mode ≡ oidc) ⊎ (mode ≡ external) → is_session_mode mode ≡ true
test-mode mode (inl e) = ap is_session_mode e
test-mode mode (inr e) = ap is_session_mode e

test-issuer :
    (issuer : Option String)
    → (issuer ≡ none) ⊎ (issuer ≡ some "https://auth.x.ai")
    → is_xai_issuer issuer ≡ true
test-issuer issuer (inl e) = ap is_xai_issuer e
test-issuer issuer (inr e) = ap is_xai_issuer e

test_of_session :
    (entry : String × RawAuthRecord) → IsSession entry → is_current_xai_session entry ≡ true
unfolding is_current_xai_session
test_of_session (scope, auth) ((rest, e), mode, issuer) =
    let begins : is_some (strip_prefix "https://auth.x.ai::" scope) ≡ true =
      ap (λ s. is_some (strip_prefix "https://auth.x.ai::" s)) e
      ∙ ap is_some (strip_prefix-append "https://auth.x.ai::" rest) in
    rw (begins, test-mode auth.auth_mode mode, test-issuer auth.oidc_issuer issuer) refl

IsOther-test :
    (entry : String × RawAuthRecord) → is_current_xai_session entry ≡ false → IsOther entry
IsOther-test entry h = λ session. ground (arith, h, test_of_session entry session)

candidates-none :
    (entries : List (String × RawAuthRecord)) → candidates entries ≡ [] → All IsOther entries
unfolding candidates
candidates-none [] h = tt
candidates-none (entry ∷ entries) h = elim (Bool-cases (is_current_xai_session entry)) [
  | inl session ↦ ground arith
  | inr other ↦ (IsOther-test entry other, candidates-none entries (ground arith))
]

taken_first :
    (b : Bool) (x : String × RawAuthRecord) (xs : List (String × RawAuthRecord))
    (y : String × RawAuthRecord)
    → b ≡ true
    → (if b then x ∷ xs else xs) ≡ y ∷ []
    → (x ≡ y) × (xs ≡ [])
taken_first true x xs y t h = (ground arith, ground arith)
taken_first false x xs y t h = ground arith

IsOnlySession-candidates :
    (entries : List (String × RawAuthRecord)) (entry : String × RawAuthRecord)
    → candidates entries ≡ entry ∷ []
    → IsOnlySession entries entry
unfolding candidates
IsOnlySession-candidates [] entry h = ground arith
IsOnlySession-candidates (first ∷ entries) entry h =
    elim (Bool-cases (is_current_xai_session first)) [
      | inl session ↦
          let (same, none_left) = taken_first _ first (candidates entries) entry session h in
          (
            [],
            entries,
            cons-same same refl,
            subst IsSession same (IsSession-test first session),
            tt,
            candidates-none entries none_left,
          )
      | inr other ↦
          let (before, after, same, it, b, a) =
            IsOnlySession-candidates entries entry (ground arith) in
          (first ∷ before, after, cons-same refl same, it, (IsOther-test first other, b), a)
    ]

only_one-ok :
    (entries : List (String × RawAuthRecord)) (entry : String × RawAuthRecord)
    → only_one entries ≡ ok entry
    → entries ≡ entry ∷ []
only_one-ok [] entry h = ground arith
only_one-ok (e ∷ []) entry h = cons-same (ok_inj h) refl
only_one-ok (e ∷ f ∷ entries) entry h = ground arith

-- The credential has the key, the user and the scope of the entry, with neither key nor user blank, and
-- runs until the time that the entry names, or for 30 days from its creation.
abbrev pub IsComplete : String × RawAuthRecord → SessionCredential → Type 0
IsComplete (scope, auth) credential =
    (credential.token ≡ auth.key)
    × (credential.user_id ≡ auth.user_id)
    × (credential.scope ≡ scope)
    × (credential.expires_at ≡ get_or (auth.create_time + token_ttl) auth.expires_at)
    × (is_blank credential.token ≡ false)
    × (is_blank credential.user_id ≡ false)

guarded :
    (blank : Bool) (c d : SessionCredential)
    → (guard (not blank) invalid_session_credential >> ok c) ≡ ok d
    → (blank ≡ false) × (c ≡ d)
guarded true c d h = ground arith
guarded false c d h = (refl, ok_inj h)

IsComplete-complete :
    (entry : String × RawAuthRecord) (credential : SessionCredential)
    → complete entry ≡ ok credential
    → IsComplete entry credential
unfolding complete credential_of
IsComplete-complete (scope, auth) credential h =
    let (full, same) =
      guarded (is_blank auth.key || is_blank auth.user_id) (credential_of (scope, auth)) credential
        h in
    (
      ap (λ (c : SessionCredential). c.token) (sym same),
      ap (λ (c : SessionCredential). c.user_id) (sym same),
      ap (λ (c : SessionCredential). c.scope) (sym same),
      ap (λ (c : SessionCredential). c.expires_at) (sym same),
      ap (λ (c : SessionCredential). is_blank c.token) (sym same) ∙ ground arith,
      ap (λ (c : SessionCredential). is_blank c.user_id) (sym same) ∙ ground arith,
    )

ok_or-some :
    (o : Option (List (String × RawAuthRecord))) (entries : List (String × RawAuthRecord))
    → ok_or parse_auth o ≡ ok entries
    → o ≡ some entries
ok_or-some none entries h = ground arith
ok_or-some (some e) entries h = ap some (ok_inj h)

-- A credential file that parse_auth_map accepts has one session with x.ai among its entries: a scope
-- that begins with the issuer, the mode oidc or external, and x.ai for an issuer if one is named. The
-- credential has that entry's key, user and scope, with neither key nor user blank; it runs until the
-- time that the entry names, or for 30 days from its creation, and that is later than now.
pub IsOnlySession-parse_auth_map :
    (from_str : ReadMap) (now : ℕ) (source : String) (credential : SessionCredential)
    → parse_auth_map from_str now source ≡ ok credential
    → (entries : List (String × RawAuthRecord)) × (entry : String × RawAuthRecord) × (from_str
          source
        ≡ some entries)
      × IsOnlySession entries entry
      × IsComplete entry credential
      × (now < credential.expires_at)
unfolding parse_auth_map select
IsOnlySession-parse_auth_map from_str now source credential h =
    let (chosen, selected, current) = ok_of_bind (select from_str source) (ensure_current now) h in
    let (entries, read, rest) =
      ok_of_bind (ok_or parse_auth (from_str source))
        (λ entries. only_one (candidates entries) >>= complete) selected in
    let (entry, one, whole) = ok_of_bind (only_one (candidates entries)) complete rest in
    let (same, early) = ensure_current-ok now chosen credential current in
    (
      entries,
      entry,
      ok_or-some (from_str source) entries read,
      IsOnlySession-candidates entries entry (only_one-ok (candidates entries) entry one),
      subst (IsComplete entry) same (IsComplete-complete entry chosen whole),
      subst (λ (c : SessionCredential). now < c.expires_at) same (ground arith),
    )
