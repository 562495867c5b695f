-- ===== src/Credential/Sound.antt =====
-- A cache of src/credential.rs that holds what is in the file, and the reading of the file.
use grok_codex_bridge.Base.{
  if◌then◌else◌, sym, ◌∙◌, Bool, err, ok_of_bind, ap, leb, Bool-cases, Result, ok, ok_inj, ℕ,
  String, ◌≡◌, refl, inl, inr, true, false, Option, none, some, arith, ◌>>=◌, ◌>>◌,
}
use grok_codex_bridge.Credential.Store.{
  store, validate_auth_metadata, cached_for, FileFingerprint, CachedCredential, AuthFile, Reading,
  read_result, same_fingerprint, open_auth, read_fresh,
}
use grok_codex_bridge.Credential.{
  CredentialError, SessionCredential, ensure_current, ReadMap, select, parse_auth_map,
}
use mathlib.Core.Path.{subst}

-- The file of a reading has the content that belongs to its fingerprint, and no time passes between the
-- two readings of the clock.
abbrev pub IsFaithful : (FileFingerprint → Result String String) → Reading → Type 0
IsFaithful content_of reading =
    ((file : AuthFile) (m : ℕ)
      → reading.file ≡ ok file
      → file.modified ≡ ok m
      → file.content ≡ content_of (record { len = file.len; modified = m }))
    × (reading.first ≡ reading.second)

fingerprint-eq : (a b : FileFingerprint) → same_fingerprint a b ≡ true → a ≡ b
unfolding same_fingerprint
fingerprint-eq a b h = ground arith

ensure_current-twice :
    (now : ℕ) (credential : SessionCredential)
    → (ensure_current now credential >>= ensure_current now) ≡ ensure_current now credential
unfolding ensure_current
ensure_current-twice now credential = elim (Bool-cases (leb credential.expires_at now)) [
  | inl late ↦ rw late refl
  | inr early ↦ rw (early, early) refl
]

pub ensure_current-ok :
    (now : ℕ) (credential current : SessionCredential)
    → ensure_current now credential ≡ ok current
    → (credential ≡ current) × (leb credential.expires_at now ≡ false)
unfolding ensure_current
ensure_current-ok now credential current h = elim (Bool-cases (leb credential.expires_at now)) [
  | inl late ↦ ground arith
  | inr early ↦ (ok_inj {E = CredentialError} (ground arith), early)
]

taken :
    (b : Bool) (c d : SessionCredential) → b ≡ true → (if b then some c else none) ≡ some d → c ≡ d
taken true c d t h = ground arith
taken false c d t h = ground arith

pub store-result :
    (fingerprint : FileFingerprint) (cached : Option CachedCredential)
    (r : Result CredentialError SessionCredential)
    → (store fingerprint cached r).0 ≡ r
unfolding store
store-result fingerprint cached (ok c) = refl
store-result fingerprint cached (err e) = refl

read_result-ok : {A : Type 0} (r : Result String A) (a : A) → read_result r ≡ ok a → r ≡ ok a
read_result-ok (ok b) a h = ap ok (ok_inj h)
read_result-ok (err e) a h = ground arith

module _ (from_str : ReadMap) (content_of : FileFingerprint → Result String String) where
  -- A cached credential is the one in the content that belongs to its fingerprint.
  abbrev pub IsSound : Option CachedCredential → Type 0
  IsSound none = Unit {0}
  IsSound (some entry) =
      (read_result (content_of entry.fingerprint) >>= select from_str) ≡ ok entry.credential

  content-cached :
      (content : Result String String) (first second : ℕ) (credential : SessionCredential)
      → first ≡ second
      → (read_result content >>= select from_str) ≡ ok credential
      → (read_result content
          >>= (λ raw. (select from_str raw >>= ensure_current first) >>= ensure_current second))
        ≡ ensure_current first credential
  content-cached (err e) first second credential still h = ground arith
  content-cached (ok raw) first second credential still h =
      subst
        (λ now.
          ((select from_str raw >>= ensure_current first) >>= ensure_current now)
          ≡ ensure_current first credential)
        still (rw h (ensure_current-twice first credential))

  pub open_auth-content :
      (reading : Reading) (file : AuthFile) (fingerprint : FileFingerprint)
      → IsFaithful content_of reading
      → open_auth reading ≡ ok (file, fingerprint)
      → file.content ≡ content_of fingerprint
  unfolding open_auth
  open_auth-content reading file fingerprint (faithful, still) h =
      let (opened, at, rest) =
        ok_of_bind (read_result reading.file)
          (λ file.
            validate_auth_metadata file
            >> (read_result file.modified
                >>= (λ modified. ok (file, record { len = file.len; modified = modified }))))
          h in
      let (u, valid, more) =
        ok_of_bind (validate_auth_metadata opened)
          (λ unused.
            read_result opened.modified
            >>= (λ modified. ok (opened, record { len = opened.len; modified = modified })))
          rest in
      let (m, when, last) =
        ok_of_bind (read_result opened.modified)
          (λ modified. ok (opened, record { len = opened.len; modified = modified })) more in
      let same = ok_inj last in
      subst (λ (pair : AuthFile × FileFingerprint). pair.0.content ≡ content_of pair.1) same
        (faithful opened m (read_result-ok reading.file opened at)
          (read_result-ok opened.modified m when))

  pub read_fresh-cached :
      (reading : Reading) (file : AuthFile) (credential : SessionCredential)
      → reading.first ≡ reading.second
      → (read_result file.content >>= select from_str) ≡ ok credential
      → read_fresh from_str reading file ≡ ensure_current reading.first credential
  unfolding read_fresh parse_auth_map
  read_fresh-cached reading file credential still h =
      content-cached file.content reading.first reading.second credential still h

  -- A cached entry of the fingerprint.
  pub IsSound-cached_for :
      (fingerprint : FileFingerprint) (cached : Option CachedCredential)
      (credential : SessionCredential)
      → IsSound cached
      → cached_for fingerprint cached ≡ some credential
      → (read_result (content_of fingerprint) >>= select from_str) ≡ ok credential
  unfolding cached_for
  IsSound-cached_for fingerprint none credential sound h = ground arith
  IsSound-cached_for fingerprint (some entry) credential sound h =
      elim (Bool-cases (same_fingerprint entry.fingerprint fingerprint)) [
        | inl same ↦
            subst (λ print. (read_result (content_of print) >>= select from_str) ≡ ok credential)
              (fingerprint-eq entry.fingerprint fingerprint same)
              (sound ∙ ap ok (taken _ entry.credential credential same h))
        | inr other ↦ ground arith
      ]

  content-selected :
      (reading : Reading) (file : AuthFile) (credential : SessionCredential)
      → read_fresh from_str reading file ≡ ok credential
      → (read_result file.content >>= select from_str) ≡ ok credential
  unfolding read_fresh parse_auth_map
  content-selected reading file credential h =
      let (raw, at, rest) =
        ok_of_bind (read_result file.content)
          (λ raw.
            (select from_str raw >>= ensure_current reading.first)
            >>= ensure_current reading.second)
          h in
      let (parsed, first, second) =
        ok_of_bind (select from_str raw >>= ensure_current reading.first)
          (ensure_current reading.second) rest in
      let (chosen, selected, current) =
        ok_of_bind (select from_str raw) (ensure_current reading.first) first in
      ap (λ r. r >>= select from_str) at
      ∙ selected
      ∙ ap ok (ensure_current-ok reading.first chosen parsed current).0
      ∙ ap ok (ensure_current-ok reading.second parsed credential second).0

  pub IsSound-store :
      (reading : Reading) (file : AuthFile) (fingerprint : FileFingerprint)
      (cached : Option CachedCredential) (r : Result CredentialError SessionCredential)
      → IsSound cached
      → file.content ≡ content_of fingerprint
      → read_fresh from_str reading file ≡ r
      → IsSound (store fingerprint cached r).1
  unfolding store
  IsSound-store reading file fingerprint cached (err e) sound content h = sound
  IsSound-store reading file fingerprint cached (ok credential) sound content h =
      ap (λ c. read_result c >>= select from_str) (sym content)
      ∙ content-selected reading file credential h
