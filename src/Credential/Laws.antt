-- ===== src/Credential/Laws.antt =====
-- The cache of src/credential.rs changes no result.
use grok_codex_bridge.Base.{
  cons-same, All, Result, ok, err, ◌>>=◌, String, ◌≡◌, refl, sym, ap, ◌∙◌, Option, none, some, List,
  [], ◌∷◌, map,
}
use grok_codex_bridge.Credential.{CredentialError, SessionCredential, ReadMap, select}
use grok_codex_bridge.Credential.Sound.{
  IsFaithful, store-result, IsSound, open_auth-content, read_fresh-cached, IsSound-cached_for,
  IsSound-store,
}
use grok_codex_bridge.Credential.Store.{
  FileFingerprint, CachedCredential, AuthFile, Reading, read_result, cached_for, open_auth,
  load_opened, load_from, load, loads,
}

module _ (from_str : ReadMap) (content_of : FileFingerprint → Result String String) where
  load_opened-same :
      (reading : Reading) (file : AuthFile) (fingerprint : FileFingerprint)
      (cached : Option CachedCredential) (found : Option SessionCredential)
      → IsFaithful content_of reading
      → IsSound from_str content_of cached
      → file.content ≡ content_of fingerprint
      → cached_for fingerprint cached ≡ found
      → ((load_opened from_str reading file fingerprint cached found).0
          ≡ (load_opened from_str reading file fingerprint none none).0)
        × IsSound from_str content_of (load_opened from_str reading file fingerprint cached found).1
  unfolding load_opened
  load_opened-same reading file fingerprint cached none (faithful, still) sound content h = (
    store-result fingerprint cached _ ∙ sym (store-result fingerprint none _),
    IsSound-store from_str content_of reading file fingerprint cached _ sound content refl,
  )
  load_opened-same reading file fingerprint cached (some c) (faithful, still) sound content h = (
    sym (
        store-result fingerprint none _
        ∙ read_fresh-cached from_str content_of reading file c still (
            ap (λ r. read_result r >>= select from_str) content
            ∙ IsSound-cached_for from_str content_of fingerprint cached c sound h)),
    sound,
  )

  load_from-same :
      (reading : Reading) (cached : Option CachedCredential)
      (opened : Result CredentialError (AuthFile × FileFingerprint))
      → IsFaithful content_of reading
      → IsSound from_str content_of cached
      → open_auth reading ≡ opened
      → ((load_from from_str reading cached opened).0 ≡ (load_from from_str reading none opened).0)
        × IsSound from_str content_of (load_from from_str reading cached opened).1
  unfolding load_from cached_for
  load_from-same reading cached (err e) faithful sound h = (refl, sound)
  load_from-same reading cached (ok (file, fingerprint)) faithful sound h =
      load_opened-same reading file fingerprint cached (cached_for fingerprint cached) faithful
        sound (open_auth-content from_str content_of reading file fingerprint faithful h) refl

  load-same :
      (reading : Reading) (cached : Option CachedCredential)
      → IsFaithful content_of reading
      → IsSound from_str content_of cached
      → ((load from_str reading cached).0 ≡ (load from_str reading none).0)
        × IsSound from_str content_of (load from_str reading cached).1
  unfolding load
  load-same reading cached faithful sound =
      load_from-same reading cached (open_auth reading) faithful sound refl

  loads-same :
      (readings : List Reading) (cached : Option CachedCredential)
      → All (IsFaithful content_of) readings
      → IsSound from_str content_of cached
      → loads from_str readings cached ≡ map (λ reading. (load from_str reading none).0) readings
  unfolding loads
  loads-same [] cached faithful sound = refl
  loads-same (reading ∷ readings) cached (here, faithful) sound =
      let (same, later) = load-same reading cached here sound in
      cons-same same (loads-same readings (load from_str reading cached).1 faithful later)

  -- Where a file's content belongs to its fingerprint and no time passes within a load, loads that share
  -- the cache, which is empty at first, give what each gives without one.
  pub loads-uncached :
      (readings : List Reading)
      → All (IsFaithful content_of) readings
      → loads from_str readings none ≡ map (λ reading. (load from_str reading none).0) readings
  loads-uncached readings faithful = loads-same readings none faithful tt
