-- ===== src/Credential/Store.antt =====
-- `CredentialStore::load` of src/credential.rs, with its cache.
use grok_codex_bridge.Base.{
  ℕ, ◌*◌, ◌%◌, leb, nat_eq, Bool, ◌&&◌, ◌||◌, Option, none, some, List, [], ◌∷◌, String,
  if◌then◌else◌, Result, ok, err, guard, not, ◌>>=◌, ◌>>◌,
}
use grok_codex_bridge.Credential.{
  CredentialError, read_auth, unsafe_auth_file_type, unsafe_auth_permissions,
  invalid_auth_file_size, SessionCredential, ReadMap, parse_auth_map, ensure_current,
}

-- The length of the file and the time of its last change.
pub record FileFingerprint : Type 0 where
  pub len : ℕ
  pub modified : ℕ

pub record CachedCredential : Type 0 where
  pub fingerprint : FileFingerprint
  pub credential : SessionCredential

-- The opened file: its metadata and its content, or the kinds of their errors.
pub record AuthFile : Type 0 where
  pub is_file : Bool
  pub mode : ℕ
  pub len : ℕ
  pub modified : Result String ℕ
  pub content : Result String String

-- What one load meets: the file, and the clock at its first and its second reading.
pub record Reading : Type 0 where
  pub file : Result String AuthFile
  pub first : ℕ
  pub second : ℕ

-- The lowest six bits of the mode are those of the group and the others.
unfoldable pub validate_auth_metadata : AuthFile → Result CredentialError (Unit {0})
validate_auth_metadata file =
    guard file.is_file unsafe_auth_file_type
    >> guard (nat_eq (file.mode % 0o100) 0) unsafe_auth_permissions
    >> guard (not (nat_eq file.len 0 || not (leb file.len (1024 * 1024)))) invalid_auth_file_size

abbrev pub read_result : {A : Type 0} → Result String A → Result CredentialError A
read_result (ok a) = ok a
read_result (err kind) = err (read_auth kind)

unfoldable pub same_fingerprint : FileFingerprint → FileFingerprint → Bool
same_fingerprint a b = nat_eq a.len b.len && nat_eq a.modified b.modified

-- The cached credential, if it is of this fingerprint.
unfoldable pub cached_for : FileFingerprint → Option CachedCredential → Option SessionCredential
cached_for fingerprint none = none
cached_for fingerprint (some entry) =
    if same_fingerprint entry.fingerprint fingerprint then some entry.credential else none

-- The file is opened and its metadata is checked.
unfoldable pub open_auth : Reading → Result CredentialError (AuthFile × FileFingerprint)
open_auth reading = do
  file ← read_result reading.file
  checked ← validate_auth_metadata file
  modified ← read_result file.modified
  ok (file, record { len = file.len; modified = modified })

-- The file is read and its session taken; a load with no cache.
unfoldable pub read_fresh : ReadMap → Reading → AuthFile → Result CredentialError SessionCredential
read_fresh from_str reading file = do
  raw ← read_result file.content
  credential ← parse_auth_map from_str reading.first raw
  ensure_current reading.second credential

-- The cache after a load that read the file.
unfoldable pub store :
    FileFingerprint
    → Option CachedCredential
    → Result CredentialError SessionCredential
    → Result CredentialError SessionCredential × Option CachedCredential
store fingerprint cached (err e) = (err e, cached)
store fingerprint cached (ok credential) =
    (ok credential, some (record { fingerprint = fingerprint; credential = credential }))

unfoldable pub load_opened :
    ReadMap
    → Reading
    → AuthFile
    → FileFingerprint
    → Option CachedCredential
    → Option SessionCredential
    → Result CredentialError SessionCredential × Option CachedCredential
load_opened from_str reading file fingerprint cached (some credential) =
    (ensure_current reading.first credential, cached)
load_opened from_str reading file fingerprint cached none =
    store fingerprint cached (read_fresh from_str reading file)

unfoldable pub load_from :
    ReadMap
    → Reading
    → Option CachedCredential
    → Result CredentialError (AuthFile × FileFingerprint)
    → Result CredentialError SessionCredential × Option CachedCredential
load_from from_str reading cached (err e) = (err e, cached)
load_from from_str reading cached (ok (file, fingerprint)) =
    load_opened from_str reading file fingerprint cached (cached_for fingerprint cached)

-- `load`: the result and the cache after it
unfoldable pub load :
    ReadMap
    → Reading
    → Option CachedCredential
    → Result CredentialError SessionCredential × Option CachedCredential
load from_str reading cached = load_from from_str reading cached (open_auth reading)

-- The results of loads that follow each other.
unfoldable pub loads :
    ReadMap
    → List Reading
    → Option CachedCredential
    → List (Result CredentialError SessionCredential)
loads from_str [] cached = []
loads from_str (reading ∷ readings) cached =
    let done = load from_str reading cached in done.0 ∷ loads from_str readings done.1
