-- ===== src/Server/Body/Laws.antt =====
-- What the first-party service decodes from the body that src/server.rs forwards.
use grok_codex_bridge.Base.{
  sym, ap, ◌∙◌, Bool, ◌⊎◌, ℕ, ◌≤◌, ◌+◌, true, false, Option, none, some, List, String, ◌==◌, eq_iff,
  ◌≡◌, refl, inl, inr, arith, Bool-cases, length, leb_iff,
}
use grok_codex_bridge.Json.{◌and_then◌, end, field, Value, string, object, Map, insert}
use grok_codex_bridge.Protocol.Sanitize.Laws.{sanitize_unchanged}
use grok_codex_bridge.Server.Body.{
  body_for, native_request_body, max_responses_body_bytes, RoutedRequest, into_value, Codec,
  Encoding, decode_as, decode_request_copy, encode_as, encoded, override_model, sanitized,
}
use grok_codex_bridge.Base.Trim.{trim}
use mathlib.Core.Path.{subst}
use grok_codex_bridge.Json.Laws.{get-insert}
use grok_codex_bridge.Native.Transport.{NativeApiPath, is_responses}
use text.Mathlib.TextPositions.{eq_refl}

-- What zstd promises: it unpacks what it packed, up to the limit that it is given.
abbrev pub IsCodec : Codec → Type 0
IsCodec codec =
    (b packed : List ℕ) (n : ℕ)
    → codec.zstd_encode b ≡ some packed
    → length b ≤ n
    → codec.zstd_decode n packed ≡ some b

module _ (codec : Codec) (lawful : IsCodec codec) where
  decode_as-encode_as :
      (e : String) (b packed : List ℕ)
      → length b ≤ max_responses_body_bytes
      → encode_as codec e b ≡ some packed
      → decode_as codec e packed ≡ some b
  decode_as-encode_as e b packed l h = elim (Bool-cases (e == "identity")) [
    | inl i ↦ ground (arith, i, h)
    | inr i ↦ elim (Bool-cases (e == "zstd")) [
      | inl z ↦
          let written : codec.zstd_encode b ≡ some packed = ground (arith, i, z, h) in
          let unpacked = lawful b packed (max_responses_body_bytes + 1) written (omega arith) in
          rw (i, z, unpacked, (leb_iff (length b) max_responses_body_bytes).1 l) refl
      | inr z ↦ ground (arith, i, z, h)
    ]
  ]

  -- What is coded within the limit is decoded again.
  decode_request_copy-encoded :
      (encoding : Encoding) (b packed : List ℕ)
      → length b ≤ max_responses_body_bytes
      → encoded codec encoding b ≡ some packed
      → decode_request_copy codec encoding packed ≡ some b
  unfolding encoded decode_request_copy
  decode_request_copy-encoded none b packed l h = ground arith
  decode_request_copy-encoded (some none) b packed l h = ground arith
  decode_request_copy-encoded (some (some e)) b packed l h =
      decode_as-encode_as (trim e) b packed l h

insert-insert_same : (m : Map) (k : String) (v : Value) → insert (insert m k v) k v ≡ insert m k v
unfolding insert
insert-insert_same end k v = ground (arith, eq_refl k)
insert-insert_same (field j w m) k v = ground (arith, eq_refl k, insert-insert_same m k v)

override_model-same :
    (r : RoutedRequest) (model_override : Option String)
    → (override_model model_override (into_value r)).0 ≡ false
    → (override_model model_override (into_value r)).1 ≡ into_value r
unfolding override_model into_value
override_model-same r none h = refl
override_model-same r (some model) h =
    let named : (r.model == model) ≡ true =
      ground (arith, h, get-insert r.fields "model" (string r.model) "model") in
    rw (← ((eq_iff r.model model).0 named)) (insert-insert_same r.fields "model" (string r.model))

sanitized-same :
    (path : NativeApiPath) (m : Map)
    → (sanitized path m).0 ≡ false
    → (sanitized path m).1 ≡ object m
unfolding sanitized
sanitized-same path m h = elim (Bool-cases (is_responses path)) [
  | inr p ↦ rw p refl
  | inl p ↦ rw p (sanitize_unchanged (object m) (rw p at h))
]

sanitized-elsewhere :
    (path : NativeApiPath) (m : Map) → is_responses path ≡ false → (sanitized path m).0 ≡ false
unfolding sanitized
sanitized-elsewhere path m h = rw h refl

some_of_and_then :
    {A B : Type 0} (o : Option A) (f : A → Option B) {y : B}
    → (o and_then f) ≡ some y
    → (x : A) × (o ≡ some x) × (f x ≡ some y)
some_of_and_then none f h = ground arith
some_of_and_then (some x) f h = (x, refl, h)

-- The request that is meant for the first-party service: the model replaced, and on the path of
-- Responses the history sanitized.
abbrev pub meant : NativeApiPath → RoutedRequest → Option String → Value
meant path r model_override = (sanitized path (override_model model_override (into_value r)).1).1

body_for-forwards :
    (codec : Codec) (on_responses model_changed changed : Bool) (encoding : Encoding)
    (raw out : List ℕ) (value : Value)
    → (on_responses ≡ false → changed ≡ false)
    → body_for codec on_responses model_changed changed encoding raw value ≡ some out
    → ((raw ≡ out) × (model_changed ≡ false) × (changed ≡ false))
      ⊎ ((b : List ℕ) × (codec.to_vec value ≡ some b) × (encoded codec encoding b ≡ some out))
body_for-forwards codec false false changed encoding raw out value u h =
    inl (ground arith, refl, u refl)
body_for-forwards codec true false false encoding raw out value u h = inl (ground arith, refl, refl)
body_for-forwards codec true false true encoding raw out value u h =
    inr (some_of_and_then (codec.to_vec value) (encoded codec encoding) h)
body_for-forwards codec false true false encoding raw out value u h =
    inr (some_of_and_then (codec.to_vec value) (encoded codec encoding) h)
body_for-forwards codec false true true encoding raw out value u h =
    inr (some_of_and_then (codec.to_vec value) (encoded codec encoding) h)
body_for-forwards codec true true false encoding raw out value u h =
    inr (some_of_and_then (codec.to_vec value) (encoded codec encoding) h)
body_for-forwards codec true true true encoding raw out value u h =
    inr (some_of_and_then (codec.to_vec value) (encoded codec encoding) h)

-- What `serde_json` writes of an object is within the size limit, and reading it gives the object back.
-- This is so for an object that has no fractions and is not deep.
abbrev pub IsWritable : Codec → Value → Type 0
IsWritable codec value =
    (b : List ℕ)
    → codec.to_vec value ≡ some b
    → (length b ≤ max_responses_body_bytes)
      × ((r : RoutedRequest) × (codec.from_slice b ≡ some r) × (object (into_value r) ≡ value))

-- Where the coder of zstd unpacks what it packs, and the JSON of the request that is meant for the
-- first-party service is within the size limit and is read back as that request: what the service
-- decodes and reads from the body that is forwarded is the request that is meant for it.
pub native_request_body_lem :
    (codec : Codec) (path : NativeApiPath) (encoding : Encoding) (raw decoded out : List ℕ)
    (r : RoutedRequest) (model_override : Option String)
    → IsCodec codec
    → decode_request_copy codec encoding raw ≡ some decoded
    → codec.from_slice decoded ≡ some r
    → IsWritable codec (meant path r model_override)
    → native_request_body codec path encoding raw (into_value r) model_override ≡ some out
    → (copy : List ℕ) × (r' : RoutedRequest) × (decode_request_copy codec encoding out ≡ some copy)
      × (codec.from_slice copy ≡ some r')
      × (object (into_value r') ≡ meant path r model_override)
unfolding native_request_body
native_request_body_lem codec path encoding raw decoded out r model_override lawful d s writable h =
    let (model_changed, m) = override_model model_override (into_value r) in
    let (changed, value) = sanitized path m in
    elim (body_for-forwards codec (is_responses path) model_changed changed encoding raw out value
      (sanitized-elsewhere path m) h) [
        | inl (same, unchanged, untouched) ↦ (
          decoded,
          r,
          subst (λ x. decode_request_copy codec encoding x ≡ some decoded) same d,
          s,
          ap object (sym (override_model-same r model_override unchanged))
              ∙ sym (sanitized-same path m untouched),
        )
        | inr (b, written, coded) ↦
            let (small, (r', back, whole)) = writable b written in
            (
              b,
              r',
              decode_request_copy-encoded codec lawful encoding b out small coded,
              back,
              whole,
            )
      ]
