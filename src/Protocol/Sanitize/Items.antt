-- ===== src/Protocol/Sanitize/Items.antt =====
-- The items of a sanitized input (src/protocol.rs), one by one and as a list.
use grok_codex_bridge.Base.{
  if◌then◌else◌, Option-cases, is_some, ◌≢◌, String, ap, Option, none, some, ◌==◌, nat_eq,
  Bool-cases, length, any, All, ℕ, ◌≤◌, ◌≡◌, refl, ◌∙◌, inl, inr, Bool, true, false, not, List, [],
  ◌∷◌, arith, eq_iff,
}
use grok_codex_bridge.Base.Text.{strip_prefix}
use grok_codex_bridge.Base.Text.Laws.{append-strip_prefix, strip_prefix-append}
use grok_codex_bridge.Json.{bool, number, string, array, get, Map, get_str, Value, null, object}
use grok_codex_bridge.Protocol.Restore.{is_type}
use grok_codex_bridge.Protocol.Restore.Reasoning.{envelope_prefix, has_prefix}
use grok_codex_bridge.Protocol.Sanitize.{
  has_grok_ciphertext, is_grok_reasoning, is_provider_owned, retain, loses_id, strip_id, strip_ids,
  sanitize_items,
}
use Prim.Native.String
use grok_codex_bridge.Json.Laws.{get-remove}

strip_id_unchanged :
    (mixed : Bool) (v : Value) → (strip_id mixed v).0 ≡ false → (strip_id mixed v).1 ≡ v
unfolding strip_id
strip_id_unchanged mixed (object m) h = ground arith
strip_id_unchanged mixed null h = refl
strip_id_unchanged mixed _ h = refl

strip_ids_unchanged :
    (mixed : Bool) (vs : List Value) → (strip_ids mixed vs).0 ≡ false → (strip_ids mixed vs).1 ≡ vs
unfolding strip_ids
strip_ids_unchanged mixed [] h = refl
strip_ids_unchanged mixed (v ∷ vs) h =
    ground (arith, strip_id_unchanged mixed v, strip_ids_unchanged mixed vs)

length-retain : (keep : Value → Bool) (vs : List Value) → length (retain keep vs) ≤ length vs
unfolding retain
length-retain keep [] = omega arith
length-retain keep (v ∷ vs) = ground (arith, length-retain keep vs)

-- A retain that drops nothing is the identity.
retain_same :
    (keep : Value → Bool) (vs : List Value)
    → length (retain keep vs) ≡ length vs
    → retain keep vs ≡ vs
unfolding retain
retain_same keep [] h = refl
retain_same keep (v ∷ vs) h = ground (arith, length-retain keep vs, retain_same keep vs)

pub sanitize_items_unchanged :
    (vs : List Value) → (sanitize_items vs).0 ≡ false → (sanitize_items vs).1 ≡ vs
unfolding sanitize_items
sanitize_items_unchanged vs h = ground (
  arith,
  retain_same (λ v. not (is_provider_owned v)) vs,
  strip_ids_unchanged true (retain (λ v. not (is_provider_owned v)) vs),
  strip_ids_unchanged false vs,
)

is_grok_reasoning-strip_id :
    (mixed : Bool) (v : Value) → is_grok_reasoning (strip_id mixed v).1 ≡ is_grok_reasoning v
unfolding strip_id is_grok_reasoning
is_grok_reasoning-strip_id mixed (object m) = ground (
  arith,
  get-remove m "id" "type",
  get-remove m "id" "encrypted_content",
  eq_iff "id" "type",
  eq_iff "id" "encrypted_content",
)
is_grok_reasoning-strip_id mixed null = refl
is_grok_reasoning-strip_id mixed _ = refl

is_grok_reasoning-owned : (v : Value) → is_provider_owned v ≡ false → is_grok_reasoning v ≡ false
unfolding is_grok_reasoning is_provider_owned
is_grok_reasoning-owned (object m) h = ground arith
is_grok_reasoning-owned null h = refl
is_grok_reasoning-owned _ h = refl

any-strip_ids :
    (mixed : Bool) (vs : List Value)
    → any is_grok_reasoning (strip_ids mixed vs).1 ≡ any is_grok_reasoning vs
unfolding strip_ids
any-strip_ids mixed [] = refl
any-strip_ids mixed (v ∷ vs) =
    ground (arith, is_grok_reasoning-strip_id mixed v, any-strip_ids mixed vs)

any-retain :
    (vs : List Value) → any is_grok_reasoning (retain (λ v. not (is_provider_owned v)) vs) ≡ false
unfolding retain
any-retain [] = refl
any-retain (v ∷ vs) = ground (arith, any-retain vs, is_grok_reasoning-owned v)

pub any-sanitize_items : (vs : List Value) → any is_grok_reasoning (sanitize_items vs).1 ≡ false
unfolding sanitize_items
any-sanitize_items vs = elim (Bool-cases (any is_grok_reasoning vs)) [
  | inl e ↦ simp e (any-strip_ids true (retain (λ v. not (is_provider_owned v)) vs) ∙ any-retain vs)
  | inr e ↦ simp e (any-strip_ids false vs ∙ e)
]

-- Whatever the first pass was, a pass without Grok reasoning finds nothing more to strip.
strip_id_again :
    (mixed : Bool) (v : Value) → strip_id false (strip_id mixed v).1 ≡ (false, (strip_id mixed v).1)
unfolding strip_id loses_id
strip_id_again mixed (object m) = ground (arith, get-remove m "id" "id")
strip_id_again mixed null = refl
strip_id_again mixed _ = refl

strip_ids_again :
    (mixed : Bool) (vs : List Value)
    → strip_ids false (strip_ids mixed vs).1 ≡ (false, (strip_ids mixed vs).1)
unfolding strip_ids
strip_ids_again mixed [] = refl
strip_ids_again mixed (v ∷ vs) = ground (arith, strip_id_again mixed v, strip_ids_again mixed vs)

items_stripped :
    (vs : List Value) → strip_ids false (sanitize_items vs).1 ≡ (false, (sanitize_items vs).1)
unfolding sanitize_items
items_stripped vs = elim (Bool-cases (any is_grok_reasoning vs)) [
  | inl e ↦ simp e (strip_ids_again true (retain (λ v. not (is_provider_owned v)) vs))
  | inr e ↦ simp e (strip_ids_again false vs)
]

nat_eq_self : (n : ℕ) → nat_eq n n ≡ true
nat_eq_self n = ground arith

-- Without Grok reasoning the only change is that of `strip_ids`.
sanitize_items_native :
    (vs : List Value)
    → any is_grok_reasoning vs ≡ false
    → strip_ids false vs ≡ (false, vs)
    → sanitize_items vs ≡ (false, vs)
unfolding sanitize_items
sanitize_items_native vs h k = simp (h, k, nat_eq_self)

pub sanitize_items_again :
    (vs : List Value) → sanitize_items (sanitize_items vs).1 ≡ (false, (sanitize_items vs).1)
sanitize_items_again vs = sanitize_items_native _ (any-sanitize_items vs) (items_stripped vs)

-- The tool searches of a Native history carry identifiers that Codex made, or none.
abbrev pub HasNativeId : Value → Type 0
HasNativeId (object m) =
    get_str m "type" ≡ some "tool_search_call"
    → (id : String) → get_str m "id" ≡ some id
    → (rest : String) × (id ≡ String.◌++◌ "tsc_" rest)
HasNativeId v = Unit {0}

loses_id_native :
    (m : Map) (kind id : Option String)
    → get_str m "type" ≡ kind
    → get_str m "id" ≡ id
    → HasNativeId (object m)
    → loses_id false m ≡ false
unfolding loses_id
loses_id_native m none id t i h = ground arith
loses_id_native m (some kind) none t i h = ground arith
loses_id_native m (some kind) (some id) t i h = elim (Bool-cases (kind == "tool_search_call")) [
  | inl e ↦
      let (rest, made) = h (t ∙ ap some ((eq_iff kind "tool_search_call").0 e)) id i in
      ground (arith, ap (has_prefix "tsc_") made, strip_prefix-append "tsc_" rest)
  | inr e ↦ ground arith
]

strip_id_native : (v : Value) → HasNativeId v → strip_id false v ≡ (false, v)
unfolding strip_id
strip_id_native (object m) h = ground (arith, loses_id_native m _ _ refl refl h)
strip_id_native null h = refl
strip_id_native _ h = refl

-- The reasoning of a Native history carries no ciphertext that is null or begins with Grok's envelope.
abbrev pub HasNativeCiphertext : Value → Type 0
HasNativeCiphertext (object m) =
    get_str m "type" ≡ some "reasoning"
    → (get m "encrypted_content" ≢ some null)
      × ((rest : String)
          → get m "encrypted_content" ≢ some (string (String.◌++◌ "grok-codex-bridge:v1:" rest)))
HasNativeCiphertext v = Unit {0}

-- The items that keep a Native history as it is.
abbrev pub IsNativeItem : Value → Type 0
IsNativeItem v = HasNativeCiphertext v × HasNativeId v

has_grok_ciphertext_native :
    (o : Option Value)
    → o ≢ some null
    → ((rest : String) → o ≢ some (string (String.◌++◌ "grok-codex-bridge:v1:" rest)))
    → has_grok_ciphertext o ≡ false
has_grok_ciphertext_native none filled other = refl
has_grok_ciphertext_native (some null) filled other = absurd (filled refl)
has_grok_ciphertext_native (some (string s)) filled other =
    elim (Option-cases (strip_prefix envelope_prefix s)) [
      | inl e ↦ ap is_some e
      | inr (rest, e) ↦
          absurd
            (other rest (ap (λ t. some (string t)) (append-strip_prefix envelope_prefix s rest e)))
    ]
has_grok_ciphertext_native (some (bool b)) filled other = refl
has_grok_ciphertext_native (some (number n)) filled other = refl
has_grok_ciphertext_native (some (array vs)) filled other = refl
has_grok_ciphertext_native (some (object m)) filled other = refl

is_grok_reasoning_native : (v : Value) → HasNativeCiphertext v → is_grok_reasoning v ≡ false
unfolding is_grok_reasoning
is_grok_reasoning_native (object m) h = go (get_str m "type") refl
  where
    go :
        (kind : Option String)
        → get_str m "type" ≡ kind
        → (if is_type m "reasoning" then has_grok_ciphertext (get m "encrypted_content") else false)
          ≡ false
    go none t = ground arith
    go (some kind) t = elim (Bool-cases (kind == "reasoning")) [
      | inl e ↦
          let (filled, other) = h (t ∙ ap some ((eq_iff kind "reasoning").0 e)) in
          let native = has_grok_ciphertext_native (get m "encrypted_content") filled other in
          ground (arith, native)
      | inr e ↦ ground arith
    ]
is_grok_reasoning_native null h = refl
is_grok_reasoning_native _ h = refl

native_items :
    (vs : List Value)
    → All IsNativeItem vs
    → (any is_grok_reasoning vs ≡ false) × (strip_ids false vs ≡ (false, vs))
unfolding strip_ids
native_items [] h = (refl, refl)
native_items (v ∷ vs) h =
    ground (arith, native_items vs h.1, strip_id_native v h.0.1, is_grok_reasoning_native v h.0.0)

pub sanitize_items_of_native :
    (vs : List Value) → All IsNativeItem vs → sanitize_items vs ≡ (false, vs)
sanitize_items_of_native vs h =
    let (plain, kept) = native_items vs h in sanitize_items_native vs plain kept
