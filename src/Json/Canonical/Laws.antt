-- ===== src/Json/Canonical/Laws.antt =====
-- Canonical numbers keep their value, and a second pass changes nothing.
use grok_codex_bridge.Base.{
  Bool-cases, Option-cases, inl, inr, Bool, if◌then◌else◌, zero, ◌≤◌, ◌<◌, get_or, suc, ◌-◌, ◌*◌,
  ◌/◌, ◌^◌, ◌≡◌, refl, ap, ◌⊎◌, true, false, none, some, arith, ℕ,
}
use grok_codex_bridge.Json.Canonical.{
  round_to_f64, to_i64, from_i64, integer_valued_json_number, canonicalize, canonicalize_all,
  canonicalize_values,
}
use mathlib.Core.Path.{subst}
use native.Mathlib.Decide.{dec_le}
use Prim.Native.Nat.{min}
use native.Mathlib.Nat.{mul-div_cancel, div-le_of_le-mul, mul_comm, pow-suc}
use grok_codex_bridge.Json.{
  Float, Number, pos_int, neg_int, float, Value, null, bool, number, string, array, object, Values,
  nil, cons, Map, end, field,
}

-- The number stands for the same rational as the float.
abbrev pub SameNumber : Number → Float → Type 0
SameNumber (pos_int k) f = (f.numerator ≡ k * 2 ^ f.scale) × ((f.negative ≡ false) ⊎ (k ≡ 0))
SameNumber (neg_int k) f = (f.numerator ≡ suc k * 2 ^ f.scale) × (f.negative ≡ true)
SameNumber (float g) f = g ≡ f

abbrev pub IsTwoTo63 : Float → Type 0
IsTwoTo63 f = (f.negative ≡ false) × (f.numerator ≡ 2 ^ 63 * 2 ^ f.scale)

two_pow-pos : (s : ℕ) → 0 < 2 ^ s
two_pow-pos zero = omega arith
two_pow-pos (suc s) = omega (arith, two_pow-pos s, pow-suc 2 s)

mul-div_pow : (k s : ℕ) → k * 2 ^ s / 2 ^ s ≡ k
mul-div_pow k s = mul-div_cancel k (two_pow-pos s)

-- What the two tests of `integer_valued_json_number` say of a float that passes them.
exact_numerator :
    (num s r : ℕ)
    → r * 2 ^ s ≡ num
    → num ≤ 2 ^ 63 * 2 ^ s
    → (num ≡ num / 2 ^ s * 2 ^ s) × (num / 2 ^ s ≤ 2 ^ 63)
exact_numerator num s r e le = (
  rw (← e) (rw (mul-div_pow r s)),
  (div-le_of_le-mul (2 ^ s) (rw (mul_comm (2 ^ s) (2 ^ 63)) le)),
)

SameNumber-negative :
    (f : Float) (t : ℕ)
    → f.negative ≡ true
    → f.numerator ≡ t * 2 ^ f.scale
    → SameNumber (from_i64 true t) f
SameNumber-negative f zero n e = (e, inr refl)
SameNumber-negative f (suc t) n e = (e, n)

SameNumber-positive :
    (f : Float) (t : ℕ)
    → f.negative ≡ false
    → f.numerator ≡ t * 2 ^ f.scale
    → SameNumber (from_i64 false t) f
SameNumber-positive f zero n e = (e, inr refl)
SameNumber-positive f (suc t) n e = (e, inl n)

abbrev IsKept : Number → Float → Type 0
IsKept n f = SameNumber n f ⊎ IsTwoTo63 f × (n ≡ pos_int (2 ^ 63 - 1))

IsKept-from_i64 :
    (f : Float) (t : ℕ)
    → f.numerator ≡ t * 2 ^ f.scale
    → t ≤ 2 ^ 63
    → IsKept (from_i64 f.negative (min t (if f.negative then 2 ^ 63 else 2 ^ 63 - 1))) f
IsKept-from_i64 f t e le = elim (Bool-cases f.negative) [
  | inl n ↦
      let m : min t (2 ^ 63) ≡ t = omega arith in inl (simp n (rw m (SameNumber-negative f t n e)))
  | inr n ↦ elim (dec_le t (2 ^ 63 - 1)) [
    | yes small ↦
        let m : min t (2 ^ 63 - 1) ≡ t = omega arith in
        inl (simp n (rw m (SameNumber-positive f t n e)))
    | no big ↦ let m : t ≡ 2 ^ 63 = omega arith in inr ((n, rw (← m) e), rw (n, m))
  ]
]

-- A float that is rewritten stands for the same number as the integer that it becomes, but for the
-- float 2 ^ 63, which becomes 2 ^ 63 - 1.
pub SameNumber-integer_valued :
    (f : Float) (n : Number)
    → integer_valued_json_number (float f) ≡ some n
    → SameNumber n f ⊎ IsTwoTo63 f × (n ≡ pos_int (2 ^ 63 - 1))
unfolding integer_valued_json_number
SameNumber-integer_valued f n h =
    let r = round_to_f64 (to_i64 f) in
    let facts : (f.numerator ≤ 2 ^ 63 * 2 ^ f.scale)
        × (r * 2 ^ f.scale ≡ f.numerator)
        × (from_i64 f.negative (to_i64 f) ≡ n) =
      ground arith in
    let (num, small) = exact_numerator f.numerator f.scale r facts.1 facts.0 in
    subst (λ x. IsKept x f) facts.2 (IsKept-from_i64 f (f.numerator / 2 ^ f.scale) num small)

integer_valued-from_i64 : (b : Bool) (k : ℕ) → integer_valued_json_number (from_i64 b k) ≡ none
unfolding integer_valued_json_number
integer_valued-from_i64 b zero = refl
integer_valued-from_i64 true (suc k) = refl
integer_valued-from_i64 false (suc k) = refl

integer_valued_once :
    (x n : Number) → integer_valued_json_number x ≡ some n → integer_valued_json_number n ≡ none
unfolding integer_valued_json_number
integer_valued_once (float f) n h =
    let e : from_i64 f.negative (to_i64 f) ≡ n = ground arith in
    rw (← e) (integer_valued-from_i64 f.negative (to_i64 f))
integer_valued_once x n h = ground arith

not_integer_again :
    (n : Number) → integer_valued_json_number (get_or n (integer_valued_json_number n)) ≡ none
not_integer_again n = elim (Option-cases (integer_valued_json_number n)) [
  | inl e ↦ rw e e
  | inr (x, e) ↦ rw e (integer_valued_once n x e)
]

mutual
  unfolding canonicalize

  canonicalize_idem : (v : Value) → canonicalize (canonicalize v) ≡ canonicalize v
  canonicalize_idem (number n) = rw (not_integer_again n)
  canonicalize_idem (array vs) = ap array (canonicalize_all_idem vs)
  canonicalize_idem (object m) = ap object (canonicalize_values_idem m)
  canonicalize_idem null = refl
  canonicalize_idem (bool b) = refl
  canonicalize_idem (string s) = refl

  canonicalize_all_idem :
      (vs : Values) → canonicalize_all (canonicalize_all vs) ≡ canonicalize_all vs
  canonicalize_all_idem nil = refl
  canonicalize_all_idem (cons v vs) = ground (arith, canonicalize_idem v, canonicalize_all_idem vs)

  canonicalize_values_idem :
      (m : Map) → canonicalize_values (canonicalize_values m) ≡ canonicalize_values m
  canonicalize_values_idem end = refl
  canonicalize_values_idem (field k v m) =
      ground (arith, canonicalize_idem v, canonicalize_values_idem m)

-- Canonical values stay as they are.
pub canonicalize-canonicalize : (v : Value) → canonicalize (canonicalize v) ≡ canonicalize v
canonicalize-canonicalize v = canonicalize_idem v
