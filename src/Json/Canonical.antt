-- ===== src/Json/Canonical.antt =====
-- `canonicalize_integer_valued_numbers` of src/protocol.rs: a float that stands for an integer of the
-- `i64` range is rewritten to that integer, everywhere in a JSON value.
use Prim.Native.Nat.{min}
use grok_codex_bridge.Base.{
  ltb, nat_eq, if◌then◌else◌, get_or, zero, suc, ◌+◌, ◌-◌, ◌*◌, ◌/◌, ◌%◌, ◌^◌, Bool, true, false,
  ◌&&◌, ◌||◌, Option, none, some, ℕ,
}
use grok_codex_bridge.Json.{
  Float, Number, pos_int, neg_int, float, null, bool, number, string, array, object, Values, nil,
  cons, Map, end, field, Value,
}
pub mod Laws

-- The least shift that brings `n` below 2 ^ 53, for `n` below 2 ^ (53 + fuel).
shift_of : ℕ → ℕ → ℕ
shift_of zero n = 0
shift_of (suc fuel) n = let rest = shift_of fuel (n / 2) in if ltb n (2 ^ 53) then 0 else suc rest

-- Rounding to 53 bits, ties to even: `q` and `r` are the quotient and the rest of the shift.
abbrev round_up : ℕ → ℕ → ℕ → Bool
round_up q r s = ltb (2 ^ s) (2 * r) || (nat_eq (2 ^ s) (2 * r) && nat_eq (q % 2) 1)

-- `integer as f64` on a magnitude; 11 is enough up to 2 ^ 64.
unfoldable pub round_to_f64 : ℕ → ℕ
unfolding shift_of
round_to_f64 n =
    let s = shift_of 11 n in
    let q = n / 2 ^ s in
    if ltb n (2 ^ 53) then n else (if round_up q (n % 2 ^ s) s then q + 1 else q) * 2 ^ s

-- The magnitude of `float as i64`, which truncates and saturates.
abbrev pub to_i64 : Float → ℕ
to_i64 f = min (f.numerator / 2 ^ f.scale) (if f.negative then 2 ^ 63 else 2 ^ 63 - 1)

-- `serde_json::Number::from` of the `i64` with this sign and magnitude
abbrev pub from_i64 : Bool → ℕ → Number
from_i64 negative zero = pos_int 0
from_i64 true (suc n) = neg_int n
from_i64 false (suc n) = pos_int (suc n)

-- The tests on `float` are on magnitudes: both limits of the range are 2 ^ 63 as `f64`.
unfoldable pub integer_valued_json_number : Number → Option Number
integer_valued_json_number (float f) =
    let integer = to_i64 f in
    if ltb (2 ^ 63 * 2 ^ f.scale) f.numerator
    then none
    else if nat_eq (round_to_f64 integer * 2 ^ f.scale) f.numerator
    then some (from_i64 f.negative integer)
    else none
integer_valued_json_number n = none

unfoldable mutual
  pub canonicalize : Value → Value
  canonicalize null = null
  canonicalize (bool b) = bool b
  canonicalize (number n) = number (get_or n (integer_valued_json_number n))
  canonicalize (string s) = string s
  canonicalize (array vs) = array (canonicalize_all vs)
  canonicalize (object m) = object (canonicalize_values m)

  pub canonicalize_all : Values → Values
  canonicalize_all nil = nil
  canonicalize_all (cons v vs) = cons (canonicalize v) (canonicalize_all vs)

  pub canonicalize_values : Map → Map
  canonicalize_values end = end
  canonicalize_values (field k v m) = field k (canonicalize v) (canonicalize_values m)
