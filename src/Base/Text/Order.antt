-- ===== src/Base/Text/Order.antt =====
-- The order of texts is a strict order.
use Prim.Native.String
use Prim.Native.String.{String, compare}
use Prim.Native.Nat.{Ordering}
use mathlib.Core.Path.{◌≡◌}
use mathlib.Core.Bool.{true}
use native.Mathlib.Omega.{arith}
use grok_codex_bridge.Base.Text.{text_lt}

pub text_lt_trans : (a b c : String) → text_lt a b ≡ true → text_lt b c ≡ true → text_lt a c ≡ true
text_lt_trans String.[] String.[] c h k = ground arith
text_lt_trans String.[] (String.◌∷◌ y b) String.[] h k = ground (arith, String.compare.cons-nil y b)
text_lt_trans String.[] (String.◌∷◌ y b) (String.◌∷◌ z c) h k =
    ground (arith, String.compare.nil-cons z c)
text_lt_trans (String.◌∷◌ x a) String.[] c h k = ground (arith, String.compare.cons-nil x a)
text_lt_trans (String.◌∷◌ x a) (String.◌∷◌ y b) String.[] h k =
    ground (arith, String.compare.cons-nil y b)
text_lt_trans (String.◌∷◌ x a) (String.◌∷◌ y b) (String.◌∷◌ z c) h k = ground (
  arith,
  String.compare.cons-cons x y a b,
  String.compare.cons-cons y z b c,
  String.compare.cons-cons x z a c,
  text_lt_trans a b c,
)

pub text_lt_swap : (a b : String) → compare a b ≡ Ordering.gt → text_lt b a ≡ true
text_lt_swap String.[] String.[] h = ground arith
text_lt_swap String.[] (String.◌∷◌ y b) h = ground (arith, String.compare.nil-cons y b)
text_lt_swap (String.◌∷◌ x a) String.[] h = ground (arith, String.compare.nil-cons x a)
text_lt_swap (String.◌∷◌ x a) (String.◌∷◌ y b) h =
    ground
      (arith, String.compare.cons-cons x y a b, String.compare.cons-cons y x b a, text_lt_swap a b)
