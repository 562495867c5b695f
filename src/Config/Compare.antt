-- ===== src/Config/Compare.antt =====
-- The comparison of src/config.rs, which reads every byte, is equality.
use grok_codex_bridge.Base.{
  nat_eq_iff, length, get_elem?, get_or, ℕ, zero, suc, ◌/◌, ◌%◌, ◌≤◌, ◌≡◌, refl, sym, ap, ◌∙◌, ◌↔◌,
  true, List, [], ◌∷◌, arith,
}
use grok_codex_bridge.Config.{fold_difference, capability_matches, rest_of}
use Prim.Native.Nat.{bit_or, bit_xor, digits, differ, bit_or-bitwise, bit_xor-bitwise, max}

-- The two operations digit by digit, on a count of digits.
differ-zero : (x y : ℕ) → (differ x y ≡ 0) ↔ (x ≡ y)
differ-zero zero y = (λ h. sym h, λ h. sym h)
differ-zero (suc x) zero = ground arith
differ-zero (suc x) (suc y) =
    (λ h. ap suc ((differ-zero x y).0 h), λ h. (differ-zero x y).1 (omega arith))

xor_fuel_zero : (n a b : ℕ) → a ≤ n → digits (λ b. b) differ n a b ≡ 0 → a ≡ b
xor_fuel_zero zero zero b h e = sym e
xor_fuel_zero zero (suc a) b h e = ground arith
xor_fuel_zero (suc n) zero b h e = sym e
xor_fuel_zero (suc n) (suc a) b h e =
    let high : digits (λ b. b) differ n (suc a / 2) (b / 2) ≡ 0 = omega (arith, e) in
    let low : differ (suc a % 2) (b % 2) ≡ 0 = omega (arith, e) in
    omega (
      arith,
      xor_fuel_zero n (suc a / 2) (b / 2) (omega arith) high,
      (differ-zero (suc a % 2) (b % 2)).0 low,
    )

xor_fuel_same : (n a : ℕ) → a ≤ n → digits (λ b. b) differ n a a ≡ 0
xor_fuel_same zero zero h = refl
xor_fuel_same zero (suc a) h = ground arith
xor_fuel_same (suc n) zero h = refl
xor_fuel_same (suc n) (suc a) h =
    omega (
      arith,
      xor_fuel_same n (suc a / 2) (omega arith),
      (differ-zero (suc a % 2) (suc a % 2)).1 refl,
    )

bit_xor-zero : (a b : ℕ) → (bit_xor a b ≡ 0) ↔ (a ≡ b)
bit_xor-zero a b = (
  λ h. xor_fuel_zero a a b (omega arith) (sym (bit_xor-bitwise a b) ∙ h),
  λ h. rw (← h) (bit_xor-bitwise a a ∙ xor_fuel_same a a (omega arith)),
)

or_fuel_zero : (n a b : ℕ) → a ≤ n → digits (λ b. b) max n a b ≡ 0 → (a ≡ 0) × (b ≡ 0)
or_fuel_zero zero zero b h e = (refl, e)
or_fuel_zero zero (suc a) b h e = ground arith
or_fuel_zero (suc n) zero b h e = (refl, e)
or_fuel_zero (suc n) (suc a) b h e =
    let high : digits (λ b. b) max n (suc a / 2) (b / 2) ≡ 0 = omega (arith, e) in
    let low : max (suc a % 2) (b % 2) ≡ 0 = omega (arith, e) in
    let ih = or_fuel_zero n (suc a / 2) (b / 2) (omega arith) high in
    (omega (arith, ih.0, low), omega (arith, ih.1, low))

bit_or-zero : (a b : ℕ) → (bit_or a b ≡ 0) ↔ ((a ≡ 0) × (b ≡ 0))
bit_or-zero a b =
    (λ h. or_fuel_zero a a b (omega arith) (sym (bit_or-bitwise a b) ∙ h), λ h. rw (h.0, h.1) refl)

-- Equality of as many bytes as the token has, with 0 where the candidate has none left.
abbrev AgreesOn : List ℕ → List ℕ → Type 0
AgreesOn [] candidate = Unit
AgreesOn (b ∷ expected) candidate =
    (b ≡ get_or 0 (get_elem? candidate 0)) × AgreesOn expected (rest_of candidate)

fold_difference-zero :
    (difference : ℕ) (expected candidate : List ℕ)
    → fold_difference difference expected candidate ≡ 0
    → (difference ≡ 0) × AgreesOn expected candidate
unfolding fold_difference
fold_difference-zero difference [] candidate h = (h, tt)
fold_difference-zero difference (b ∷ expected) candidate h =
    let c = get_or 0 (get_elem? candidate 0) in
    let later =
      fold_difference-zero (bit_or difference (bit_xor b c)) expected (rest_of candidate) h in
    let (d, x) = (bit_or-zero difference (bit_xor b c)).0 later.0 in
    (d, ((bit_xor-zero b c).0 x, later.1))

AgreesOn-eq :
    (expected candidate : List ℕ)
    → length expected ≡ length candidate
    → AgreesOn expected candidate
    → expected ≡ candidate
AgreesOn-eq [] [] h a = refl
AgreesOn-eq [] (c ∷ candidate) h a = ground arith
AgreesOn-eq (b ∷ expected) [] h a = ground arith
AgreesOn-eq (b ∷ expected) (c ∷ candidate) h a =
    ground (arith, a.0, AgreesOn-eq expected candidate (omega (arith, h)) a.1)

fold_difference-same : (bs : List ℕ) → fold_difference 0 bs bs ≡ 0
unfolding fold_difference
fold_difference-same [] = refl
fold_difference-same (b ∷ bs) = rw ((bit_xor-zero b b).1 refl) (fold_difference-same bs)

-- The comparison that reads every byte of the token accepts a candidate exactly when its bytes are
-- those of the token.
pub capability_matches_iff :
    (expected candidate : List ℕ)
    → (capability_matches expected candidate ≡ true) ↔ (expected ≡ candidate)
unfolding capability_matches
capability_matches_iff expected candidate = (
  λ h.
      let (d, a) =
        fold_difference-zero (bit_xor (length expected) (length candidate)) expected candidate
          ((nat_eq_iff _ 0).0 h) in
      AgreesOn-eq expected candidate ((bit_xor-zero (length expected) (length candidate)).0 d) a,
  λ h. rw (← h) (
      rw ((bit_xor-zero (length expected) (length expected)).1 refl, fold_difference-same expected)
        refl),
)
