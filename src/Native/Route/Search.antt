-- ===== src/Native/Route/Search.antt =====
-- The binary search of src/native.rs over an ascending list finds exactly its members.
use grok_codex_bridge.Base.{
  ◌||◌, ℕ, zero, suc, ◌-◌, ◌/◌, ◌≤◌, ◌<◌, true, false, List, [], ◌∷◌, String, ◌==◌, ◌≡◌, refl, sym,
  ◌∙◌, ap, arith, All, length, take, drop, Bool-cases, inl, inr, eq_iff,
}
use Prim.Native.Nat.{Ordering}
use Prim.Native.String.{compare}
use text.Mathlib.TextEquality.{path_by_compare}
use text.Mathlib.TextPositions.{compare_refl}
use grok_codex_bridge.Base.Text.{text_lt}
use grok_codex_bridge.Base.Text.Order.{text_lt_trans, text_lt_swap}
use grok_codex_bridge.Native.Route.{is_greater, head_is_above, binary_search}
use grok_codex_bridge.Protocol.Input.{contains}

abbrev IsAbove : String → String → Type 0
IsAbove x y = text_lt x y ≡ true

-- Each text is below all that follow it.
abbrev pub IsAscending : List String → Type 0
IsAscending [] = Unit
IsAscending (x ∷ xs) = All (IsAbove x) xs × IsAscending xs

not_below_self : (s : String) → text_lt s s ≡ false
not_below_self s = ground (arith, compare_refl s)

differs_of_above : (s x : String) → text_lt s x ≡ true → (x == s) ≡ false
differs_of_above s x h = elim (Bool-cases (x == s)) [
  | inl e ↦ ground (arith, h, ap (text_lt s) ((eq_iff x s).0 e), not_below_self s)
  | inr e ↦ e
]

differs_of_below : (s x : String) → text_lt x s ≡ true → (x == s) ≡ false
differs_of_below s x h = elim (Bool-cases (x == s)) [
  | inl e ↦ ground (arith, h, ap (λ (t : String). text_lt t s) ((eq_iff x s).0 e), not_below_self s)
  | inr e ↦ e
]

gt_of_is_greater : (o : Ordering) → is_greater o ≡ true → o ≡ Ordering.gt
gt_of_is_greater Ordering.lt h = ground arith
gt_of_is_greater Ordering.eq h = ground arith
gt_of_is_greater Ordering.gt h = refl

below_of_not_greater :
    (x y s : String) → text_lt x y ≡ true → is_greater (compare y s) ≡ false → text_lt x s ≡ true
below_of_not_greater x y s h a = elim (Bool-cases (text_lt y s)) [
  | inl l ↦ text_lt_trans x y s h l
  | inr l ↦ rw (← (path_by_compare y s (ground (arith, a, l)))) h
]

differs_below_head :
    (s x : String) (ys : List String)
    → All (IsAbove x) ys
    → 0 < length ys
    → head_is_above ys s ≡ false
    → (x == s) ≡ false
differs_below_head s x [] o l a = ground arith
differs_below_head s x (y ∷ ys) o l a = differs_of_below s x (below_of_not_greater x y s o.0 a)

length-drop : (k : ℕ) (xs : List String) → length (drop k xs) ≡ length xs - k
length-drop zero xs = omega arith
length-drop (suc k) [] = omega arith
length-drop (suc k) (x ∷ xs) = omega (arith, length-drop k xs)

length-take : (k : ℕ) (xs : List String) → k ≤ length xs → length (take k xs) ≡ k
length-take zero xs h = omega arith
length-take (suc k) [] h = ground arith
length-take (suc k) (x ∷ xs) h = omega (arith, length-take k xs (omega arith))

-- The window above `s` does not hold it.
differs_above : (s : String) (xs : List String) → All (IsAbove s) xs → contains xs s ≡ false
differs_above s [] h = refl
differs_above s (x ∷ xs) h = ground (arith, differs_of_above s x h.0, differs_above s xs h.1)

All-take : (P : String → Type 0) (k : ℕ) (xs : List String) → All P xs → All P (take k xs)
All-take P zero xs h = tt
All-take P (suc k) [] h = tt
All-take P (suc k) (x ∷ xs) h = (h.0, All-take P k xs h.1)

All-drop : (P : String → Type 0) (k : ℕ) (xs : List String) → All P xs → All P (drop k xs)
All-drop P zero xs h = h
All-drop P (suc k) [] h = tt
All-drop P (suc k) (x ∷ xs) h = All-drop P k xs h.1

IsAscending-take : (k : ℕ) (xs : List String) → IsAscending xs → IsAscending (take k xs)
IsAscending-take zero xs h = tt
IsAscending-take (suc k) [] h = tt
IsAscending-take (suc k) (x ∷ xs) h = (All-take (IsAbove x) k xs h.0, IsAscending-take k xs h.1)

IsAscending-drop : (k : ℕ) (xs : List String) → IsAscending xs → IsAscending (drop k xs)
IsAscending-drop zero xs h = h
IsAscending-drop (suc k) [] h = tt
IsAscending-drop (suc k) (x ∷ xs) h = IsAscending-drop k xs h.1

IsAbove-trans :
    (s x : String) (xs : List String) → IsAbove s x → All (IsAbove x) xs → All (IsAbove s) xs
IsAbove-trans s x [] h a = tt
IsAbove-trans s x (y ∷ xs) h a = (text_lt_trans s x y h a.0, IsAbove-trans s x xs h a.1)

-- If an element is above `s`, what comes after it may be cut off.
contains-take :
    (s : String) (k h : ℕ) (xs : List String)
    → h ≤ k
    → head_is_above (drop h xs) s ≡ true
    → IsAscending xs
    → contains (take k xs) s ≡ contains xs s
contains-take s k zero [] l a o = ground arith
contains-take s k (suc h) [] l a o = ground arith
contains-take s k zero (x ∷ xs) l a o =
    let above = text_lt_swap x s (gt_of_is_greater (compare x s) a) in
    let all_above : All (IsAbove s) (x ∷ xs) = (above, IsAbove-trans s x xs above o.0) in
    differs_above s (take k (x ∷ xs)) (All-take (IsAbove s) k (x ∷ xs) all_above)
    ∙ sym (differs_above s (x ∷ xs) all_above)
contains-take s zero (suc h) (x ∷ xs) l a o = ground arith
contains-take s (suc k) (suc h) (x ∷ xs) l a o =
    ap (λ b. (x == s) || b) (contains-take s k h xs (omega arith) a o.1)

-- If it is not, what comes before it may be.
contains-drop :
    (s : String) (h : ℕ) (xs : List String)
    → h < length xs
    → head_is_above (drop h xs) s ≡ false
    → IsAscending xs
    → contains (drop h xs) s ≡ contains xs s
contains-drop s zero xs l a o = refl
contains-drop s (suc h) [] l a o = ground arith
contains-drop s (suc h) (x ∷ xs) l a o =
    let differs =
      differs_below_head s x (drop h xs) (All-drop (IsAbove x) h xs o.0)
        (omega (arith, length-drop h xs)) a in
    rw differs (contains-drop s h xs (omega arith) a o.1)

pub binary_search-contains :
    (fuel : ℕ) (xs : List String) (s : String)
    → length xs ≤ fuel
    → IsAscending xs
    → binary_search fuel xs s ≡ contains xs s
unfolding binary_search
binary_search-contains zero [] s l o = refl
binary_search-contains zero (x ∷ xs) s l o = ground arith
binary_search-contains (suc fuel) [] s l o = refl
binary_search-contains (suc fuel) (x ∷ []) s l o = ground arith
binary_search-contains (suc fuel) (x ∷ y ∷ xs) s l o =
    let all_of : List String = x ∷ y ∷ xs in
    let half : ℕ = length all_of / 2 in
    let size : ℕ = length all_of in
    elim (Bool-cases (head_is_above (drop half all_of) s)) [
      | inl a ↦ rw a (
          binary_search-contains fuel (take (size - half) all_of) s
            (omega (arith, length-take (size - half) all_of (omega arith)))
            (IsAscending-take (size - half) all_of o)
          ∙ contains-take s (size - half) half all_of (omega arith) a o)
      | inr a ↦ rw a (
          binary_search-contains fuel (drop half all_of) s (omega (arith, length-drop half all_of))
            (IsAscending-drop half all_of o)
          ∙ contains-drop s half all_of (omega arith) a o)
    ]
