-- ===== src/Json/Laws.antt =====
-- The laws of a JSON map.
use grok_codex_bridge.Base.{
  ◌∙◌, ap, Option, String, ◌≡◌, refl, none, some, List, [], ◌∷◌, arith, ◌==◌, eq_iff, if◌then◌else◌,
  Bool-cases, inl, inr,
}
use mathlib.Core.Path.{fun_ext}
use grok_codex_bridge.Json.{
  modify, Value, Values, Map, end, field, nil, cons, to_list, of_list, get, insert, remove,
}
use native.Mathlib.Decide.{ℕ_discrete}

pub get-insert :
    (m : Map) (k : String) (v : Value) (j : String)
    → get (insert m k v) j ≡ (if k == j then some v else get m j)
unfolding get insert
get-insert end k v j = refl
get-insert (field i w m) k v j =
    ground (arith, eq_iff k j, eq_iff i k, eq_iff i j, get-insert m k v j)

pub get-remove : (m : Map) (k j : String) → get (remove m k) j ≡ (if k == j then none else get m j)
unfolding get remove
get-remove end k j = ground arith
get-remove (field i w m) k j = ground (arith, eq_iff k j, eq_iff i k, eq_iff i j, get-remove m k j)

abbrev pub map_option : (Value → Value) → Option Value → Option Value
map_option f none = none
map_option f (some v) = some (f v)

pub get-modify :
    (m : Map) (k : String) (f : Value → Value) (j : String)
    → get (modify m k f) j ≡ (if k == j then map_option f (get m j) else get m j)
unfolding get modify
get-modify end k f j = ground arith
get-modify (field i w m) k f j =
    ground (arith, eq_iff k j, eq_iff i k, eq_iff i j, get-modify m k f j)

-- A change that leaves the value found as it is leaves the map as it is.
pub modify_same :
    (m : Map) (k : String) (f : Value → Value)
    → ((v : Value) → get m k ≡ some v → f v ≡ v)
    → modify m k f ≡ m
unfolding get modify
modify_same end k f h = refl
modify_same (field i w m) k f h = elim (Bool-cases (i == k)) [
  | inl e ↦ simp e (ap (λ x. field i x m) (h w (simp e)))
  | inr e ↦ simp e (ap (field i w) (modify_same m k f (λ v g. h v (simp e g))))
]

pub modify-modify :
    (m : Map) (k : String) (f g : Value → Value)
    → modify (modify m k f) k g ≡ modify m k (λ v. g (f v))
unfolding modify
modify-modify end k f g = refl
modify-modify (field i w m) k f g = elim (Bool-cases (i == k)) [
  | inl e ↦ simp e
  | inr e ↦ simp e (ap (field i w) (modify-modify m k f g))
]

-- A change that may be made twice.
abbrev pub IsIdempotent : (Value → Value) → Type 0
IsIdempotent f = (v : Value) → f (f v) ≡ f v

pub modify_idem :
    (m : Map) (k : String) (f : Value → Value)
    → IsIdempotent f
    → modify (modify m k f) k f ≡ modify m k f
modify_idem m k f h = modify-modify m k f f ∙ ap (modify m k) (fun_ext h)

-- A key that is not there is not removed.
pub remove_absent : (m : Map) (k : String) → get m k ≡ none → remove m k ≡ m
unfolding get remove
remove_absent end k h = refl
remove_absent (field i w m) k h = elim (Bool-cases (i == k)) [
  | inl e ↦ ground arith
  | inr e ↦ simp e (ap (field i w) (remove_absent m k (ground arith)))
]

pub ruleset map_laws = (get-insert, get-remove, get-modify)

pub to_list-of_list : (vs : List Value) → to_list (of_list vs) ≡ vs
to_list-of_list [] = refl
to_list-of_list (v ∷ vs) = ground (arith, to_list-of_list vs)

pub of_list-to_list : (vs : Values) → of_list (to_list vs) ≡ vs
of_list-to_list nil = refl
of_list-to_list (cons v vs) = ground (arith, of_list-to_list vs)

pub String-discrete : Discrete String
String-discrete s t = elim (Bool-cases (s == t)) [
  | inl e ↦ yes ((eq_iff s t).0 e)
  | inr e ↦ no (λ p. ground (arith, eq_iff s t))
]

pub Value-discrete : Discrete Value
Value-discrete = hlevel (String-discrete, ℕ_discrete)
