-- ===== src/Catalog/Laws.antt =====
-- What the checks of src/catalog.rs accept, and what an update of the catalog does.
use grok_codex_bridge.Base.{
  String, List, ◌≡◌, refl, sym, ap, eq_iff, ◌∙◌, inl, inr, arith, ◌↔◌, ◌⊎◌, ◌≢◌, true, false, All,
  Bool-cases, Result-cases, ok_of_bind, [], ◌∷◌, ◌++◌, ◌==◌, map, ok, err,
}
use grok_codex_bridge.Catalog.{
  CatalogError, ModelObject, model_object, is_model_id, admit_from, validate_models,
  nonempty_models, replace, has_model,
}
use mathlib.Core.List.{append-nil, append_assoc}
use grok_codex_bridge.Protocol.Input.{contains}

abbrev IsId : String → Type 0
IsId id = is_model_id id ≡ true

abbrev IsUnseen : List String → String → Type 0
IsUnseen seen id = contains seen id ≡ false

abbrev pub IsDistinctIds : List String → Type 0
IsDistinctIds [] = Unit
IsDistinctIds (id ∷ ids) = IsUnseen ids id × IsDistinctIds ids

-- Each identifier is well formed and none occurs twice.
abbrev pub IsAdmissible : List String → Type 0
IsAdmissible ids = All IsId ids × IsDistinctIds ids

-- The same as the loop sees it: none is in `seen` or comes before.
abbrev IsFresh : List String → List String → Type 0
IsFresh seen [] = Unit
IsFresh seen (id ∷ ids) = (IsUnseen seen id × IsId id) × IsFresh (id ∷ seen) ids

IsFresh-admit_from :
    (seen : List String) (admitted : List ModelObject) (ids : List String) (ms : List ModelObject)
    → admit_from seen admitted ids ≡ ok ms
    → IsFresh seen ids × (ms ≡ admitted ++ map model_object ids)
unfolding admit_from
IsFresh-admit_from seen admitted [] ms h = (tt, ground (arith, append-nil admitted))
IsFresh-admit_from seen admitted (id ∷ ids) ms h = elim (Bool-cases (is_model_id id)) [
  | inr e ↦ ground arith
  | inl e ↦ elim (Bool-cases (contains seen id)) [
    | inl f ↦ ground arith
    | inr f ↦
        let later : admit_from (id ∷ seen) (admitted ++ model_object id ∷ []) ids ≡ ok ms =
          ground arith in
        let ih = IsFresh-admit_from (id ∷ seen) (admitted ++ model_object id ∷ []) ids ms later in
        (((f, e), ih.0), ih.1 ∙ append_assoc admitted (model_object id ∷ []) (map model_object ids))
  ]
]

admit_from-IsFresh :
    (seen : List String) (admitted : List ModelObject) (ids : List String)
    → IsFresh seen ids
    → admit_from seen admitted ids ≡ ok (admitted ++ map model_object ids)
unfolding admit_from
admit_from-IsFresh seen admitted [] h = ap ok (sym (append-nil admitted))
admit_from-IsFresh seen admitted (id ∷ ids) h =
    rw (h.0.1, h.0.0)
      (admit_from-IsFresh (id ∷ seen) (admitted ++ model_object id ∷ []) ids h.1
        ∙ ap ok (append_assoc admitted (model_object id ∷ []) (map model_object ids)))

differs_sym : (s t : String) → (s == t) ≡ false → (t == s) ≡ false
differs_sym s t h = elim (Bool-cases (t == s)) [
  | inl e ↦ ground (arith, h, (eq_iff s t).1 (sym ((eq_iff t s).0 e)))
  | inr e ↦ e
]

IsUnseen-split :
    (id : String) (seen ids : List String)
    → All (IsUnseen (id ∷ seen)) ids
    → All (IsUnseen seen) ids × IsUnseen ids id
IsUnseen-split id seen [] h = (tt, refl)
IsUnseen-split id seen (x ∷ ids) h =
    let ih = IsUnseen-split id seen ids h.1 in
    let apart : (id == x) ≡ false = ground (arith, h.0) in
    ((ground (arith, h.0), ih.0), ground (arith, ih.1, differs_sym id x apart))

IsUnseen-join :
    (id : String) (seen ids : List String)
    → All (IsUnseen seen) ids
    → IsUnseen ids id
    → All (IsUnseen (id ∷ seen)) ids
IsUnseen-join id seen [] h u = tt
IsUnseen-join id seen (x ∷ ids) h u =
    let apart : (x == id) ≡ false = ground (arith, u) in
    (ground (arith, h.0, differs_sym x id apart), IsUnseen-join id seen ids h.1 (ground (arith, u)))

IsAdmissible-IsFresh :
    (seen ids : List String) → IsFresh seen ids → All (IsUnseen seen) ids × IsAdmissible ids
IsAdmissible-IsFresh seen [] h = (tt, (tt, tt))
IsAdmissible-IsFresh seen (id ∷ ids) h =
    let (unseen, (good, distinct)) = IsAdmissible-IsFresh (id ∷ seen) ids h.1 in
    let (earlier, apart) = IsUnseen-split id seen ids unseen in
    ((h.0.0, earlier), ((h.0.1, good), (apart, distinct)))

IsFresh-IsAdmissible :
    (seen ids : List String) → All (IsUnseen seen) ids → IsAdmissible ids → IsFresh seen ids
IsFresh-IsAdmissible seen [] u h = tt
IsFresh-IsAdmissible seen (id ∷ ids) u h = (
  (u.0, h.0.0),
  IsFresh-IsAdmissible (id ∷ seen) ids (IsUnseen-join id seen ids u.1 h.1.0) (h.0.1, h.1.1),
)

IsUnseen-nil : (ids : List String) → All (IsUnseen []) ids
IsUnseen-nil [] = tt
IsUnseen-nil (id ∷ ids) = (refl, IsUnseen-nil ids)

nonempty_models-ok :
    (candidate ms : List ModelObject)
    → nonempty_models candidate ≡ ok ms
    → (candidate ≢ []) × (candidate ≡ ms)
nonempty_models-ok [] ms h = ground arith
nonempty_models-ok (m ∷ candidate) ms h = (λ p. ground arith, ground arith)

nonempty_models-map :
    (ids : List String)
    → ids ≢ []
    → nonempty_models (map model_object ids) ≡ ok (map model_object ids)
nonempty_models-map [] h = ground arith
nonempty_models-map (id ∷ ids) h = refl

pub has_model-map :
    (ids : List String) (s : String) → has_model (map model_object ids) s ≡ contains ids s
unfolding has_model
has_model-map [] s = refl
has_model-map (id ∷ ids) s = ground (arith, has_model-map ids s)

-- The check of model identifiers accepts a list exactly when it is not empty, each identifier is well
-- formed and none occurs twice; it then gives one model for each identifier, in the same order.
pub validate_models_iff :
    (ids : List String) (ms : List ModelObject)
    → (validate_models ids ≡ ok ms)
      ↔ ((ids ≢ []) × (IsAdmissible ids × (ms ≡ map model_object ids)))
unfolding validate_models
validate_models_iff ids ms = (
  λ h.
      let (candidate, accepted, named) = ok_of_bind (admit_from [] [] ids) nonempty_models h in
      let (fresh, same) = IsFresh-admit_from [] [] ids candidate accepted in
      let (some_model, given) = nonempty_models-ok candidate ms named in
      (
        λ p. some_model (same ∙ ap (map model_object) p),
        ((IsAdmissible-IsFresh [] ids fresh).1, sym given ∙ same),
      ),
  λ h.
      let fresh = IsFresh-IsAdmissible [] ids (IsUnseen-nil ids) h.1.0 in
      rw (admit_from-IsFresh [] [] ids fresh, h.1.1) (nonempty_models-map ids h.0),
)

-- An update of the catalog either is refused and leaves the catalog as it was, or the catalog has
-- afterwards exactly the models of the update.
pub replace_lem :
    (current : List ModelObject) (ids : List String)
    → ((e : CatalogError) × (replace current ids ≡ (err e, current)))
      ⊎ (((replace current ids).0 ≡ ok tt)
          × ((s : String) → has_model (replace current ids).1 s ≡ contains ids s))
unfolding replace
replace_lem current ids = elim (Result-cases (validate_models ids)) [
  | inl (ms, e) ↦
      let given = ((validate_models_iff ids ms).0 e).1.1 in
      inr (rw e refl, λ s. rw (e, given) (has_model-map ids s))
  | inr (failure, e) ↦ inl (failure, rw e refl)
]
