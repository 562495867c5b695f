-- ===== src/PickerCatalog/Laws.antt =====
-- What a generated catalog of src/picker.rs holds.
use grok_codex_bridge.Json.{get, insert, Value, as_object, ◌and_then◌, get_str}
use grok_codex_bridge.PickerCatalog.{
  required_array, required_bool, required_string_array, required_enum, nonempty, PickerError,
  duplicate_slug, too_many_models, required, required_non_empty_string,
}
use grok_codex_bridge.PickerCatalog.Entry.{
  check_modalities, check_levels, validate_reasoning_levels, validate_instructions, object_of,
  check_fields, validate_model_entry, grok_picker_entry,
}
use grok_codex_bridge.Base.{
  ltb, Bool-cases, cons-same, ok, ◌>>=◌, guard, ok_of_bind, ok_inj, ℕ, ◌+◌, ◌^◌, String, ◌≡◌, refl,
  sym, ap, ◌∙◌, inl, inr, Bool, true, false, not, Option, none, some, List, [], ◌∷◌, map, arith,
  ◌==◌,
}
use grok_codex_bridge.PickerCatalog.Generate.{slugs_from, entries_from}
use grok_codex_bridge.Protocol.Input.{contains}
use mathlib.Core.Path.{subst}

abbrev pub slug_of : Value → Option String
slug_of v = as_object v and_then (λ m. get_str m "slug")

-- None is among those seen or comes before.
abbrev pub AllNew : List String → List String → Type 0
AllNew seen [] = Unit
AllNew seen (id ∷ ids) = (contains seen id ≡ false) × AllNew (id ∷ seen) ids

-- The entries of Grok's models, with priorities from 1000 on.
abbrev pub grok_entries : String → ℕ → List String → List Value
grok_entries overlay index [] = []
grok_entries overlay index (id ∷ ids) =
    grok_picker_entry id (1000 + index) overlay ∷ grok_entries overlay (index + 1) ids

required-some :
    {A : Type 0} (index : ℕ) (name : String) (o : Option A) (a : A)
    → required index name o ≡ ok a
    → o ≡ some a
required-some index name none a h = ground arith
required-some index name (some b) a h = ap some (ok_inj h)

nonempty-some : (o : Option String) (s : String) → nonempty o ≡ some s → o ≡ some s
nonempty-some none s h = ground arith
nonempty-some (some t) s h = elim (Bool-cases (t == "")) [
  | inl empty ↦ ground arith
  | inr full ↦ ground arith
]

fresh-new :
    (seen : Bool) (e : PickerError) (u : Unit {0}) → guard (not seen) e ≡ ok u → seen ≡ false
fresh-new true e u h = ground arith
fresh-new false e u h = refl

validate_model_entry-slug :
    (model : Value) (index : ℕ) (slug : String)
    → validate_model_entry model index ≡ ok slug
    → slug_of model ≡ some slug
unfolding validate_model_entry required_non_empty_string
validate_model_entry-slug model index slug h =
    let (m, at, rest) =
      ok_of_bind (required index "model entry" (as_object model))
        (λ m.
          required_non_empty_string m "slug" index >>= (λ s. check_fields m index >>= (λ u. ok s)))
        h in
    let (s, named, more) =
      ok_of_bind (required_non_empty_string m "slug" index)
        (λ s. check_fields m index >>= (λ u. ok s)) rest in
    let (u, checked, last) = ok_of_bind (check_fields m index) (λ u. ok s) more in
    ap (λ o. o and_then (λ m. get_str m "slug"))
      (required-some index "model entry" (as_object model) m at)
    ∙ nonempty-some (get_str m "slug") s
        (required-some index "slug" (nonempty (get_str m "slug")) s named)
    ∙ ap some (ok_inj last)

pub AllNew-slugs_from :
    (seen : List String) (index : ℕ) (models : List Value) (slugs : List String)
    → slugs_from seen index models ≡ ok slugs
    → AllNew seen slugs × (map slug_of models ≡ map some slugs)
unfolding slugs_from
AllNew-slugs_from seen index [] slugs h =
    subst (λ s. AllNew seen s × (map slug_of [] ≡ map some s)) (ok_inj h) (tt, refl)
AllNew-slugs_from seen index (model ∷ models) slugs h =
    let (slug, valid, rest) =
      ok_of_bind (validate_model_entry model index)
        (λ slug. guard (not (contains seen slug)) (duplicate_slug slug) >>= (λ fresh.
          slugs_from (slug ∷ seen) (index + 1) models >>= (λ slugs. ok (slug ∷ slugs))))
        h in
    let (u, fresh, more) =
      ok_of_bind (guard (not (contains seen slug)) (duplicate_slug slug))
        (λ fresh. slugs_from (slug ∷ seen) (index + 1) models >>= (λ slugs. ok (slug ∷ slugs)))
        rest in
    let (others, later, last) =
      ok_of_bind (slugs_from (slug ∷ seen) (index + 1) models) (λ slugs. ok (slug ∷ slugs)) more in
    let (new, same) = AllNew-slugs_from (slug ∷ seen) (index + 1) models others later in
    subst (λ s. AllNew seen s × (map slug_of (model ∷ models) ≡ map some s)) (ok_inj last)
      (
        (fresh-new (contains seen slug) (duplicate_slug slug) u fresh, new),
        cons-same (validate_model_entry-slug model index slug valid) same,
      )

pub AllNew-entries_from :
    (overlay : String) (count : ℕ) (seen : List String) (index : ℕ) (ids : List String)
    (entries : List Value)
    → entries_from overlay count seen index ids ≡ ok entries
    → AllNew seen ids × (entries ≡ grok_entries overlay index ids)
unfolding entries_from
AllNew-entries_from overlay count seen index [] entries h = (tt, sym (ok_inj h))
AllNew-entries_from overlay count seen index (id ∷ ids) entries h =
    let tail = λ (u : Unit {0}).
      entries_from overlay count (id ∷ seen) (index + 1) ids
      >>= (λ entries. ok (grok_picker_entry id (1000 + index) overlay ∷ entries)) in
    let check =
      validate_model_entry (grok_picker_entry id (1000 + index) overlay) (count + index) in
    let bound = guard (ltb (1000 + index) (2 ^ 31)) too_many_models in
    let (u, fresh, rest) =
      ok_of_bind (guard (not (contains seen id)) (duplicate_slug id))
        (λ fresh. bound >>= (λ fits. check >>= (λ valid. tail tt))) h in
    let (v, fits, more) = ok_of_bind bound (λ fits. check >>= (λ valid. tail tt)) rest in
    let (w, valid, last) = ok_of_bind check (λ valid. tail tt) more in
    let (others, later, built) =
      ok_of_bind (entries_from overlay count (id ∷ seen) (index + 1) ids)
        (λ entries. ok (grok_picker_entry id (1000 + index) overlay ∷ entries)) last in
    let (new, same) = AllNew-entries_from overlay count (id ∷ seen) (index + 1) ids others later in
    (
      (fresh-new (contains seen id) (duplicate_slug id) u fresh, new),
      sym (ok_inj built) ∙ cons-same refl same,
    )

-- The entry that is made for a Grok model passes the checks and has its name for a slug.
grok_picker_entry-valid :
    (id overlay : String) (priority index : ℕ)
    → (id == "") ≡ false
    → ltb priority (2 ^ 31) ≡ true
    → validate_model_entry (grok_picker_entry id priority overlay) index ≡ ok id
unfolding validate_model_entry check_fields required_non_empty_string required_array required_bool
    required_enum required_string_array check_modalities check_levels validate_reasoning_levels
    validate_instructions grok_picker_entry object_of insert get
grok_picker_entry-valid id overlay priority index named fits = rw (named, fits)
