-- ===== src/PickerCatalog/Kept.antt =====
-- A generated catalog of src/picker.rs keeps the native catalog.
use grok_codex_bridge.Base.{
  cons-same, ◌+◌, refl, ◌∷◌, if◌then◌else◌, length, err, sym, is_empty, Result, ok, ok_or, ◌>>=◌,
  guard, ok_of_bind, ok_inj, ℕ, String, ◌≡◌, ap, ◌∙◌, false, not, Option, none, some, List, [],
  ◌++◌, map, arith, ◌==◌,
}
use grok_codex_bridge.Base.Text.{bytes}
use grok_codex_bridge.Json.{
  insert, modify, as_object, Value, null, bool, number, string, array, object, Map, to_list, get,
  as_array, ◌and_then◌,
}
use grok_codex_bridge.Json.Same.{entries}
use grok_codex_bridge.PickerCatalog.Entry.{object_of, grok_picker_entry}
use grok_codex_bridge.Json.Laws.{map_option, get-modify, to_list-of_list}
use grok_codex_bridge.PickerCatalog.{
  PickerError, malformed_native_catalog, empty_overlay, invalid_native_catalog,
}
use grok_codex_bridge.PickerCatalog.Generate.{
  slugs_from, entries_from, printed_error, with_entries, with_models, with_root,
  GeneratedPickerCatalog, push_models, native_models_of, generate_picker_catalog,
}
use grok_codex_bridge.PickerCatalog.Laws.{
  AllNew-slugs_from, AllNew-entries_from, slug_of, AllNew, grok_entries,
}
use mathlib.Core.Path.{subst}
use grok_codex_bridge.Native.Route.{sort_unstable}

map_option-models :
    (found : Option Value) (models entries : List Value)
    → (found and_then as_array) ≡ some models
    → (map_option (push_models entries) found and_then as_array) ≡ some (models ++ entries)
map_option-models none models entries h = ground arith
map_option-models (some (array vs)) models entries h =
    ap some (to_list-of_list (to_list vs ++ entries))
    ∙ ap (λ ms. some (ms ++ entries)) (ground arith)
map_option-models (some null) models entries h = ground arith
map_option-models (some (bool b)) models entries h = ground arith
map_option-models (some (number n)) models entries h = ground arith
map_option-models (some (string s)) models entries h = ground arith
map_option-models (some (object m)) models entries h = ground arith

ok_or-found : {A : Type 0} (e : PickerError) (o : Option A) (a : A) → ok_or e o ≡ ok a → o ≡ some a
ok_or-found e none a h = ground arith
ok_or-found e (some b) a h = ap some (ok_inj h)

as_object-eq : (v : Value) (m : Map) → as_object v ≡ some m → v ≡ object m
as_object-eq null m h = ground arith
as_object-eq (bool b) m h = ground arith
as_object-eq (number n) m h = ground arith
as_object-eq (string s) m h = ground arith
as_object-eq (array vs) m h = ground arith
as_object-eq (object o) m h = ap object (ground arith)

printed_error-ok :
    (r : Result String (List ℕ)) (bytes : List ℕ) → printed_error r ≡ ok bytes → r ≡ ok bytes
printed_error-ok (ok b) bytes h = ap ok (ok_inj h)
printed_error-ok (err e) bytes h = ground arith

native_models_of-ok :
    (m : Map) (models : List Value)
    → native_models_of m ≡ ok models
    → (get m "models" and_then as_array) ≡ some models
unfolding native_models_of
native_models_of-ok m models h =
    let (found, at, rest) =
      ok_of_bind
        (ok_or (invalid_native_catalog "catalog must contain a models array")
          (get m "models" and_then as_array))
        (λ models.
          guard (not (is_empty models))
            (invalid_native_catalog "native models array must not be empty")
          >>= (λ some_model. ok models))
        h in
    let (u, nonempty_list, last) =
      ok_of_bind
        (guard (not (is_empty found))
          (invalid_native_catalog "native models array must not be empty"))
        (λ some_model. ok found) rest in
    ok_or-found _ (get m "models" and_then as_array) found at ∙ ap some (ok_inj last)

-- Each entry that is made for a Grok model has the name of the model for its slug.
slugs_of_entries :
    (overlay : String) (index : ℕ) (ids : List String)
    → map slug_of (grok_entries overlay index ids) ≡ map some ids
unfolding grok_picker_entry object_of insert get
slugs_of_entries overlay index [] = refl
slugs_of_entries overlay index (id ∷ ids) =
    cons-same refl (slugs_of_entries overlay (index + 1) ids)

slugs_of_all :
    (models : List Value) (slugs : List String) (overlay : String) (ids : List String)
    → map slug_of models ≡ map some slugs
    → map slug_of (models ++ grok_entries overlay 0 ids) ≡ map some (slugs ++ ids)
slugs_of_all [] [] overlay ids h = slugs_of_entries overlay 0 ids
slugs_of_all [] (s ∷ slugs) overlay ids h = ground arith
slugs_of_all (v ∷ models) [] overlay ids h = ground arith
slugs_of_all (v ∷ models) (s ∷ slugs) overlay ids h =
    cons-same (ground arith) (slugs_of_all models slugs overlay ids (ground arith))

-- The printed root has the native models, in order and as they were, and after them the entries of the
-- Grok models in the order of their names; its other fields are those of the native root.
abbrev pub IsKept : Map → List Value → String → List String → Map → Type 0
IsKept native models overlay ids root =
    ((get root "models" and_then as_array) ≡ some (models ++ grok_entries overlay 0 ids))
    × ((k : String) → ("models" == k) ≡ false → get root k ≡ get native k)

module _ (from_slice : List ℕ → Option Value) (to_vec_pretty : Value → Result String (List ℕ)) where
  -- What the printing of the root with the entries gives.
  with_entries-ok :
      (m : Map) (models : List Value) (slugs : List String) (count : ℕ) (entries : List Value)
      (generated : GeneratedPickerCatalog)
      → with_entries from_slice to_vec_pretty m models slugs count entries ≡ ok generated
      → (to_vec_pretty (object (modify m "models" (push_models entries))) ≡ ok generated.bytes)
        × (generated.native_model_slugs ≡ slugs)
  unfolding with_entries
  with_entries-ok m models slugs count entries generated h =
      let (bytes, printed_bytes, last) =
        ok_of_bind
          (printed_error (to_vec_pretty (object (modify m "models" (push_models entries)))))
          (λ bytes. ok (record {
            bytes = bytes;
            native_model_slugs = slugs;
            native_model_count = length models;
            grok_model_count = count;
          }))
          h in
      let same = ok_inj last in
      (
        printed_error-ok _ bytes printed_bytes
            ∙ ap (λ (g : GeneratedPickerCatalog). ok g.bytes) same,
        ap (λ (g : GeneratedPickerCatalog). g.native_model_slugs) (sym same),
      )

  IsKept-modify :
      (m : Map) (models : List Value) (overlay : String) (ids : List String)
      → (get m "models" and_then as_array) ≡ some models
      → IsKept m models overlay ids (modify m "models" (push_models (grok_entries overlay 0 ids)))
  IsKept-modify m models overlay ids h = (
    ap (λ o. o and_then as_array)
          (get-modify m "models" (push_models (grok_entries overlay 0 ids)) "models")
        ∙ map_option-models (get m "models") models (grok_entries overlay 0 ids) h,
    λ k other.
        get-modify m "models" (push_models (grok_entries overlay 0 ids)) k
        ∙ ap
            (λ b.
              if b
              then map_option (push_models (grok_entries overlay 0 ids)) (get m k)
              else get m k)
            other,
  )

  -- What a generated catalog is of.
  abbrev pub IsGenerated : List ℕ → String → List String → GeneratedPickerCatalog → Type 0
  IsGenerated native_catalog overlay ids generated =
      (m : Map) × (models : List Value) × (root : Map) × (from_slice native_catalog
        ≡ some (object m))
      × ((get m "models" and_then as_array) ≡ some models)
      × (to_vec_pretty (object root) ≡ ok generated.bytes)
      × IsKept m models overlay ids root
      × (map slug_of models ≡ map some generated.native_model_slugs)
      × (map slug_of (models ++ grok_entries overlay 0 ids)
          ≡ map some (generated.native_model_slugs ++ ids))
      × AllNew [] generated.native_model_slugs
      × AllNew generated.native_model_slugs ids

  -- A catalog that is generated prints a root which keeps the native models, in order, before the Grok
  -- ones, and the other fields of the native root. The slugs of its models are, in order, the native
  -- ones that the catalog reports and the sorted names of the Grok models, and all are distinct.
  pub IsKept-generate_picker_catalog :
      (native_catalog : List ℕ) (grok_models : List String) (overlay : String)
      (generated : GeneratedPickerCatalog)
      → generate_picker_catalog from_slice to_vec_pretty native_catalog grok_models overlay
        ≡ ok generated
      → IsGenerated native_catalog overlay (sort_unstable grok_models) generated
  unfolding generate_picker_catalog with_root with_models
  IsKept-generate_picker_catalog native_catalog grok_models overlay generated h =
      let ids = sort_unstable grok_models in
      let (u, written, rest) =
        ok_of_bind (guard (not (overlay == "")) empty_overlay)
          (λ written.
            ok_or malformed_native_catalog (from_slice native_catalog)
            >>= with_root from_slice to_vec_pretty overlay ids)
          h in
      let (top, read, inside) =
        ok_of_bind (ok_or malformed_native_catalog (from_slice native_catalog))
          (with_root from_slice to_vec_pretty overlay ids) rest in
      let (m, opened, listed) =
        ok_of_bind (ok_or (invalid_native_catalog "catalog root must be an object") (as_object top))
          (λ m. native_models_of m >>= with_models from_slice to_vec_pretty overlay ids m) inside in
      let (models, found, more) =
        ok_of_bind (native_models_of m) (with_models from_slice to_vec_pretty overlay ids m)
          listed in
      let (slugs, checked, pushed) =
        ok_of_bind (slugs_from [] 0 models)
          (λ slugs.
            entries_from overlay (length models) slugs 0 ids
            >>= with_entries from_slice to_vec_pretty m models slugs (length ids))
          more in
      let (entries, made, last) =
        ok_of_bind (entries_from overlay (length models) slugs 0 ids)
          (with_entries from_slice to_vec_pretty m models slugs (length ids)) pushed in
      let (first_new, named) = AllNew-slugs_from [] 0 models slugs checked in
      let (new_ids, same) = AllNew-entries_from overlay (length models) slugs 0 ids entries made in
      let (bytes, reported) = with_entries-ok m models slugs (length ids) entries generated last in
      let listed_models = native_models_of-ok m models found in
      (
        m,
        models,
        modify m "models" (push_models (grok_entries overlay 0 ids)),
        ok_or-found _ (from_slice native_catalog) top read
            ∙ ap some (as_object-eq top m (ok_or-found _ (as_object top) m opened)),
        listed_models,
        ap (λ es. to_vec_pretty (object (modify m "models" (push_models es)))) (sym same) ∙ bytes,
        IsKept-modify m models overlay ids listed_models,
        named ∙ ap (map some) (sym reported),
        slugs_of_all models generated.native_model_slugs overlay ids
            (named ∙ ap (map some) (sym reported)),
        subst (AllNew []) (sym reported) first_new,
        subst (λ seen. AllNew seen ids) (sym reported) new_ids,
      )
