-- ===== src/Protocol/Sanitize/Laws.antt =====
-- What reaches the Native route (src/protocol.rs), as a whole request.
use grok_codex_bridge.Base.{
  Option-cases, inl, inr, Bool, arith, eq_iff, eq_refl, All, ◌≡◌, refl, ap, ◌∙◌, false, some,
}
use grok_codex_bridge.Protocol.Sanitize.{sanitize, sanitize_input}
use grok_codex_bridge.Json.{modify, Value, null, array, object, Values, Map, to_list, of_list, get}
use grok_codex_bridge.Json.Laws.{
  get-modify, modify_same, modify_idem, to_list-of_list, of_list-to_list,
}
use grok_codex_bridge.Protocol.Sanitize.Items.{
  sanitize_items_of_native, sanitize_items_unchanged, sanitize_items_again, IsNativeItem,
}

sanitize_input_unchanged : (v : Value) → (sanitize_input v).0 ≡ false → (sanitize_input v).1 ≡ v
sanitize_input_unchanged (array vs) h =
    ap array (ap of_list (sanitize_items_unchanged (to_list vs) h) ∙ of_list-to_list vs)
sanitize_input_unchanged null h = refl
sanitize_input_unchanged _ h = refl

sanitize_input_again :
    (v : Value) → sanitize_input (sanitize_input v).1 ≡ (false, (sanitize_input v).1)
sanitize_input_again (array vs) = simp (to_list-of_list, sanitize_items_again)
sanitize_input_again null = refl
sanitize_input_again _ = refl

abbrev sanitized : Map → Map
sanitized m = modify m "input" (λ v. (sanitize_input v).1)

sanitized_unchanged :
    (m : Map) (w : Value) → get m "input" ≡ some w → (sanitize_input w).0 ≡ false → sanitized m ≡ m
sanitized_unchanged m w input h =
    modify_same m "input" _
      λ v found. sanitize_input_unchanged v (let same : v ≡ w = ground arith in rw same h)

sanitized_again : (m : Map) → sanitized (sanitized m) ≡ sanitized m
sanitized_again m =
    modify_idem m "input" _ (λ v. ap (λ (p : Bool × Value). p.1) (sanitize_input_again v))

-- If the answer is that nothing changed, the request is the one that came in.
pub sanitize_unchanged : (v : Value) → (sanitize v).0 ≡ false → (sanitize v).1 ≡ v
unfolding sanitize
sanitize_unchanged (object m) h = elim (Option-cases (get m "input")) [
  | inl e ↦ ground arith
  | inr (w, e) ↦ ground (arith, sanitized_unchanged m w e)
]
sanitize_unchanged null h = refl
sanitize_unchanged _ h = refl

-- A sanitized request has nothing left to sanitize.
pub sanitize_again : (v : Value) → sanitize (sanitize v).1 ≡ (false, (sanitize v).1)
unfolding sanitize
sanitize_again (object m) = elim (Option-cases (get m "input")) [
  | inl e ↦ ground arith
  | inr (w, e) ↦ ground (
    arith,
    sanitized_again m,
    sanitize_input_again w,
    get-modify m "input" (λ v. (sanitize_input v).1) "input",
    get-modify m "input" (λ v. (sanitize_input v).1) "store",
    eq_refl "input",
    eq_iff "input" "store",
  )
]
sanitize_again null = refl
sanitize_again _ = refl

sanitize_input_of_native :
    (vs : Values) → All IsNativeItem (to_list vs) → sanitize_input (array vs) ≡ (false, array vs)
sanitize_input_of_native vs native =
    rw (sanitize_items_of_native (to_list vs) native) (rw of_list-to_list)

-- A request whose input is a list is forwarded as it is if no reasoning in the list has a ciphertext
-- that is null or begins with Grok's envelope, and every tool search in it that has an identifier has
-- one that begins with Codex's `tsc_`.
pub sanitize_of_native :
    (m : Map) (vs : Values)
    → get m "input" ≡ some (array vs)
    → All IsNativeItem (to_list vs)
    → sanitize (object m) ≡ (false, object m)
unfolding sanitize
sanitize_of_native m vs input native =
    let e = sanitize_input_of_native vs native in
    ground (arith, e, sanitized_unchanged m (array vs) input)
