-- ===== src/Protocol/Request/Accepted.antt =====
-- What a request of src/protocol.rs satisfies once it is accepted.
use grok_codex_bridge.Base.{
  Bool-cases, any, is_empty, ok_or, ◌>>=◌, String, ◌≢◌, ◌⊎◌, inl, inr, Bool, Option, none, some,
  List, ◌∷◌, eq_iff, length, ok, guard, ok_of_bind, ok_inj, ap, sym, not, ◌∙◌, ◌≤◌, ◌≡◌, refl, true,
  false, [], arith,
}
use grok_codex_bridge.Base.Text.{is_blank}
use grok_codex_bridge.Json.{
  as_str, as_bool, Value, null, bool, number, string, array, object, Map, get,
}
use grok_codex_bridge.Protocol.Error.{
  missing_request_field, unknown_tool_choice, invalid_request_field,
}
use grok_codex_bridge.Protocol.Fields.{
  required_string, required_value, required_nonempty_string, required_array, optional_string,
  required_bool, optional_object, required_string_array, optional_scalar_string,
}
use grok_codex_bridge.Protocol.Tools.{
  ProjectedTool, function_tool, hosted_web_search, ToolsField, max_xai_tools, parse_tools,
}
use grok_codex_bridge.Protocol.Tools.Choice.{
  ToolChoice, choose_auto, choose_none, choose_required, choose_function, parse_tool_choice,
  admitted, admits,
}
use grok_codex_bridge.Protocol.Tools.Merge.{is_named, merge_discovered_tool_search_specs}
use grok_codex_bridge.Protocol.Base64.Image.{ParseUrl}
use grok_codex_bridge.Protocol.Input.{parse_input}
use grok_codex_bridge.Protocol.Input.Matched.{IsMatchedFrom, IsMatched-parse_input}
use grok_codex_bridge.Protocol.Request.{
  NormalizedResponsesRequest, Rest, parse_client_metadata, parse_rest, request_of, parse_object,
  parse_request,
}
use grok_codex_bridge.Protocol.Restore.{JsonText}
use grok_codex_bridge.Protocol.Tools.Catalog.{IsDistinct}
use grok_codex_bridge.Protocol.Tools.Catalog.Merged.{IsCatalog-discovered}
use mathlib.Core.Path.{subst}

-- One of the tools is a function of this name.
abbrev pub HasFunction : String → List ProjectedTool → Type 0
HasFunction name [] = ⊥
HasFunction name (function_tool t ∷ tools) = (t.name ≡ name) ⊎ HasFunction name tools
HasFunction name (hosted_web_search ∷ tools) = HasFunction name tools

-- What a choice asks of the tools.
abbrev pub IsAllowed : ToolChoice → List ProjectedTool → Type 0
IsAllowed choose_required tools = tools ≢ []
IsAllowed (choose_function name) tools = HasFunction name tools
IsAllowed choose_auto tools = Unit {0}
IsAllowed choose_none tools = Unit {0}

-- Few and distinct tools, a choice among them, outputs that answer calls, and the fields of the body
-- that make it a stateless stream to a model that is named.
pub record IsAccepted (m : Map) (r : NormalizedResponsesRequest) : Type 0 where
  pub few_tools : length (admitted r.tools) ≤ max_xai_tools
  pub distinct_tools : IsDistinct (admitted r.tools)
  pub choice_allowed : IsAllowed r.tool_choice (admitted r.tools)
  pub matched : IsMatchedFrom [] [] r.items
  pub not_stored : (get m "store" ≡ some (bool false)) × (r.store ≡ false)
  pub streamed : (get m "stream" ≡ some (bool true)) × (r.stream ≡ true)
  pub named_model : get m "model" ≡ some (string r.model)

HasFunction-any :
    (name : String) (tools : List ProjectedTool)
    → any (is_named name) tools ≡ true
    → HasFunction name tools
HasFunction-any name [] h = ground arith
HasFunction-any name (function_tool t ∷ tools) h =
    elim (Bool-cases (is_named name (function_tool t))) [
      | inl e ↦ inl (ground (arith, eq_iff t.name name, eq_iff name t.name))
      | inr e ↦ inr (HasFunction-any name tools (ground arith))
    ]
HasFunction-any name (hosted_web_search ∷ tools) h = HasFunction-any name tools (ground arith)

IsAllowed-admits :
    (choice : ToolChoice) (tools : ToolsField)
    → admits choice tools ≡ true
    → IsAllowed choice (admitted tools)
unfolding admits
IsAllowed-admits choose_required tools h = λ e. ground (arith, ap is_empty e)
IsAllowed-admits (choose_function name) tools h = HasFunction-any name (admitted tools) h
IsAllowed-admits choose_auto tools h = tt
IsAllowed-admits choose_none tools h = tt

required_bool-ok :
    (m : Map) (k : String) (b : Bool) → required_bool m k ≡ ok b → get m k ≡ some (bool b)
unfolding required_bool required_value
required_bool-ok m k b h = go (get m k) h
  where
    go :
        (o : Option Value)
        → (ok_or (missing_request_field k) o >>= (λ v. ok_or (invalid_request_field k) (as_bool v)))
          ≡ ok b
        → o ≡ some (bool b)
    go none e = ground arith
    go (some (bool c)) e = ap (λ x. some (bool x)) (ok_inj e)
    go (some null) e = ground arith
    go (some (number n)) e = ground arith
    go (some (string s)) e = ground arith
    go (some (array vs)) e = ground arith
    go (some (object o)) e = ground arith

required_nonempty_string-ok :
    (m : Map) (k s : String) → required_nonempty_string m k ≡ ok s → get m k ≡ some (string s)
unfolding required_nonempty_string required_string required_value
required_nonempty_string-ok m k s h = go (get m k) h
  where
    go :
        (o : Option Value)
        → ((ok_or (missing_request_field k) o >>= (λ v. ok_or (invalid_request_field k) (as_str v)))
            >>= (λ value.
                guard (not (is_blank value)) (invalid_request_field k) >>= (λ u. ok value)))
          ≡ ok s
        → o ≡ some (string s)
    go none e = ground arith
    go (some (string t)) e = elim (Bool-cases (is_blank t)) [
      | inl blank ↦ ground arith
      | inr full ↦ ap (λ x. some (string x)) (ground arith)
    ]
    go (some null) e = ground arith
    go (some (number n)) e = ground arith
    go (some (bool b)) e = ground arith
    go (some (array vs)) e = ground arith
    go (some (object o)) e = ground arith

-- A guard that passes had its condition.
ok_of_guard : {E : Type 0} (b : Bool) (e : E) (u : Unit {0}) → guard b e ≡ ok u → b ≡ true
ok_of_guard true e u h = refl
ok_of_guard false e u h = ground arith

-- The two guards on `store` and `stream`, and the values that pass them.
parse_rest_stateless :
    (m : Map) (rest : Rest)
    → parse_rest m ≡ ok rest
    → ((get m "store" ≡ some (bool false)) × (rest.rest_store ≡ false))
      × ((get m "stream" ≡ some (bool true)) × (rest.rest_stream ≡ true))
unfolding parse_rest
parse_rest_stateless m rest h =
    let (parallel, h1, k1) = ok_of_bind (required_bool m "parallel_tool_calls") _ h in
    let (effort, h2, k2) = ok_of_bind (optional_object m "reasoning") _ k1 in
    let (store, h3, k3) = ok_of_bind (required_bool m "store") _ k2 in
    let (u, h4, k4) = ok_of_bind (guard (not store) (invalid_request_field "store")) _ k3 in
    let (stream, h5, k5) = ok_of_bind (required_bool m "stream") _ k4 in
    let (w, h6, k6) = ok_of_bind (guard stream (invalid_request_field "stream")) _ k5 in
    let (options, h7, k7) = ok_of_bind (optional_object m "stream_options") _ k6 in
    let (include, h8, k8) = ok_of_bind (required_string_array m "include") _ k7 in
    let (tier, h9, k9) = ok_of_bind (optional_scalar_string m "service_tier") _ k8 in
    let (key, h10, k10) = ok_of_bind (optional_scalar_string m "prompt_cache_key") _ k9 in
    let (retention, h11, k11) =
      ok_of_bind (optional_scalar_string m "prompt_cache_retention") _ k10 in
    let (previous, h12, k12) = ok_of_bind (optional_scalar_string m "previous_response_id") _ k11 in
    let (text_value, h13, k13) = ok_of_bind (optional_object m "text") _ k12 in
    let (metadata, h14, k14) = ok_of_bind (parse_client_metadata m) _ k13 in
    let same = sym (ok_inj k14) in
    let unstored = ok_of_guard (not store) _ u h4 in
    let streams = ok_of_guard stream _ w h6 in
    let no_store : store ≡ false = ground (arith, unstored) in
    (
      (
        required_bool-ok m "store" store h3 ∙ ap (λ b. some (bool b)) no_store,
        ap (λ (r : Rest). r.rest_store) same ∙ no_store,
      ),
      (
        required_bool-ok m "stream" stream h5 ∙ ap (λ b. some (bool b)) streams,
        ap (λ (r : Rest). r.rest_stream) same ∙ streams,
      ),
    )

module _ (parse_url : ParseUrl) (json : JsonText) where
  IsAccepted-parse_object :
      (m : Map) (r : NormalizedResponsesRequest)
      → parse_object parse_url json m ≡ ok r
      → IsAccepted m r
  unfolding parse_object
  IsAccepted-parse_object m r h =
      let (model, h1, k1) = ok_of_bind (required_nonempty_string m "model") _ h in
      let (instructions, h2, k2) = ok_of_bind (optional_string m "instructions") _ k1 in
      let (found, h3, k3) = ok_of_bind (parse_tools (get m "tools")) _ k2 in
      let (values, h4, k4) = ok_of_bind (required_array m "input") _ k3 in
      let ((tools, p), h5, k5) =
        ok_of_bind (merge_discovered_tool_search_specs found values) _ k4 in
      let ((items, p'), h6, k6) = ok_of_bind (parse_input parse_url json p values) _ k5 in
      let (chosen, h7, k7) = ok_of_bind (required_value m "tool_choice") _ k6 in
      let (choice, h8, k8) = ok_of_bind (parse_tool_choice chosen) _ k7 in
      let (u, h9, k9) = ok_of_bind (guard (admits choice tools) unknown_tool_choice) _ k8 in
      let (rest, h10, k10) = ok_of_bind (parse_rest m) _ k9 in
      let (kept_out, sent_on) = parse_rest_stateless m rest h10 in
      let c = IsCatalog-discovered (get m "tools") values found (tools, p) h3 h5 in
      subst (IsAccepted m) {x = request_of model instructions items tools choice p' rest} {y = r}
        (ground arith)
        (record {
          few_tools = c.few;
          distinct_tools = c.distinct;
          choice_allowed = IsAllowed-admits choice tools (ok_of_guard (admits choice tools) _ u h9);
          matched = IsMatched-parse_input parse_url json p p' values items h6;
          not_stored = kept_out;
          streamed = sent_on;
          named_model = required_nonempty_string-ok m "model" model h1;
        })

  -- A body that is accepted is an object. It has at most 128 tools after the discovered ones are
  -- added, no two of one name; the choice it requires has a tool, and the function it chooses is one
  -- of them. Each output in its items has a call before it and is the first output of that call. Its
  -- fields "store" and "stream" are there, false and true, and so is the text in "model"; the request
  -- has these three values.
  pub IsAccepted-parse_request :
      (v : Value) (r : NormalizedResponsesRequest)
      → parse_request parse_url json v ≡ ok r
      → (m : Map) × (v ≡ object m) × IsAccepted m r
  unfolding parse_request
  IsAccepted-parse_request (object m) r h = (m, refl, IsAccepted-parse_object m r h)
  IsAccepted-parse_request null r h = ground arith
  IsAccepted-parse_request (bool b) r h = ground arith
  IsAccepted-parse_request (number n) r h = ground arith
  IsAccepted-parse_request (string s) r h = ground arith
  IsAccepted-parse_request (array vs) r h = ground arith
