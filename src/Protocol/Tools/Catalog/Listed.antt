-- ===== src/Protocol/Tools/Catalog/Listed.antt =====
-- What the loop of `parse_tools` in src/protocol.rs keeps.
use grok_codex_bridge.Base.{
  leb, length, ok_or, ok_of_bind, List, ◌==◌, some, Bool-cases, any, ok, ◌≡◌, refl, sym, ◌∙◌, inl,
  inr, true, false, [], ◌∷◌, ◌++◌, arith, String,
}
use grok_codex_bridge.Json.{Value, as_object, Map}
use grok_codex_bridge.Protocol.Error.{unsupported_tools}
use grok_codex_bridge.Protocol.Namespace.{
  NativeToolName, flat_name, insert_tool, NamespaceToolProjection,
}
use grok_codex_bridge.Protocol.Namespace.Laws.{insert_tool-IsInverse, IsInverse, IsInverse-default}
use grok_codex_bridge.Protocol.Tools.{
  parse_function_tool, tool_search_of, with_search, child_of, push_child, push_children,
  namespace_of, push_namespace, push_parsed, push_kind, push_tool, push_tools, max_xai_tools,
  parse_tool_list, push_tool_search, FunctionTool, function_tool, hosted_web_search, ToolLoop,
  start_loop, push_function, push_web_search,
}
use grok_codex_bridge.Protocol.Tools.Catalog.{
  IsCatalog, IsInverse-search, IsDistinct, any-snoc, IsDistinct-snoc,
}
use grok_codex_bridge.Protocol.Tools.Merge.{Tools, is_named, is_hosted}
use grok_codex_bridge.Protocol.Fields.{required_string}
use grok_codex_bridge.Protocol.Input.{contains}
use mathlib.Core.Path.{subst}

-- The loop's sets agree with the tools that it has.
record IsLoop (st : ToolLoop) : Type 0 where
  names : (s : String) → contains st.provider_names s ≡ any (is_named s) st.parsed
  hosted : st.has_hosted_web_search ≡ any is_hosted st.parsed
  distinct : IsDistinct st.parsed
  inverse : IsInverse st.namespace_projection

IsLoop-start : IsLoop start_loop
IsLoop-start = record {
  names = λ s. refl;
  hosted = refl;
  distinct = tt;
  inverse = IsInverse-default;
}

IsLoop-project :
    (st : ToolLoop) (p : NamespaceToolProjection)
    → IsInverse p
    → IsLoop st
    → IsLoop (record st { namespace_projection = p })
IsLoop-project st p inv h = record {
  names = h.names;
  hosted = h.hosted;
  distinct = h.distinct;
  inverse = inv;
}

IsLoop-push_function :
    (st : ToolLoop) (tool : FunctionTool) (st' : ToolLoop)
    → push_function st tool ≡ ok st'
    → IsLoop st
    → IsLoop st' × (st'.namespace_projection ≡ st.namespace_projection)
unfolding push_function
IsLoop-push_function st tool st' h l = elim (Bool-cases (contains st.provider_names tool.name)) [
  | inl e ↦ ground arith
  | inr e ↦
      let pushed : ToolLoop = record st {
        provider_names = tool.name ∷ st.provider_names;
        parsed = st.parsed ++ function_tool tool ∷ [];
      } in
      let same : pushed ≡ st' = ground arith in
      subst (λ s. IsLoop s × (s.namespace_projection ≡ st.namespace_projection)) {x = pushed}
        {y = st'} same
        (
          record {
            names = λ s.
                ground (arith, l.names s, any-snoc (is_named s) st.parsed (function_tool tool));
            hosted = ground (arith, l.hosted, any-snoc is_hosted st.parsed (function_tool tool));
            distinct =
                IsDistinct-snoc st.parsed (function_tool tool) l.distinct
                  (sym (l.names tool.name) ∙ e);
            inverse = l.inverse;
          },
          refl,
        )
]

IsLoop-push_web_search :
    (st : ToolLoop) (m : Map) (st' : ToolLoop)
    → push_web_search st m ≡ ok st'
    → IsLoop st
    → IsLoop st'
unfolding push_web_search
IsLoop-push_web_search st m st' h l =
    let pushed : ToolLoop = record st {
      has_hosted_web_search = true;
      parsed = st.parsed ++ hosted_web_search ∷ [];
    } in
    let fresh : st.has_hosted_web_search ≡ false = ground arith in
    let same : pushed ≡ st' = ground arith in
    subst IsLoop {x = pushed} {y = st'} same (record {
      names = λ s. ground (arith, l.names s, any-snoc (is_named s) st.parsed hosted_web_search);
      hosted = ground (arith, any-snoc is_hosted st.parsed hosted_web_search);
      distinct = IsDistinct-snoc st.parsed hosted_web_search l.distinct (sym l.hosted ∙ fresh);
      inverse = l.inverse;
    })

IsLoop-push_tool_search :
    (st : ToolLoop) (m : Map) (st' : ToolLoop)
    → push_tool_search st m ≡ ok st'
    → IsLoop st
    → IsLoop st'
unfolding push_tool_search
IsLoop-push_tool_search st m st' h l =
    let (tool, h1, k1) = ok_of_bind (tool_search_of st.provider_names m) _ h in
    let inverse = IsInverse-search st.namespace_projection (some "tool_search") l.inverse in
    (IsLoop-push_function (with_search st) tool st' k1 (IsLoop-project st _ inverse l)).0

IsLoop-push_child :
    (namespace : String) (st : ToolLoop) (tool : FunctionTool) (st' : ToolLoop)
    → push_child namespace st tool ≡ ok st'
    → IsLoop st
    → IsLoop st'
unfolding push_child
IsLoop-push_child namespace st tool st' h l =
    let native : NativeToolName = record { namespace = namespace; name = tool.name } in
    let (s, h1, k1) = ok_of_bind (push_function st (record tool { name = flat_name native })) _ h in
    let (p, h2, k2) =
      ok_of_bind (insert_tool st.namespace_projection (flat_name native) native) _ k1 in
    let inverse = insert_tool-IsInverse _ p (flat_name native) native h2 l.inverse in
    let pushed = IsLoop-push_function st (record tool { name = flat_name native }) s h1 l in
    subst IsLoop {x = record s { namespace_projection = p }} {y = st'} (ground arith)
      (IsLoop-project s p inverse pushed.0)

IsLoop-push_children :
    (namespace : String) (native_names : List String) (st : ToolLoop) (vs : List Value)
    (st' : ToolLoop)
    → push_children namespace native_names st vs ≡ ok st'
    → IsLoop st
    → IsLoop st'
unfolding push_children
IsLoop-push_children namespace native_names st [] st' h l =
    subst IsLoop {x = st} {y = st'} (ground arith) l
IsLoop-push_children namespace native_names st (v ∷ vs) st' h l =
    let (tool, h1, k1) = ok_of_bind (child_of native_names v) _ h in
    let (s, h2, k2) = ok_of_bind (push_child namespace st tool) _ k1 in
    IsLoop-push_children namespace (tool.name ∷ native_names) s vs st' k2
      (IsLoop-push_child namespace st tool s h2 l)

IsLoop-push_kind :
    (st : ToolLoop) (v : Value) (m : Map) (kind : String) (st' : ToolLoop)
    → push_kind st v m kind ≡ ok st'
    → IsLoop st
    → IsLoop st'
unfolding push_kind push_parsed push_namespace
IsLoop-push_kind st v m kind st' h l = elim (Bool-cases (kind == "function")) [
  | inl e ↦
      let (tool, h1, k1) = ok_of_bind (parse_function_tool v) _ (simp e at h) in
      (IsLoop-push_function st tool st' k1 l).0
  | inr e1 ↦ elim (Bool-cases (kind == "tool_search")) [
    | inl e ↦ IsLoop-push_tool_search st m st' (simp (e1, e) at h) l
    | inr e2 ↦ elim (Bool-cases (kind == "namespace")) [
      | inl e ↦
          let ((namespace, children), h1, k1) =
            ok_of_bind (namespace_of m) _ (simp (e1, e2, e) at h) in
          IsLoop-push_children namespace [] st children st' k1 l
      | inr e3 ↦ elim (Bool-cases (kind == "web_search")) [
        | inl e ↦ IsLoop-push_web_search st m st' (simp (e1, e2, e3, e) at h) l
        | inr e ↦ ground arith
      ]
    ]
  ]
]

IsLoop-push_tools :
    (st : ToolLoop) (vs : List Value) (st' : ToolLoop)
    → push_tools st vs ≡ ok st'
    → IsLoop st
    → IsLoop st'
unfolding push_tools push_tool
IsLoop-push_tools st [] st' h l = subst IsLoop {x = st} {y = st'} (ground arith) l
IsLoop-push_tools st (v ∷ vs) st' h l =
    let (s, h1, k1) = ok_of_bind (push_tool st v) _ h in
    let (m, h2, k2) = ok_of_bind (ok_or unsupported_tools (as_object v)) _ h1 in
    let (kind, h3, k3) = ok_of_bind (required_string m "type") _ k2 in
    IsLoop-push_tools s vs st' k1 (IsLoop-push_kind st v m kind s k3 l)

pub IsCatalog-parse_tool_list :
    (vs : List Value) (r : Tools) → parse_tool_list vs ≡ ok r → IsCatalog r.0 r.1
unfolding parse_tool_list
IsCatalog-parse_tool_list vs r h =
    let (st, h1, k1) = ok_of_bind (push_tools start_loop vs) _ h in
    let l = IsLoop-push_tools start_loop vs st h1 IsLoop-start in
    let few : leb (length st.parsed) max_xai_tools ≡ true = ground arith in
    subst (λ (s : Tools). IsCatalog s.0 s.1) {x = (st.parsed, st.namespace_projection)} {y = r}
      (ground arith) (record { few = ground arith; distinct = l.distinct; inverse = l.inverse })
