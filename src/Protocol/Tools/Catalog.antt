-- ===== src/Protocol/Tools/Catalog.antt =====
-- What the tools of a request in src/protocol.rs satisfy once they are parsed and merged.
use grok_codex_bridge.Protocol.Namespace.{native_of, NativeToolName, NamespaceToolProjection}
use grok_codex_bridge.Protocol.Tools.Merge.{
  is_this, push_new, insert_native, set_search, merge_new, merge_all, Tools, merge_discovered_tool,
  is_named, is_hosted, find_named,
}
use grok_codex_bridge.Base.{
  guard, ok_of_bind, leb, Bool-cases, Option-cases, length-append, sym, inl, inr, true, length, any,
  ok, ◌≤◌, ◌≡◌, refl, Bool, false, ◌||◌, Option, none, some, List, [], ◌∷◌, ◌++◌, arith, eq_iff,
  String,
}
use grok_codex_bridge.Protocol.Tools.{
  FunctionTool, ProjectedTool, function_tool, hosted_web_search, max_xai_tools,
}
use mathlib.Core.Path.{subst}
use grok_codex_bridge.Protocol.Items.Parse.{Parsed}
use grok_codex_bridge.Protocol.Namespace.Laws.{IsInverse, insert_tool-IsInverse}
pub mod Listed
pub mod Merged

-- Whether a tool has the same identity as another: the name of a function, or being the search.
abbrev pub takes_key : ProjectedTool → ProjectedTool → Bool
takes_key (function_tool t) u = is_named t.name u
takes_key hosted_web_search u = is_hosted u

-- No two tools have one identity.
abbrev pub IsDistinct : List ProjectedTool → Type 0
IsDistinct [] = Unit
IsDistinct (t ∷ ts) = (any (takes_key t) ts ≡ false) × IsDistinct ts

pub takes_key_comm : (t u : ProjectedTool) → takes_key t u ≡ takes_key u t
takes_key_comm (function_tool t) (function_tool u) =
    ground (arith, eq_iff t.name u.name, eq_iff u.name t.name)
takes_key_comm (function_tool t) hosted_web_search = refl
takes_key_comm hosted_web_search (function_tool u) = refl
takes_key_comm hosted_web_search hosted_web_search = refl

pub any-snoc {ℓ} :
    {A : Type ℓ} (p : A → Bool) (xs : List A) (x : A) → any p (xs ++ x ∷ []) ≡ (any p xs || p x)
any-snoc p [] x = ground arith
any-snoc p (y ∷ xs) x = ground (arith, any-snoc p xs x)

pub IsDistinct-snoc :
    (ts : List ProjectedTool) (t : ProjectedTool)
    → IsDistinct ts
    → any (takes_key t) ts ≡ false
    → IsDistinct (ts ++ t ∷ [])
IsDistinct-snoc [] t d h = (refl, tt)
IsDistinct-snoc (u ∷ ts) t d h = (
  ground (arith, any-snoc (takes_key u) ts t, takes_key_comm t u),
  IsDistinct-snoc ts t d.1 (ground arith),
)

-- At most 128 tools, distinct, and a projection of names whose maps are inverse.
pub record IsCatalog (ts : List ProjectedTool) (p : NamespaceToolProjection) : Type 0 where
  pub few : length ts ≤ max_xai_tools
  pub distinct : IsDistinct ts
  pub inverse : IsInverse p

find_named-none :
    (name : String) (ts : List ProjectedTool)
    → find_named name ts ≡ none
    → any (is_named name) ts ≡ false
unfolding find_named
find_named-none name [] h = refl
find_named-none name (function_tool t ∷ ts) h = ground (arith, find_named-none name ts)
find_named-none name (hosted_web_search ∷ ts) h = ground (arith, find_named-none name ts)

IsInverse-insert_native :
    (p p' : NamespaceToolProjection) (name : String) (native : Option NativeToolName)
    → insert_native p name native ≡ ok p'
    → IsInverse p
    → IsInverse p'
unfolding insert_native
IsInverse-insert_native p p' name none h inv = subst IsInverse {x = p} {y = p'} (ground arith) inv
IsInverse-insert_native p p' name (some native) h inv = insert_tool-IsInverse p p' name native h inv

-- The name of the search has no part in the maps.
pub IsInverse-search :
    (p : NamespaceToolProjection) (name : Option String)
    → IsInverse p
    → IsInverse (record p { tool_search_provider_name = name })
IsInverse-search p name inv = record { to_provider = inv.to_provider; to_native = inv.to_native }

IsInverse-set_search :
    (p p' : NamespaceToolProjection) (name : String) (b : Bool)
    → set_search p name b ≡ ok p'
    → IsInverse p
    → IsInverse p'
IsInverse-set_search p p' name false h inv = subst IsInverse {x = p} {y = p'} (ground arith) inv
IsInverse-set_search p p' name true h inv =
    subst IsInverse {x = record p { tool_search_provider_name = some name }} {y = p'} (ground arith)
      (IsInverse-search p (some name) inv)

IsCatalog-push_new :
    (ts : List ProjectedTool) (p : NamespaceToolProjection) (t : ProjectedTool) (r : Tools)
    → push_new (ts, p) t ≡ ok r
    → any (takes_key t) ts ≡ false
    → IsCatalog ts p
    → IsCatalog r.0 r.1
IsCatalog-push_new ts p t r h fresh c =
    let room : leb max_xai_tools (length ts) ≡ false = ground arith in
    subst (λ (s : Tools). IsCatalog s.0 s.1) {x = (ts ++ t ∷ [], p)} {y = r} (ground arith)
      (record {
        few = ground (arith, length-append ts (t ∷ []));
        distinct = IsDistinct-snoc ts t c.distinct fresh;
        inverse = c.inverse;
      })

IsCatalog-same :
    (ts : List ProjectedTool) (p : NamespaceToolProjection) (r : Tools)
    → r ≡ (ts, p)
    → IsCatalog ts p
    → IsCatalog r.0 r.1
IsCatalog-same ts p r h c = subst (λ (s : Tools). IsCatalog s.0 s.1) {x = (ts, p)} {y = r} (sym h) c

IsCatalog-merge_new :
    (ts : List ProjectedTool) (p : NamespaceToolProjection) (native : Option NativeToolName)
    (is_search : Bool) (t : FunctionTool) (r : Tools)
    → merge_new (ts, p) native is_search t ≡ ok r
    → any (is_named t.name) ts ≡ false
    → IsCatalog ts p
    → IsCatalog r.0 r.1
unfolding merge_new
IsCatalog-merge_new ts p native is_search t r h fresh c =
    let (p', h1, k1) = ok_of_bind (insert_native p t.name native) _ h in
    let (p'', h2, k2) = ok_of_bind (set_search p' t.name is_search) _ k1 in
    let inverse =
      IsInverse-set_search p' p'' t.name is_search h2
        (IsInverse-insert_native p p' t.name native h1 c.inverse) in
    IsCatalog-push_new ts p'' (function_tool t) r k2 fresh
      (record { few = c.few; distinct = c.distinct; inverse = inverse })

module _ (ts : List ProjectedTool) (p d : NamespaceToolProjection) where
  IsCatalog-merge_tool :
      (t : ProjectedTool) (r : Tools)
      → merge_discovered_tool (ts, p) d t ≡ ok r
      → IsCatalog ts p
      → IsCatalog r.0 r.1
  unfolding merge_discovered_tool
  IsCatalog-merge_tool hosted_web_search r h c = elim (Bool-cases (any is_hosted ts)) [
    | inl e ↦ IsCatalog-same ts p r (ground arith) c
    | inr e ↦ IsCatalog-push_new ts p hosted_web_search r (ground arith) e c
  ]
  IsCatalog-merge_tool (function_tool t) r h c = elim (Option-cases (find_named t.name ts)) [
    | inr (current, e) ↦ IsCatalog-same ts p r (ground arith) c
    | inl e ↦
        let native = native_of d.provider_to_native t.name in
        let is_search = is_this d.tool_search_provider_name t.name in
        let merged : merge_new (ts, p) native is_search t ≡ ok r = ground arith in
        IsCatalog-merge_new ts p native is_search t r merged (find_named-none t.name ts e) c
  ]

IsCatalog-merge_all :
    (ts : Tools) (d : NamespaceToolProjection) (additions : List ProjectedTool) (r : Tools)
    → merge_all ts d additions ≡ ok r
    → IsCatalog ts.0 ts.1
    → IsCatalog r.0 r.1
unfolding merge_all
IsCatalog-merge_all ts d [] r h c = IsCatalog-same ts.0 ts.1 r (ground arith) c
IsCatalog-merge_all ts d (t ∷ rest) r h c =
    let (ts', h1, k1) = ok_of_bind (merge_discovered_tool ts d t) _ h in
    IsCatalog-merge_all ts' d rest r k1 (IsCatalog-merge_tool ts.0 ts.1 d t ts' h1 c)
