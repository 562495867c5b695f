-- ===== src/Protocol/Namespace/Laws.antt =====
-- The two maps of a projection are inverse to one another, so that a flat name that a response
-- brings back stands for one tool of the request.
use grok_codex_bridge.Protocol.Namespace.{
  project_new, NativeToolName, NamespaceToolProjection, default, same_tool, native_of, provider_of,
  insert_tool, ensure_provider_name,
}
use grok_codex_bridge.Base.{
  Option-cases, refl, inl, inr, eq_refl, ok, ◌≡◌, ◌↔◌, true, some, arith, eq_iff, String,
}
use mathlib.Core.Path.{subst}

-- Each map is the other read backwards.
pub record IsInverse (p : NamespaceToolProjection) : Type 0 where
  pub to_provider :
      (provider : String) (tool : NativeToolName)
      → native_of p.provider_to_native provider ≡ some tool
      → provider_of p.native_to_provider tool ≡ some provider
  pub to_native :
      (provider : String) (tool : NativeToolName)
      → provider_of p.native_to_provider tool ≡ some provider
      → native_of p.provider_to_native provider ≡ some tool

pub IsInverse-default : IsInverse default
unfolding native_of provider_of
IsInverse-default = record { to_provider = λ p t h. cc; to_native = λ p t h. cc }

same_tool_iff : (a b : NativeToolName) → (same_tool a b ≡ true) ↔ (a ≡ b)
same_tool_iff a b = ground (arith, eq_iff a.namespace b.namespace, eq_iff a.name b.name)

pub insert_tool-IsInverse :
    (p p' : NamespaceToolProjection) (provider : String) (tool : NativeToolName)
    → insert_tool p provider tool ≡ ok p'
    → IsInverse p
    → IsInverse p'
unfolding insert_tool native_of provider_of
insert_tool-IsInverse p p' provider tool h inv = record {
  to_provider =
      λ q t e. ground (arith, eq_iff provider q, same_tool_iff tool t, inv.to_provider q t);
  to_native = λ q t e. ground (arith, eq_iff provider q, same_tool_iff tool t, inv.to_native q t);
}

-- A projection that grew has every entry that it had.
pub record Extends (p p' : NamespaceToolProjection) : Type 0 where
  pub keeps :
      (provider : String) (tool : NativeToolName)
      → native_of p.provider_to_native provider ≡ some tool
      → native_of p'.provider_to_native provider ≡ some tool
  pub keeps_search : p'.tool_search_provider_name ≡ p.tool_search_provider_name

pub insert_tool-Extends :
    (p p' : NamespaceToolProjection) (provider : String) (tool : NativeToolName)
    → insert_tool p provider tool ≡ ok p'
    → Extends p p'
unfolding insert_tool native_of
insert_tool-Extends p p' provider tool h = record {
  keeps = λ q t e. ground (arith, eq_iff provider q);
  keeps_search = ground arith;
}

insert_tool-native_of :
    (p p' : NamespaceToolProjection) (provider : String) (tool : NativeToolName)
    → insert_tool p provider tool ≡ ok p'
    → native_of p'.provider_to_native provider ≡ some tool
unfolding insert_tool native_of
insert_tool-native_of p p' provider tool h = ground (arith, eq_refl provider)

project_new_ok :
    (p p' : NamespaceToolProjection) (tool : NativeToolName) (provider : String)
    → project_new p tool ≡ ok (provider, p')
    → insert_tool p provider tool ≡ ok p'
project_new_ok p p' tool provider h = ground arith

Extends-refl : (p : NamespaceToolProjection) → Extends p p
Extends-refl p = record { keeps = λ q t e. e; keeps_search = refl }

-- In a projection whose maps are inverse, a tool whose name is projected is the one that its flat
-- name stands for afterwards; the maps stay inverse, and no earlier entry is lost.
pub ensure_provider_name_lem :
    (p p' : NamespaceToolProjection) (tool : NativeToolName) (provider : String)
    → IsInverse p
    → ensure_provider_name p tool ≡ ok (provider, p')
    → (native_of p'.provider_to_native provider ≡ some tool) × IsInverse p' × Extends p p'
unfolding ensure_provider_name
ensure_provider_name_lem p p' tool provider inv h =
    elim (Option-cases (provider_of p.native_to_provider tool)) [
      | inl fresh ↦
          let made = project_new_ok p p' tool provider (ground arith) in
          (
            insert_tool-native_of p p' provider tool made,
            insert_tool-IsInverse p p' provider tool made inv,
            insert_tool-Extends p p' provider tool made,
          )
      | inr (q, known) ↦
          let same : p ≡ p' = ground arith in
          (
            rw (← same) (inv.to_native provider tool (ground arith)),
            subst IsInverse same inv,
            subst (Extends p) same (Extends-refl p),
          )
    ]

-- A tool that has been projected keeps its flat name: projecting it again changes nothing.
pub ensure_provider_name_again :
    (p p' : NamespaceToolProjection) (tool : NativeToolName) (provider : String)
    → IsInverse p
    → ensure_provider_name p tool ≡ ok (provider, p')
    → ensure_provider_name p' tool ≡ ok (provider, p')
unfolding ensure_provider_name
ensure_provider_name_again p p' tool provider inv h =
    let (known, inv', grown) = ensure_provider_name_lem p p' tool provider inv h in
    rw (inv'.to_provider provider tool known, ensure_provider_name)
