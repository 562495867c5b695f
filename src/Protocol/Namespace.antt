-- ===== src/Protocol/Namespace.antt =====
-- `NamespaceToolProjection` of src/protocol.rs: the request's map between Codex's namespaced tools
-- and the flat names that Grok takes. A `HashMap` is a list of its entries, the newest first.
use grok_codex_bridge.Base.{
  if◌then◌else◌, is_some, ok, err, ◌>>=◌, ◌>>◌, Bool, false, not, ◌&&◌, ◌||◌, Option, none, some,
  List, [], ◌∷◌, ◌++◌, ◌==◌, String,
}
use grok_codex_bridge.Protocol.Error.{duplicate_tool_name, Res}
pub mod Laws
use Prim.Native.String

pub record NativeToolName : Type 0 where
  pub namespace : String
  pub name : String

pub record NamespaceToolProjection : Type 0 where
  pub provider_to_native : List (String × NativeToolName)
  pub native_to_provider : List (NativeToolName × String)
  pub tool_search_provider_name : Option String

-- `NamespaceToolProjection::default()`
abbrev pub default : NamespaceToolProjection
default = record {
  provider_to_native = [];
  native_to_provider = [];
  tool_search_provider_name = none;
}

abbrev pub same_tool : NativeToolName → NativeToolName → Bool
same_tool a b = a.namespace == b.namespace && a.name == b.name

-- `provider_to_native.get`
unfoldable pub native_of : List (String × NativeToolName) → String → Option NativeToolName
native_of [] provider = none
native_of ((p, tool) ∷ rest) provider = if p == provider then some tool else native_of rest provider

-- `native_to_provider.get`; the pair that is its key has the fields of a `NativeToolName`
unfoldable pub provider_of : List (NativeToolName × String) → NativeToolName → Option String
provider_of [] tool = none
provider_of ((t, p) ∷ rest) tool = if same_tool t tool then some p else provider_of rest tool

-- `format!("{namespace}{NAMESPACE_DELIMITER}{name}")`
abbrev pub flat_name : NativeToolName → String
flat_name tool = String.◌++◌ tool.namespace (String.◌++◌ "__" tool.name)

unfoldable pub insert_tool :
    NamespaceToolProjection → String → NativeToolName → Res NamespaceToolProjection
insert_tool p provider tool =
    if is_some (provider_of p.native_to_provider tool)
      || is_some (native_of p.provider_to_native provider)
    then err duplicate_tool_name
    else ok (record p {
      native_to_provider = (tool, provider) ∷ p.native_to_provider;
      provider_to_native = (provider, tool) ∷ p.provider_to_native;
    })

-- The test on an entry that has the flat name already.
abbrev names_other : Option NativeToolName → NativeToolName → Bool
names_other none tool = false
names_other (some existing) tool = not (same_tool existing tool)

abbrev project_new :
    NamespaceToolProjection → NativeToolName → Res (String × NamespaceToolProjection)
project_new p tool =
    let provider = flat_name tool in
    if names_other (native_of p.provider_to_native provider) tool
    then err duplicate_tool_name
    else do p' ← insert_tool p provider tool; ok (provider, p')

-- The name and the projection after the call. A request whose projection fails is rejected as a
-- whole, so the projection that an error leaves behind is never read.
unfoldable pub ensure_provider_name :
    NamespaceToolProjection → NativeToolName → Res (String × NamespaceToolProjection)
unfolding insert_tool
ensure_provider_name p tool = elim (provider_of p.native_to_provider tool) [
  | some provider ↦ ok (provider, p)
  | none ↦ project_new p tool
]
