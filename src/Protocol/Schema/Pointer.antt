-- ===== src/Protocol/Schema/Pointer.antt =====
-- JSON pointers in the schemas of tools: `resolve_local_schema_ref` and `resolve_json_pointer` of
-- src/protocol.rs.
use grok_codex_bridge.Base.{
  nat_eq, if◌then◌else◌, get_elem?, ℕ, Bool, true, false, Option, none, some, List, [], ◌∷◌, ◌==◌,
  String,
}
use grok_codex_bridge.Base.Trim.{parse_u64}
use grok_codex_bridge.Base.Text.{strip_prefix}
use grok_codex_bridge.Json.{Value, array, object, Map, to_list, get, as_object, ◌and_then◌}
use Prim.Native.String
use Prim.Native.Char.{code}

abbrev cons_to_first : String → List String → List String
cons_to_first c [] = c ∷ []
cons_to_first c (s ∷ rest) = String.◌++◌ c s ∷ rest

-- `split('/')`
unfoldable pub split_slash : String → List String
split_slash String.[] = "" ∷ []
split_slash (String.◌∷◌ c s) =
    let rest = split_slash s in
    if nat_eq (code c) 47 then "" ∷ rest else cons_to_first (String.◌∷◌ c "") rest

-- `replace("~d", with)`, for the code of the character `d`; the text before is what was read and
-- not yet kept, which is empty or "~"
unfoldable pub replace_escape : ℕ → String → Bool → String → String
replace_escape d with tilde String.[] = if tilde then "~" else ""
replace_escape d with tilde (String.◌∷◌ c s) =
    let replaced = String.◌++◌ with (replace_escape d with false s) in
    let waiting = replace_escape d with true s in
    let plain = String.◌∷◌ c (replace_escape d with false s) in
    if tilde
    then if nat_eq (code c) d
      then replaced
      else if nat_eq (code c) 126
      then String.◌++◌ "~" waiting
      else String.◌++◌ "~" plain
    else if nat_eq (code c) 126
    then waiting
    else plain

-- `raw_segment.replace("~1", "/").replace("~0", "~")`
unfoldable pub unescape : String → String
unfolding replace_escape
unescape s = replace_escape 48 "~" false (replace_escape 49 "/" false s)

-- The loop of `resolve_local_schema_ref`, over the segments that are left.
unfoldable pub follow_objects : Map → List String → Option Map
unfolding unescape
follow_objects m [] = none
follow_objects m (s ∷ []) = get m (unescape s) and_then as_object
follow_objects m (s ∷ t ∷ rest) =
    (get m (unescape s) and_then as_object) and_then λ next. follow_objects next (t ∷ rest)

unfoldable pub resolve_local_schema_ref : String → Map → Option Map
unfolding follow_objects split_slash
resolve_local_schema_ref reference root =
    strip_prefix "#/" reference and_then λ pointer. follow_objects root (split_slash pointer)

-- One segment of `resolve_json_pointer`.
abbrev member : Value → String → Option Value
member (object m) segment = get m segment
member (array vs) segment = parse_u64 segment and_then get_elem? (to_list vs)
member _ segment = none

unfoldable pub follow : Value → List String → Option Value
unfolding unescape
follow v [] = some v
follow v (s ∷ rest) = member v (unescape s) and_then λ next. follow next rest

abbrev from_slash : Value → String → Option Value
unfolding follow split_slash
from_slash root pointer = strip_prefix "/" pointer and_then λ rest. follow root (split_slash rest)

unfoldable pub resolve_json_pointer : Value → String → Option Value
unfolding from_slash
resolve_json_pointer root reference = strip_prefix "#" reference and_then λ pointer.
    if pointer == "" then some root else from_slash root pointer
