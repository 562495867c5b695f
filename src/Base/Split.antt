-- ===== src/Base/Split.antt =====
-- `str::split_once`, the part before a delimiter, and `join`.
use grok_codex_bridge.Base.{if◌then◌else◌, ℕ, Bool, Option, none, some, List, [], ◌∷◌, String}
use grok_codex_bridge.Base.Text.{strip_prefix}
use Prim.Native.String
use Prim.Native.Char.{code}

-- `str::split_once`, the separator first
unfoldable pub split_once : String → String → Option (String × String)
split_once sep String.[] = elim (strip_prefix sep "") [ some rest ↦ some ("", rest) | none ↦ none ]
split_once sep (String.◌∷◌ c s) =
    let later = split_once sep s in
    elim (strip_prefix sep (String.◌∷◌ c s)) [
      | some rest ↦ some ("", rest)
      | none ↦ elim later [ some (before, rest) ↦ some (String.◌∷◌ c before, rest) | none ↦ none ]
    ]

-- `split(delimiters).next()`: the part before the first character that the test accepts
unfoldable pub before_first : (ℕ → Bool) → String → String
before_first p String.[] = ""
before_first p (String.◌∷◌ c s) =
    let rest = before_first p s in if p (code c) then "" else String.◌∷◌ c rest

-- `join`, the separator first
unfoldable pub join : String → List String → String
join sep [] = ""
join sep (s ∷ []) = s
join sep (s ∷ t ∷ rest) = String.◌++◌ s (String.◌++◌ sep (join sep (t ∷ rest)))
