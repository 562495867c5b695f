-- ===== src/Base/Trim.antt =====
-- `str::trim` and `str::parse` for unsigned 64-bit numbers.
use grok_codex_bridge.Base.{
  ltb, leb, if◌then◌else◌, get_or, ℕ, ◌+◌, ◌-◌, ◌*◌, ◌^◌, ◌&&◌, Option, none, some, ◌==◌, String,
}
use grok_codex_bridge.Base.Text.{is_whitespace, strip_prefix}
use Prim.Native.Char.{code}

unfoldable pub trim_start : String → String
trim_start String.[] = ""
trim_start (String.◌∷◌ c s) =
    let rest = trim_start s in if is_whitespace (code c) then rest else String.◌∷◌ c s

unfoldable pub trim_end : String → String
trim_end String.[] = ""
trim_end (String.◌∷◌ c s) =
    let rest = trim_end s in if rest == "" && is_whitespace (code c) then "" else String.◌∷◌ c rest

unfoldable pub trim : String → String
unfolding trim_start trim_end
trim s = trim_start (trim_end s)

-- The digits of a number, the value so far first.
unfoldable pub digits_from : ℕ → String → Option ℕ
digits_from n String.[] = some n
digits_from n (String.◌∷◌ c s) =
    let later = digits_from (n * 10 + (code c - 48)) s in
    if leb 48 (code c) && leb (code c) 57 then later else none

abbrev digits : String → Option ℕ
unfolding digits_from
digits String.[] = none
digits (String.◌∷◌ c s) = digits_from 0 (String.◌∷◌ c s)

abbrev below_2_64 : Option ℕ → Option ℕ
below_2_64 none = none
below_2_64 (some n) = if ltb n (2 ^ 64) then some n else none

-- `parse::<u64>()` and, on a 64-bit machine, `parse::<usize>()`: an optional `+`, at least one digit,
-- and no overflow
unfoldable pub parse_u64 : String → Option ℕ
unfolding digits
parse_u64 s = below_2_64 (digits (get_or s (strip_prefix "+" s)))
