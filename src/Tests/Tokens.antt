-- ===== src/Tests/Tokens.antt =====
-- Runs of the comparison of capability tokens (src/config.rs).
use grok_codex_bridge.Base.{List, ℕ, ◌≡◌, ◌↔◌, refl, true, false, some, none, []}
use grok_codex_bridge.Base.Text.{bytes}
use grok_codex_bridge.Config.{capability_matches, parse_capability, fold_difference}
use grok_codex_bridge.Config.Compare.{capability_matches_iff}

abbrev token : List ℕ
unfolding bytes
token = bytes "abcdefghijklmnopqrstuvwxyz_12345"

abbrev other : List ℕ
unfolding bytes
other = bytes "abcdefghijklmnopqrstuvwxyz_12346"

capability_matches_example : (capability_matches token other ≡ true) ↔ (token ≡ other)
capability_matches_example = capability_matches_iff token other

token_alone : capability_matches token token ≡ true
unfolding capability_matches fold_difference token
token_alone = refl

other_refused : capability_matches token other ≡ false
unfolding capability_matches fold_difference token other
other_refused = refl

prefix_refused : capability_matches token [] ≡ false
unfolding capability_matches fold_difference token
prefix_refused = refl

parsed_token : parse_capability "abcdefghijklmnopqrstuvwxyz_12345" ≡ some token
unfolding parse_capability bytes
parsed_token = refl

short_token : parse_capability "abc" ≡ none
unfolding parse_capability bytes
short_token = refl
