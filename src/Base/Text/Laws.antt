-- ===== src/Base/Text/Laws.antt =====
-- The laws of prefixes.
use Prim.Native.String
use text.Mathlib.TextLemmas.{cons-append, nil-append}
use Prim.Native.Nat.{ℕ}
use mathlib.Core.Path.{◌≡◌, refl}
use mathlib.Core.Logic.{inl, inr}
use Prim.Native.Char.{code}
use text.Mathlib.TextEquality.{Char-path}
use mathlib.Core.Bool.{true}
use mathlib.Core.Option.{some}
use native.Mathlib.Omega.{arith}
use grok_codex_bridge.Base.Tests.{nat_eq, Bool-cases, nat_eq_iff}
use grok_codex_bridge.Base.Text.{strip_prefix}

nat_eq_self : (n : ℕ) → nat_eq n n ≡ true
nat_eq_self n = ground arith

pub strip_prefix-append :
    (prefix rest : String.String) → strip_prefix prefix (String.◌++◌ prefix rest) ≡ some rest
unfolding strip_prefix
strip_prefix-append String.[] rest = rw nil-append
strip_prefix-append (String.◌∷◌ c prefix) rest =
    rw cons-append (simp nat_eq_self (strip_prefix-append prefix rest))

-- Where a prefix is stripped, the text begins with it.
pub append-strip_prefix :
    (prefix s rest : String.String)
    → strip_prefix prefix s ≡ some rest
    → s ≡ String.◌++◌ prefix rest
unfolding strip_prefix
append-strip_prefix String.[] s rest h = rw nil-append (ground arith)
append-strip_prefix (String.◌∷◌ c prefix) String.[] rest h = ground arith
append-strip_prefix (String.◌∷◌ c prefix) (String.◌∷◌ d s) rest h =
    elim (Bool-cases (nat_eq (code c) (code d))) [
      | inl e ↦
          let same = Char-path c d ((nat_eq_iff (code c) (code d)).0 e) in
          let tail = append-strip_prefix prefix s rest (simp e at h) in
          rw cons-append (rw (same, tail) refl)
      | inr e ↦ ground (arith, e)
    ]
