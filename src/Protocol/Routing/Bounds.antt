-- ===== src/Protocol/Routing/Bounds.antt =====
-- The two bytes of src/protocol.rs that carry the version and the variant of a UUID.
use grok_codex_bridge.Base.{
  leb, Bool-cases, ℕ, zero, suc, ◌+◌, ◌≤◌, ◌<◌, ◌≡◌, refl, inl, inr, Bool, true, false, ◌&&◌, arith,
}
use grok_codex_bridge.Protocol.Routing.{version_byte, variant_byte}
use mathlib.Core.Path.{subst}

-- The test holds at each of `n` numbers from `i` on.
holds_from : (ℕ → Bool) → ℕ → ℕ → Bool
holds_from test i zero = true
holds_from test i (suc n) = test i && holds_from test (suc i) n

here_eq : (i b : ℕ) → i ≤ b → leb (suc i) b ≡ false → i ≡ b
here_eq i b from below = ground arith

holds_from-all :
    (test : ℕ → Bool) (i n : ℕ)
    → holds_from test i n ≡ true
    → (b : ℕ) → i ≤ b
    → b < i + n
    → test b ≡ true
unfolding holds_from
holds_from-all test i zero held b from upto = absurd (omega arith)
holds_from-all test i (suc n) held b from upto = elim (Bool-cases (leb (suc i) b)) [
  | inl above ↦ ground (arith, holds_from-all test (suc i) n (ground arith) b)
  | inr here ↦ subst (λ x. test x ≡ true) (here_eq i b from here) (ground arith)
]

abbrev version_fits : ℕ → Bool
version_fits b = leb 0x50 (version_byte b) && leb (version_byte b) 0x5f

abbrev variant_fits : ℕ → Bool
variant_fits b = leb 0x80 (variant_byte b) && leb (variant_byte b) 0xbf

version_table : holds_from version_fits 0 256 ≡ true
unfolding holds_from
version_table = refl

variant_table : holds_from variant_fits 0 256 ≡ true
unfolding holds_from
variant_table = refl

pub version_byte_bounds : (b : ℕ) → b < 256 → (0x50 ≤ version_byte b) × (version_byte b ≤ 0x5f)
version_byte_bounds b h = ground (arith, holds_from-all version_fits 0 256 version_table b)

pub variant_byte_bounds : (b : ℕ) → b < 256 → (0x80 ≤ variant_byte b) × (variant_byte b ≤ 0xbf)
variant_byte_bounds b h = ground (arith, holds_from-all variant_fits 0 256 variant_table b)
