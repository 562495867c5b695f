-- ===== src/Server/Attempt/Laws.antt =====
-- The posts to Grok of src/server.rs: how many there are.
use grok_codex_bridge.Base.{
  ℕ, zero, suc, ◌+◌, ◌≤◌, ◌<◌, ◌≡◌, refl, inl, inr, none, some, [], String, arith, Option-cases,
  Result-cases,
}
use grok_codex_bridge.Grok.{stream_failed}
use grok_codex_bridge.Server.Attempt.{
  after_prelude, Post, Prelude, committed, broken, ended, read_prelude, Upstream, post_end,
  attempt_from, validated_text_events,
}
use grok_codex_bridge.Protocol.Namespace.{NamespaceToolProjection}
use grok_codex_bridge.Protocol.Restore.{JsonText}

module _ (json : JsonText) (uuid : String) (p : NamespaceToolProjection) where
  pub after_prelude-early :
      (retries elapsed : ℕ) (read : Prelude)
      → after_prelude json uuid p retries elapsed read ≡ none
      → (retries < 3) × (read ≡ broken stream_failed)
  after_prelude-early retries elapsed (committed prelude rest) h = ground arith
  after_prelude-early retries elapsed ended h = ground arith
  after_prelude-early retries elapsed (broken e) h = ground arith

  post_end-early :
      (retries : ℕ) (post : Post) → post_end json uuid p retries post ≡ none → retries < 3
  unfolding post_end
  post_end-early retries post h = elim (Result-cases post.answer) [
    | inl (inner, e) ↦
        (after_prelude-early retries post.elapsed
          (read_prelude [] (validated_text_events json uuid p inner)) (ground arith)).0
    | inr (failure, e) ↦ ground arith
  ]

  attempt_from-bounded :
      (posts : ℕ → Post) (n retries : ℕ)
      → retries ≤ 3
      → 4 ≤ n + retries
      → (r : Upstream × ℕ) × (attempt_from json uuid p posts n retries ≡ some r) × (r.1 ≤ 3)
  unfolding attempt_from
  attempt_from-bounded posts zero retries h k = ground arith
  attempt_from-bounded posts (suc n) retries h k =
      elim (Option-cases (post_end json uuid p retries (posts retries))) [
        | inr (done, e) ↦ ((done, retries), rw (e, attempt_from) refl, h)
        | inl e ↦
            let early = post_end-early retries (posts retries) e in
            let (r, found, few) =
              attempt_from-bounded posts n (retries + 1) (ground arith) (ground arith) in
            (r, rw (e, attempt_from) found, few)
      ]

-- The loop ends after at most four posts, whatever they come to.
pub attempt_ends :
    (json : JsonText) (uuid : String) (p : NamespaceToolProjection) (posts : ℕ → Post)
    → (r : Upstream × ℕ) × (attempt_from json uuid p posts 4 0 ≡ some r) × (r.1 ≤ 3)
attempt_ends json uuid p posts =
    attempt_from-bounded json uuid p posts 4 0 (ground arith) (ground arith)
