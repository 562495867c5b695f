-- ===== src/Server/Attempt/Streams.antt =====
-- The posts to Grok of src/server.rs: what goes downstream.
use mathlib.Core.Path.{subst}
use native.Mathlib.Decide.{dec_lt}
use grok_codex_bridge.Base.{
  Result, ◌⊎◌, false, ℕ, zero, suc, ◌+◌, ◌≤◌, ◌<◌, ◌≡◌, refl, ◌∙◌, ap, inl, inr, none, some, List,
  [], ◌∷◌, ◌++◌, map, String, arith, ok, err, Bool-cases, Option-cases, Result-cases,
}
use grok_codex_bridge.Grok.{GrokError, stream_failed}
use grok_codex_bridge.Server.Attempt.{
  streaming_from, after_prelude, Post, Prelude, committed, broken, ended, read_prelude, post_end,
  attempt_from, validated_text_events, event_commits_downstream,
}
use grok_codex_bridge.Grok.Events.{Event}
use grok_codex_bridge.Protocol.Namespace.{NamespaceToolProjection}
use grok_codex_bridge.Protocol.Restore.{JsonText}
use grok_codex_bridge.Protocol.Stream.{ValidatedTextStreamEvent}
use grok_codex_bridge.Server.Attempt.Laws.{after_prelude-early}

sent-snoc :
    (xs : List ValidatedTextStreamEvent) (x : ValidatedTextStreamEvent) (ys : List Event)
    → map ok (xs ++ x ∷ []) ++ ys ≡ map ok xs ++ ok x ∷ ys
sent-snoc [] x ys = refl
sent-snoc (z ∷ xs) x ys = ap (λ (es : List Event). ok z ∷ es) (sent-snoc xs x ys)

-- The prelude that is committed and what is left are the items, in order.
read_prelude-committed :
    (before : List ValidatedTextStreamEvent) (events : List Event)
    (prelude : List ValidatedTextStreamEvent) (rest : List Event)
    → read_prelude before events ≡ committed prelude rest
    → map ok prelude ++ rest ≡ map ok before ++ events
unfolding read_prelude
read_prelude-committed before [] prelude rest h = ground arith
read_prelude-committed before (err e ∷ events) prelude rest h = ground arith
read_prelude-committed before (ok event ∷ events) prelude rest h =
    elim (Bool-cases (event_commits_downstream event.kind)) [
      | inl c ↦ ground (arith, sent-snoc before event events)
      | inr c ↦
          read_prelude-committed (before ++ event ∷ []) events prelude rest (ground arith)
          ∙ sent-snoc before event events
    ]

-- The items break with an error before any event that commits.
abbrev pub BreaksEarly : GrokError → List Event → Type 0
BreaksEarly e [] = ⊥
BreaksEarly e (err failure ∷ events) = failure ≡ e
BreaksEarly e (ok event ∷ events) =
    (event_commits_downstream event.kind ≡ false) × BreaksEarly e events

read_prelude-broken :
    (before : List ValidatedTextStreamEvent) (events : List Event) (e : GrokError)
    → read_prelude before events ≡ broken e
    → BreaksEarly e events
unfolding read_prelude
read_prelude-broken before [] e h = ground arith
read_prelude-broken before (err failure ∷ events) e h = ground arith
read_prelude-broken before (ok event ∷ events) e h =
    elim (Bool-cases (event_commits_downstream event.kind)) [
      | inl c ↦ ground arith
      | inr c ↦ (c, read_prelude-broken (before ++ event ∷ []) events e (ground arith))
    ]

first_or_later : (first j : ℕ) → first ≤ j → (first ≡ j) ⊎ (first + 1 ≤ j)
first_or_later first j h = elim (dec_lt first j) [
  | yes m ↦ inr (omega arith)
  | no m ↦ inl (omega arith)
]

module _ (json : JsonText) (uuid : String) (p : NamespaceToolProjection) where
  -- The post came to an error, or to a stream that broke before any event that commits.
  abbrev pub IsSilent : Post → Type 0
  IsSilent post =
      ((e : GrokError) × (post.answer ≡ err e))
      ⊎ ((inner : List (Result GrokError String)) × (post.answer ≡ ok inner)
          × BreaksEarly stream_failed (validated_text_events json uuid p inner))

  -- What goes downstream is the whole validated stream of the post.
  abbrev pub IsWhole : Post → List ValidatedTextStreamEvent → List Event → Type 0
  IsWhole post prelude rest =
      (inner : List (Result GrokError String)) × (post.answer ≡ ok inner)
      × (map ok prelude ++ rest ≡ validated_text_events json uuid p inner)

  post_end-IsSilent :
      (retries : ℕ) (post : Post) → post_end json uuid p retries post ≡ none → IsSilent post
  unfolding post_end
  post_end-IsSilent retries post h = elim (Result-cases post.answer) [
    | inl (inner, e) ↦ inr (
      inner,
      e,
      read_prelude-broken [] (validated_text_events json uuid p inner) stream_failed
          (after_prelude-early json uuid p retries post.elapsed
            (read_prelude [] (validated_text_events json uuid p inner)) (ground arith)).1,
    )
    | inr (failure, e) ↦ inl (failure, e)
  ]

  after_prelude-streaming :
      (retries elapsed : ℕ) (read : Prelude) (prelude : List ValidatedTextStreamEvent)
      (rest : List Event)
      → after_prelude json uuid p retries elapsed read ≡ some (streaming_from prelude rest)
      → read ≡ committed prelude rest
  after_prelude-streaming retries elapsed (committed prelude' rest') prelude rest h = ground arith
  after_prelude-streaming retries elapsed ended prelude rest h = ground arith
  after_prelude-streaming retries elapsed (broken e) prelude rest h = ground arith

  post_end-streaming :
      (retries : ℕ) (post : Post) (prelude : List ValidatedTextStreamEvent) (rest : List Event)
      → post_end json uuid p retries post ≡ some (streaming_from prelude rest)
      → IsWhole post prelude rest
  unfolding post_end
  post_end-streaming retries post prelude rest h = elim (Result-cases post.answer) [
    | inl (inner, e) ↦ (
      inner,
      e,
      read_prelude-committed [] (validated_text_events json uuid p inner) prelude rest (
          after_prelude-streaming retries post.elapsed
            (read_prelude [] (validated_text_events json uuid p inner)) prelude rest
            (ground arith)),
    )
    | inr (failure, e) ↦ ground arith
  ]

  attempt_from-streams :
      (posts : ℕ → Post) (n first i : ℕ) (prelude : List ValidatedTextStreamEvent)
      (rest : List Event)
      → attempt_from json uuid p posts n first ≡ some (streaming_from prelude rest, i)
      → IsWhole (posts i) prelude rest × ((j : ℕ) → first ≤ j → j < i → IsSilent (posts j))
  unfolding attempt_from
  attempt_from-streams posts zero first i prelude rest h = ground arith
  attempt_from-streams posts (suc n) first i prelude rest h =
      elim (Option-cases (post_end json uuid p first (posts first))) [
        | inr (done, e) ↦
            let streamed : post_end json uuid p first (posts first)
                ≡ some (streaming_from prelude rest) =
              ground arith in
            let same : first ≡ i = ground arith in
            subst
              (λ k.
                IsWhole (posts k) prelude rest × ((j : ℕ) → first ≤ j → j < k → IsSilent (posts j)))
              {x = first} {y = i} same
              (
                post_end-streaming first (posts first) prelude rest streamed,
                λ j l m. absurd (omega arith),
              )
        | inl e ↦
            let later : attempt_from json uuid p posts n (first + 1)
                ≡ some (streaming_from prelude rest, i) =
              ground arith in
            let (whole, silent) = attempt_from-streams posts n (first + 1) i prelude rest later in
            (
              whole,
              λ j l m. elim (first_or_later first j l) [
                | inl same ↦
                    subst (λ k. IsSilent (posts k)) same (post_end-IsSilent first (posts first) e)
                | inr after ↦ silent j after m
              ],
            )
      ]

-- If the loop ends with a stream, that stream is the whole validated stream of the last post, and
-- every post before it came to an error or broke before any event that commits.
pub attempt_streams :
    (json : JsonText) (uuid : String) (p : NamespaceToolProjection) (posts : ℕ → Post) (i : ℕ)
    (prelude : List ValidatedTextStreamEvent) (rest : List Event)
    → attempt_from json uuid p posts 4 0 ≡ some (streaming_from prelude rest, i)
    → IsWhole json uuid p (posts i) prelude rest
      × ((j : ℕ) → j < i → IsSilent json uuid p (posts j))
attempt_streams json uuid p posts i prelude rest h =
    let (whole, silent) = attempt_from-streams json uuid p posts 4 0 i prelude rest h in
    (whole, λ j m. silent j (omega arith) m)
