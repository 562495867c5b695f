-- ===== src/Protocol/Input/Project/Kept.antt =====
-- What `project_input_for_xai` of src/protocol.rs keeps.
use grok_codex_bridge.Base.{
  Bool-cases, is_empty, inl, inr, not, ◌&&◌, take, drop, is_some, ℕ, zero, suc, String, ◌≡◌, refl,
  sym, ◌⊎◌, true, Option, none, some, [], ◌∷◌, ◌++◌, arith, List,
}
use grok_codex_bridge.Protocol.Input.Project.{
  completed_ids, initial, project_from, project_input_for_xai, call_of, output_of,
  is_assistant_message, project, open_call, close_call, Projection, end_batch, push_all, step,
  move_batch,
}
use mathlib.Core.List.{filter_map, Perm, append-nil, append_assoc, perm_append_comm}
use grok_codex_bridge.Json.{Value}
use grok_codex_bridge.Protocol.Items.{InputItem, to_grok_value}
use mathlib.Core.List.Perm
use mathlib.Core.Option.{Option-elim}

take_append_drop : (n : ℕ) (xs : List Value) → take n xs ++ drop n xs ≡ xs
take_append_drop zero xs = refl
take_append_drop (suc n) [] = refl
take_append_drop (suc n) (x ∷ xs) = cc (take_append_drop n xs)

-- Everything a state holds.
abbrev content : Projection → List Value
content s = s.projected ++ s.deferred

-- A message is deferred only while a batch has a start.
abbrev HasStart : Projection → Type 0
HasStart s = (is_some s.open_batch_start ≡ true) ⊎ ((s.open_call_ids ≡ []) × (s.deferred ≡ []))

Perm-moved : (k : ℕ) (vs ds : List Value) → Perm (take k vs ++ (ds ++ drop k vs)) (vs ++ ds)
Perm-moved k vs ds =
    Perm.trans (Perm.append_left (take k vs) (perm_append_comm ds (drop k vs)))
      (rw (sym (append_assoc (take k vs) (drop k vs) ds), take_append_drop k vs) Perm.rfl)

abbrev state : List String → Option ℕ → List Value → List Value → Projection
state ids start ds vs = record {
  open_call_ids = ids;
  open_batch_start = start;
  deferred = ds;
  projected = vs;
}

-- Moving the deferred values keeps everything, and leaves nothing deferred.
abbrev IsMoved : Option ℕ → Projection → Type 0
IsMoved start s =
    let moved = move_batch start s in
    (moved.deferred ≡ []) × Perm moved.projected (content s) × Perm (content moved) (content s)

IsMoved-move_batch :
    (ids : List String) (start start' : Option ℕ) (ds vs : List Value)
    → (is_some start ≡ true) ⊎ (ds ≡ [])
    → IsMoved start (state ids start' ds vs)
IsMoved-move_batch ids none start' [] vs h = (refl, rw (append-nil vs) Perm.rfl, Perm.rfl)
IsMoved-move_batch ids none start' (d ∷ ds) vs h = ground arith
IsMoved-move_batch ids (some k) start' [] vs h = (refl, rw (append-nil vs) Perm.rfl, Perm.rfl)
IsMoved-move_batch ids (some k) start' (d ∷ ds) vs h =
    let moved = Perm-moved k vs (d ∷ ds) in (refl, moved, rw append-nil moved)

Perm-end_batch : (s : Projection) → HasStart s → Perm (content (end_batch s)) (content s)
unfolding end_batch
Perm-end_batch s h = elim (Bool-cases (is_empty s.open_call_ids)) [
  | inl e ↦
      simp e
        (IsMoved-move_batch s.open_call_ids s.open_batch_start none s.deferred s.projected
          (ground arith)).2
  | inr e ↦ simp e Perm.rfl
]

-- The values of an optional one.
abbrev values_of : Option Value → List Value
values_of none = []
values_of (some v) = v ∷ []

append-push_all : (vs : List Value) (v : Option Value) → push_all vs v ≡ vs ++ values_of v
append-push_all vs none = sym (append-nil vs)
append-push_all vs (some v) = refl

Perm-push_all :
    (vs ds : List Value) (v : Option Value) → Perm (push_all vs v ++ ds) ((vs ++ ds) ++ values_of v)
Perm-push_all vs ds none = rw append-nil Perm.rfl
Perm-push_all vs ds (some v) =
    rw (append_assoc vs (v ∷ []) ds, append_assoc vs ds (v ∷ []))
      (Perm.append_left vs (perm_append_comm (v ∷ []) ds))

-- The round of an item that is not deferred, before `end_batch`.
abbrev round : List String → Projection → Option String → Option Value → Option String → Projection
round ids s call value out = close_call (project (open_call ids s call) value) out

HasStart-round :
    (ids : List String) (s : Projection) (call : Option String) (value : Option Value)
    (out : Option String)
    → HasStart s
    → HasStart (round ids s call value out)
HasStart-round ids s none value none h = h
HasStart-round ids s none value (some o) h = ground arith
HasStart-round ids s (some c) value none h = ground arith
HasStart-round ids s (some c) value (some o) h = ground arith

content-round :
    (ids : List String) (s : Projection) (call : Option String) (value : Option Value)
    (out : Option String)
    → content (round ids s call value out) ≡ push_all s.projected value ++ s.deferred
content-round ids s none value none = refl
content-round ids s none value (some o) = refl
content-round ids s (some c) value none = ground arith
content-round ids s (some c) value (some o) = ground arith

-- One item adds its value.
Perm-step :
    (to_string : Value → String) (ids : List String) (s : Projection) (item : InputItem)
    → HasStart s
    → Perm
        (content (step to_string ids s item))
        (content s ++ values_of (to_grok_value to_string item))
unfolding step end_batch
Perm-step to_string ids s item h =
    let value = to_grok_value to_string item in
    let out = output_of item in
    elim (Bool-cases (is_assistant_message item && not (is_empty s.open_call_ids))) [
      | inl e ↦ simp (e, append-push_all, append_assoc) Perm.rfl
      | inr e ↦ simp e (
          Perm.trans
            (Perm-end_batch (round ids s (call_of item) value out)
              (HasStart-round ids s (call_of item) value out h))
            (rw (content-round ids s (call_of item) value out)
              (Perm-push_all s.projected s.deferred value)))
    ]

HasStart-step :
    (to_string : Value → String) (ids : List String) (s : Projection) (item : InputItem)
    → HasStart s
    → HasStart (step to_string ids s item)
unfolding step end_batch
HasStart-step to_string ids s item h = ground arith

values_of-append :
    (v : Option Value) (vs : List Value) → values_of v ++ vs ≡ Option-elim v vs (λ w. w ∷ vs)
unfolding Option-elim
values_of-append none vs = refl
values_of-append (some v) vs = refl

module _ (to_string : Value → String) where
  Perm-project_from :
      (ids : List String) (s : Projection) (items : List InputItem)
      → HasStart s
      → HasStart (project_from to_string ids s items)
        × Perm
            (content (project_from to_string ids s items))
            (content s ++ filter_map (to_grok_value to_string) items)
  unfolding project_from filter_map
  Perm-project_from ids s [] h = (h, rw append-nil Perm.rfl)
  Perm-project_from ids s (item ∷ items) h =
      let later =
        Perm-project_from ids (step to_string ids s item) items
          (HasStart-step to_string ids s item h) in
      (
        later.0,
        Perm.trans later.1 (
            Perm.trans
              (Perm.append_right (filter_map (to_grok_value to_string) items)
                (Perm-step to_string ids s item h))
              (rw
                (
                  append_assoc (content s) (values_of (to_grok_value to_string item))
                      (filter_map (to_grok_value to_string) items),
                  values_of-append (to_grok_value to_string item)
                      (filter_map (to_grok_value to_string) items),
                )
                Perm.rfl)),
      )

  -- The values that are sent are those of the items, each as often as it occurs: moving the messages
  -- loses and repeats none.
  pub Perm-project_input_for_xai :
      (items : List InputItem)
      → Perm (project_input_for_xai to_string items) (filter_map (to_grok_value to_string) items)
  unfolding project_input_for_xai
  Perm-project_input_for_xai items =
      let all = Perm-project_from (completed_ids items) initial items (inr (refl, refl)) in
      let s = project_from to_string (completed_ids items) initial items in
      Perm.trans
        (IsMoved-move_batch s.open_call_ids s.open_batch_start s.open_batch_start s.deferred
          s.projected (ground arith)).1
        all.1
