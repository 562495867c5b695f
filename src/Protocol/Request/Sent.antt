-- ===== src/Protocol/Request/Sent.antt =====
-- The request that src/protocol.rs sends to Grok.
use grok_codex_bridge.Base.{
  sym, ◌∙◌, Bool-cases, inl, inr, if◌then◌else◌, ◌≡◌, refl, false, Option, none, some, arith, ◌==◌,
  String,
}
use grok_codex_bridge.Json.{
  null, bool, number, array, object, Values, nil, cons, Value, string, Map, get, insert,
}
use grok_codex_bridge.Protocol.Request.{
  NormalizedResponsesRequest, has_tools, to_xai_object, insert_optional, insert_instructions,
  insert_tools,
}
use grok_codex_bridge.Protocol.Tools.Choice.{project_tools_for_xai, ToolChoice, choice_value}
use grok_codex_bridge.Json.Laws.{get-insert}
use grok_codex_bridge.Protocol.Fields.{OptionalJson, absent, present}

abbrev chosen : OptionalJson → Option Value → Option Value
chosen absent o = o
chosen (present v) o = some v

get-insert_optional :
    (m : Map) (k : String) (f : OptionalJson) (j : String)
    → get (insert_optional m k f) j ≡ (if k == j then chosen f (get m j) else get m j)
get-insert_optional m k absent j = ground arith
get-insert_optional m k (present v) j = rw (get-insert m k v j) refl

get-insert_instructions :
    (m : Map) (f : Option String) (j : String)
    → ("instructions" == j) ≡ false
    → get (insert_instructions m f) j ≡ get m j
get-insert_instructions m none j h = refl
get-insert_instructions m (some s) j h = rw (get-insert m "instructions" (string s) j, h) refl

abbrev choice_of : Option Value → ToolChoice → Option Value → Option Value
choice_of none choice o = o
choice_of (some tools) choice o = if has_tools tools then some (choice_value choice) else o

get-insert_tools :
    (m : Map) (f : Option Value) (choice : ToolChoice) (j : String)
    → ("tools" == j) ≡ false
    → get (insert_tools m f choice) j
      ≡ (if "tool_choice" == j then choice_of f choice (get m j) else get m j)
get-insert_tools m none choice j h = ground arith
get-insert_tools m (some tools) choice j h =
    let added = get-insert m "tools" tools j in
    let chosen_too = get-insert (insert m "tools" tools) "tool_choice" (choice_value choice) j in
    elim (Bool-cases (has_tools tools)) [
      | inl e ↦ simp e (rw (chosen_too, added, h) refl)
      | inr e ↦ simp e (rw (added, h) (ground arith))
    ]

tools-insert_tools :
    (m : Map) (f : Option Value) (choice : ToolChoice)
    → get m "tools" ≡ none
    → get (insert_tools m f choice) "tools" ≡ f
tools-insert_tools m none choice h = h
tools-insert_tools m (some tools) choice h =
    let added = get-insert m "tools" tools "tools" in
    let chosen_too =
      get-insert (insert m "tools" tools) "tool_choice" (choice_value choice) "tools" in
    elim (Bool-cases (has_tools tools)) [
      | inl e ↦ simp e (rw (chosen_too, added) refl)
      | inr e ↦ simp e (rw added refl)
    ]

ruleset sent_fields = (get-insert, get-insert_optional, get-insert_tools, get-insert_instructions)

ruleset sent_tools = (get-insert, get-insert_optional, get-insert_instructions, tools-insert_tools)

-- The field "tools" is a list that is not empty.
abbrev pub SendsTools : Map → Type 0
SendsTools m = (v : Value) × (vs : Values) × (get m "tools" ≡ some (array (cons v vs)))

choice_of-sent :
    (f : Option Value) (choice : ToolChoice)
    → ((v : Value) × (vs : Values) × (f ≡ some (array (cons v vs))))
    → choice_of f choice none ≡ some (choice_value choice)
choice_of-sent f choice (v, vs, h) = rw h refl

choice_of-unsent :
    (f : Option Value) (choice : ToolChoice)
    → ¬ ((v : Value) × (vs : Values) × (f ≡ some (array (cons v vs))))
    → choice_of f choice none ≡ none
choice_of-unsent none choice h = refl
choice_of-unsent (some (array (cons v vs))) choice h = absurd (h (v, vs, refl))
choice_of-unsent (some (array nil)) choice h = refl
choice_of-unsent (some null) choice h = refl
choice_of-unsent (some (bool b)) choice h = refl
choice_of-unsent (some (number n)) choice h = refl
choice_of-unsent (some (string s)) choice h = refl
choice_of-unsent (some (object m)) choice h = refl

module _ (to_string : Value → String) (r : NormalizedResponsesRequest) where
  abbrev sent : Map
  sent = to_xai_object to_string r

  tools-to_xai_object : get sent "tools" ≡ project_tools_for_xai r.tools
  unfolding to_xai_object get
  tools-to_xai_object = simp sent_tools refl

  tool_choice-to_xai_object :
      get sent "tool_choice" ≡ choice_of (project_tools_for_xai r.tools) r.tool_choice none
  unfolding to_xai_object get
  tool_choice-to_xai_object = simp sent_fields refl

  -- The field "tools" that is sent is the projection of the tools. If it is a list that is not empty,
  -- the choice of a tool is sent beside it, and otherwise no choice is sent. Three fields of Codex are
  -- not sent.
  pub to_xai_object_lem :
      (get (to_xai_object to_string r) "tools" ≡ project_tools_for_xai r.tools)
      × (SendsTools (to_xai_object to_string r)
          → get (to_xai_object to_string r) "tool_choice" ≡ some (choice_value r.tool_choice))
      × (¬ SendsTools (to_xai_object to_string r)
          → get (to_xai_object to_string r) "tool_choice" ≡ none)
      × (get (to_xai_object to_string r) "client_metadata" ≡ none)
      × (get (to_xai_object to_string r) "previous_response_id" ≡ none)
      × (get (to_xai_object to_string r) "prompt_cache_retention" ≡ none)
  unfolding to_xai_object get
  to_xai_object_lem = (
    simp sent_tools refl,
    λ (v, vs, h).
        tool_choice-to_xai_object
        ∙ choice_of-sent _ r.tool_choice (v, vs, sym tools-to_xai_object ∙ h),
    λ h.
        tool_choice-to_xai_object
        ∙ choice_of-unsent _ r.tool_choice (λ (v, vs, e). h (v, vs, tools-to_xai_object ∙ e)),
    simp sent_fields refl,
    simp sent_fields refl,
    simp sent_fields refl,
  )
