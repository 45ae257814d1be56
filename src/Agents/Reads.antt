-- ===== src/Agents/Reads.antt =====
-- What the tools of a run may do: src/oncall/agents/openai_loop.py.
use oncall.Json.{Fields, get, get-set_field, text}
use oncall.Agents.Output.{call_tool, ToolCall, read_tool, search_tool, call_tools}
use oncall.Agents.Loop.{
  scoped, IncidentAgentContext, IncidentGraphState, Sent, is_named, to_gateway, to_knowledge,
  GatewayReply, Hit, read_mcp, search_approved_knowledge,
}
use oncall.Prelude.{
  String, List, [], All, length, refl, some, true, ◌+◌, ◌≡◌, ◌≤◌, ◌⊎◌, Bool-cases, Option,
  Option-cases, arith, inl, inr, leb, take_chars, subst, ◌++◌, ◌∙◌, ◌∷◌,
}

-- A request of an allowed tool in the incident's scope
abbrev pub IsInScope : List String → IncidentGraphState → Sent → Type 0
IsInScope allowed state (to_gateway name arguments) =
    (is_named name allowed ≡ true)
    × (get "project_id" arguments ≡ some (text state.project_id))
    × (get "environment" arguments ≡ some (text state.environment))
    × (get "service" arguments ≡ some (text state.service))
IsInScope allowed state (to_knowledge project_id environment service query) =
    (project_id ≡ state.project_id) × (environment ≡ state.environment) × (service ≡ state.service)

-- What a call of a tool may do to the context
record IsCall (c : IncidentAgentContext) (sent : List Sent) (c' : IncidentAgentContext)
    : Type 0 where
  same_state : c'.state ≡ c.state
  same_tools : c'.allowed_read_tools ≡ c.allowed_read_tools
  same_budget : c'.max_tool_calls ≡ c.max_tool_calls
  counted : length sent + c.tool_call_count ≡ c'.tool_call_count
  within : (c'.tool_call_count ≤ c.max_tool_calls) ⊎ (c'.tool_call_count ≡ c.tool_call_count)
  in_scope : All (IsInScope c.allowed_read_tools c.state) sent

get-scoped :
    (s : IncidentGraphState) (arguments : Fields)
    → (get "project_id" (scoped s arguments) ≡ some (text s.project_id))
      × (get "environment" (scoped s arguments) ≡ some (text s.environment))
      × (get "service" (scoped s arguments) ≡ some (text s.service))
unfolding scoped
get-scoped s arguments = (
  rw (get-set_field, get-set_field, get-set_field) refl,
  rw (get-set_field, get-set_field) refl,
  rw (get-set_field) refl,
)

unsent-IsCall : (c : IncidentAgentContext) → IsCall c [] c
unsent-IsCall c = record {
  same_state = refl;
  same_tools = refl;
  same_budget = refl;
  counted = omega arith;
  within = inr refl;
  in_scope = tt;
}

read_mcp-IsCall :
    (gateway : String → Fields → GatewayReply) (name : String) (arguments : Fields)
    (c : IncidentAgentContext)
    → IsCall c (read_mcp gateway name arguments c).1 (read_mcp gateway name arguments c).2
unfolding read_mcp
read_mcp-IsCall gateway name arguments c = elim (Bool-cases (is_named name c.allowed_read_tools)) [
  | inr e ↦ rw (read_mcp, e) (unsent-IsCall c)
  | inl e ↦ elim (Bool-cases (leb c.max_tool_calls c.tool_call_count)) [
    | inl f ↦ rw (read_mcp, e, f) (unsent-IsCall c)
    | inr f ↦
        rw (read_mcp, e, f)
          (record {
            same_state = refl;
            same_tools = refl;
            same_budget = refl;
            counted = omega arith;
            within = inl (ground arith);
            in_scope = (
              (
                e,
                (get-scoped c.state arguments).0,
                (get-scoped c.state arguments).1,
                (get-scoped c.state arguments).2,
              ),
              tt,
            );
          })
  ]
]

search-IsCall :
    (search_knowledge : String → Option (List Hit)) (query : String) (c : IncidentAgentContext)
    → IsCall c
        (search_approved_knowledge search_knowledge query c).1
        (search_approved_knowledge search_knowledge query c).2
unfolding search_approved_knowledge
search-IsCall search_knowledge query c =
    elim (Bool-cases (leb c.max_tool_calls c.tool_call_count)) [
      | inl f ↦ rw (search_approved_knowledge, f) (unsent-IsCall c)
      | inr f ↦ elim (Option-cases (search_knowledge (take_chars 4000 query))) [
        | inl g ↦
            rw (search_approved_knowledge, f, g)
              (record {
                same_state = refl;
                same_tools = refl;
                same_budget = refl;
                counted = omega arith;
                within = inl (ground arith);
                in_scope = ((refl, refl, refl), tt);
              })
        | inr (hits, g) ↦
            rw (search_approved_knowledge, f, g)
              (record {
                same_state = refl;
                same_tools = refl;
                same_budget = refl;
                counted = omega arith;
                within = inl (ground arith);
                in_scope = ((refl, refl, refl), tt);
              })
      ]
    ]

call_tool-IsCall :
    (call : ToolCall) (c : IncidentAgentContext)
    → IsCall c (call_tool call c).0 (call_tool call c).1
unfolding call_tool
call_tool-IsCall (read_tool name arguments gateway) c = read_mcp-IsCall gateway name arguments c
call_tool-IsCall (search_tool query search_knowledge) c = search-IsCall search_knowledge query c

All-append : (P : Sent → Type 0) (xs ys : List Sent) → All P xs → All P ys → All P (xs ++ ys)
All-append P [] ys h h' = h'
All-append P (x ∷ xs) ys h h' = (h.0, All-append P xs ys h.1 h')

length-append : (xs ys : List Sent) → length (xs ++ ys) ≡ length xs + length ys
length-append [] ys = omega arith
length-append (x ∷ xs) ys = omega (arith, length-append xs ys)

-- What a sequence of calls may do, from a context within its budget
pub record IsBounded (c : IncidentAgentContext) (sent : List Sent) (c' : IncidentAgentContext)
    : Type 0 where
  pub counted : length sent + c.tool_call_count ≡ c'.tool_call_count
  pub within : c'.tool_call_count ≤ c.max_tool_calls
  pub same_state : c'.state ≡ c.state
  pub in_scope : All (IsInScope c.allowed_read_tools c.state) sent

-- Whatever tools the agents call, and whatever the gateway and the search answer: every request that
-- is sent is counted, the count stays within the budget, every request to the gateway is for an
-- allowed tool, and every request has the project, the environment and the service of the incident.
pub call_tools-IsBounded :
    (calls : List ToolCall) (c : IncidentAgentContext)
    → c.tool_call_count ≤ c.max_tool_calls
    → IsBounded c (call_tools calls c).0 (call_tools calls c).1
unfolding call_tools
call_tools-IsBounded [] c h = record {
  counted = omega arith;
  within = h;
  same_state = refl;
  in_scope = tt;
}
call_tools-IsBounded (call ∷ calls) c h =
    let first = call_tool-IsCall call c in
    let sent = (call_tool call c).0 in
    let c1 = (call_tool call c).1 in
    let rest = call_tools-IsBounded calls c1 (ground (arith, first.within, first.same_budget)) in
    record {
      counted =
          omega (arith, length-append sent (call_tools calls c1).0, first.counted, rest.counted);
      within = omega (arith, rest.within, first.same_budget);
      same_state = rest.same_state ∙ first.same_state;
      in_scope =
          All-append (IsInScope c.allowed_read_tools c.state) sent (call_tools calls c1).0
            first.in_scope
            (subst (λ t. All (IsInScope t c.state) (call_tools calls c1).0) first.same_tools
              (subst (λ t. All (IsInScope c1.allowed_read_tools t) (call_tools calls c1).0)
                first.same_state rest.in_scope));
    }
