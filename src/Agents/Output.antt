-- ===== src/Agents/Output.antt =====
-- What the graph gets from a run of the agents: `_validate_plan_scope` and
-- `run_incident_agent_loop` in live mode, src/oncall/agents/openai_loop.py.
use oncall.Graph.Contracts.{ActionPlanDraft}
use oncall.Models.{Rollback}
use oncall.Agents.Loop.{
  IncidentAgentContext, Sent, read_mcp, EvidenceItem, IncidentGraphState, GatewayReply, Hit,
  KnowledgeCitationDraft, search_approved_knowledge,
}
use oncall.Json.{Fields, get, as_dict, end, field, text}
use oncall.Agents.Supervisor.{DiagnosisDraft}
use oncall.Prelude.{
  ℕ, String, List, [], Bool, Option, Outcome, any, false, if◌then◌else◌, implies, is_some, join,
  leb, nat_eq, none, not, ok, raised, some, string_eq, suc, true, ◌&&◌, ◌++◌, ◌+◌, ◌==◌, ◌∷◌,
}

pub record IncidentIntelligenceResult : Type 0 where
  pub plan_ready : Bool
  pub diagnosis : Option DiagnosisDraft
  pub action_plan : Option ActionPlanDraft
  pub reason : String

-- `require_complete_plan`
abbrev pub is_complete : IncidentIntelligenceResult → Bool
is_complete r = implies r.plan_ready (is_some r.diagnosis && is_some r.action_plan)

-- `isinstance(item.payload.get("data"), dict)` for one of the items
unfoldable pub usable_evidence : List EvidenceItem → Bool
unfolding get
usable_evidence = any (λ item. is_some (as_dict (get "data" item.payload)))

-- An assertion of the source that fails.
pub data AssertionError : Type 0 where
  no_action_plan : AssertionError

abbrev or_reason : String → String
or_reason String.[] = "The intelligence loop requested human review."
or_reason (String.◌∷◌ c s) = String.◌∷◌ c s

-- The checks of the plan's rollback against the incident.
abbrev pub scope_error : Rollback → IncidentGraphState → Option String
scope_error rollback state =
    if not (
      rollback.project_id == state.project_id
      && (rollback.environment == state.environment && rollback.service == state.service))
    then some "The proposed rollback changed the incident scope."
    else if rollback.current_version == rollback.target_version
    then some "The proposed rollback target equals the current release."
    else none

abbrev pub is_empty {ℓ} : {A : Type ℓ} → List A → Bool
is_empty [] = true
is_empty (x ∷ xs) = false

-- `_validate_plan_scope`: the reason against the plan
unfoldable pub validate_plan_scope :
    IncidentIntelligenceResult → IncidentAgentContext → Outcome AssertionError (Option String)
unfolding usable_evidence
validate_plan_scope r c =
    if not r.plan_ready
    then ok (some (or_reason r.reason))
    else if not (usable_evidence c.evidence)
    then ok (some "The intelligence loop produced no validated MCP evidence.")
    else if is_empty c.citations
    then ok (some "The intelligence loop produced no approved knowledge citation.")
    else elim r.action_plan [
      | none ↦ raised no_action_plan
      | some plan ↦ ok (scope_error plan.rollback c.state)
    ]

pub record SelectedSkill : Type 0 where
  pub name : String
  pub version : String
  pub source_path : String
  pub allowed_tools : List String

-- A call of a tool by an agent, with the answer of the gateway or of the search.
pub data ToolCall : Type 0 where
  read_tool : String → Fields → (String → Fields → GatewayReply) → ToolCall
  search_tool : String → (String → Option (List Hit)) → ToolCall

abbrev and_sent {ℓ} :
    {A : Type ℓ} → A × List Sent × IncidentAgentContext → List Sent × IncidentAgentContext
and_sent (answer, sent, c) = (sent, c)

unfoldable pub call_tool : ToolCall → IncidentAgentContext → List Sent × IncidentAgentContext
unfolding read_mcp search_approved_knowledge
call_tool (read_tool name arguments call_read_tool) c =
    and_sent (read_mcp call_read_tool name arguments c)
call_tool (search_tool query search_knowledge) c =
    and_sent (search_approved_knowledge search_knowledge query c)

abbrev pub before : List Sent → List Sent × IncidentAgentContext → List Sent × IncidentAgentContext
before sent (later, c) = (sent ++ later, c)

-- The calls of a run, in their order: what was sent, and the context after them.
unfoldable pub call_tools : List ToolCall → IncidentAgentContext → List Sent × IncidentAgentContext
unfolding call_tool
call_tools [] c = ([], c)
call_tools (call ∷ calls) c = before (call_tool call c).0 (call_tools calls (call_tool call c).1)

abbrev skill_evidence : SelectedSkill → EvidenceItem
skill_evidence s = record {
  source_type = "skill";
  source_ref = join "@" (s.name ∷ (s.version ∷ []));
  observation = "Selected a validated read-only investigation Skill.";
  payload =
      field "skill_name" (text s.name)
        (field "version" (text s.version) (field "source_path" (text s.source_path) end));
}

-- `TOOL_REGISTRY`
abbrev pub tool_registry : List String
tool_registry = "query_service_logs" ∷ []

-- The context that a run starts with.
unfoldable pub new_context : IncidentGraphState → Option SelectedSkill → ℕ → IncidentAgentContext
new_context state none max_tool_calls = record {
  state = state;
  allowed_read_tools = tool_registry;
  max_tool_calls = max_tool_calls;
  evidence = state.evidence;
  citations = state.knowledge_citations;
  tool_call_count = 0;
}
new_context state (some skill) max_tool_calls = record {
  state = state;
  allowed_read_tools = skill.allowed_tools;
  max_tool_calls = max_tool_calls;
  evidence = state.evidence ++ (skill_evidence skill ∷ []);
  citations = state.knowledge_citations;
  tool_call_count = 0;
}

-- The part of the graph's state that the loop returns.
pub record LoopResult : Type 0 where
  pub planned : Bool
  pub evidence : List EvidenceItem
  pub knowledge_citations : List KnowledgeCitationDraft
  pub diagnosis : Option DiagnosisDraft
  pub action_plan : Option ActionPlanDraft
  pub investigation_rounds : ℕ
  pub model_call_count : ℕ
  pub no_progress_rounds : ℕ
  pub need_human_reason : Option String

abbrev pub min : ℕ → ℕ → ℕ
min a b = if leb a b then a else b

-- After an exception of the run, or an output that does not validate.
abbrev pub failed_run : IncidentGraphState → IncidentAgentContext → String → LoopResult
failed_run state c error_name = record {
  planned = false;
  evidence = c.evidence;
  knowledge_citations = c.citations;
  diagnosis = none;
  action_plan = none;
  investigation_rounds = min 4 (suc state.investigation_rounds);
  model_call_count = state.model_call_count;
  no_progress_rounds = min 2 (suc state.no_progress_rounds);
  need_human_reason =
      some (join "" ("The OpenAI Agents SDK loop failed safely: " ∷ (error_name ∷ [])));
}

-- The result of an output that validates: a plan, or the reason against it.
abbrev pub concluded :
    IncidentGraphState
    → IncidentAgentContext
    → IncidentIntelligenceResult
    → ℕ
    → Option String
    → LoopResult
concluded state c output requests invalid_reason = record {
  planned = not (is_some invalid_reason);
  evidence = c.evidence;
  knowledge_citations = c.citations;
  diagnosis = if is_some invalid_reason then none else output.diagnosis;
  action_plan = if is_some invalid_reason then none else output.action_plan;
  investigation_rounds = min 4 (suc state.investigation_rounds);
  model_call_count = min 64 (state.model_call_count + requests);
  no_progress_rounds = if usable_evidence c.evidence then 0 else 1;
  need_human_reason = invalid_reason;
}

-- What is made of the run's output, in the context after its calls.
unfoldable pub conclude_run :
    IncidentGraphState
    → IncidentAgentContext
    → Outcome String (IncidentIntelligenceResult × ℕ)
    → Outcome AssertionError LoopResult
unfolding validate_plan_scope
conclude_run state c (raised error_name) = ok (failed_run state c error_name)
conclude_run state c (ok (output, requests)) =
    if not (is_complete output)
    then ok (failed_run state c "ValidationError")
    else elim (validate_plan_scope output c) [
      | raised e ↦ raised e
      | ok invalid_reason ↦ ok (concluded state c output requests invalid_reason)
    ]

-- `run_incident_agent_loop` in live mode: the calls of the run, and its output with the number of
-- model requests, or the name of an exception.
unfoldable pub run_incident_agent_loop :
    IncidentGraphState
    → Option SelectedSkill
    → ℕ
    → List ToolCall
    → Outcome String (IncidentIntelligenceResult × ℕ)
    → Outcome AssertionError LoopResult
unfolding new_context call_tools conclude_run
run_incident_agent_loop state skill max_tool_calls calls output =
    conclude_run state (call_tools calls (new_context state skill max_tool_calls)).1 output
