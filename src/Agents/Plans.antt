-- ===== src/Agents/Plans.antt =====
-- What a plan of a run rests on: src/oncall/agents/openai_loop.py.
use oncall.Agents.Reads.{call_tools-IsBounded}
use oncall.Models.{Rollback}
use oncall.Graph.Contracts.{ActionPlanDraft}
use oncall.Agents.Output.{
  LoopResult, IncidentIntelligenceResult, SelectedSkill, ToolCall, is_empty,
  run_incident_agent_loop, usable_evidence, call_tools, conclude_run, concluded, failed_run,
  is_complete, new_context, scope_error, validate_plan_scope,
}
use oncall.Agents.Loop.{IncidentGraphState, IncidentAgentContext}
use oncall.Prelude.{
  ℕ, String, List, Option, Outcome, arith, false, is_some, ok, raised, refl, some, true, ◌≡◌, ◌≢◌,
  ◌≤◌, Bool-cases, Outcome-cases, eq_iff, inl, inr, none, Option-cases, ok-injective, subst, sym,
  ◌∙◌,
}

-- What the graph may take a plan for
pub record IsGrounded (state : IncidentGraphState) (result : LoopResult) : Type 0 where
  pub diagnosed : is_some result.diagnosis ≡ true
  pub evidenced : usable_evidence result.evidence ≡ true
  pub cited : is_empty result.knowledge_citations ≡ false
  pub plan : ActionPlanDraft
  pub is_plan : result.action_plan ≡ some plan
  pub same_project : plan.rollback.project_id ≡ state.project_id
  pub same_environment : plan.rollback.environment ≡ state.environment
  pub same_service : plan.rollback.service ≡ state.service
  pub other_version : plan.rollback.current_version ≢ plan.rollback.target_version

-- The counters of the result stay within the bounds of the graph's state
pub record IsCounted (result : LoopResult) : Type 0 where
  pub rounds : result.investigation_rounds ≤ 4
  pub model_calls : result.model_call_count ≤ 64
  pub no_progress : result.no_progress_rounds ≤ 2

validate_plan_scope-returns :
    (output : IncidentIntelligenceResult) (c : IncidentAgentContext)
    → is_complete output ≡ true
    → (reason : Option String) × (validate_plan_scope output c ≡ ok reason)
unfolding validate_plan_scope
validate_plan_scope-returns output c complete =
    elim (Outcome-cases (validate_plan_scope output c)) [
      | inl r ↦ r
      | inr (x, e) ↦ absurd (ground arith)
    ]

failed_run-IsCounted :
    (state : IncidentGraphState) (c : IncidentAgentContext) (e : String)
    → state.model_call_count ≤ 64
    → IsCounted (failed_run state c e)
failed_run-IsCounted state c e h = record {
  rounds = ground arith;
  model_calls = h;
  no_progress = ground arith;
}

concluded-IsCounted :
    (state : IncidentGraphState) (c : IncidentAgentContext) (output : IncidentIntelligenceResult)
    (requests : ℕ) (reason : Option String)
    → IsCounted (concluded state c output requests reason)
concluded-IsCounted state c output requests reason = record {
  rounds = ground arith;
  model_calls = ground arith;
  no_progress = ground arith;
}

conclude_run-Returns :
    (state : IncidentGraphState) (c : IncidentAgentContext)
    (output : Outcome String (IncidentIntelligenceResult × ℕ))
    → state.model_call_count ≤ 64
    → (result : LoopResult) × (conclude_run state c output ≡ ok result) × IsCounted result
unfolding conclude_run
conclude_run-Returns state c (raised e) h = (_, refl, failed_run-IsCounted state c e h)
conclude_run-Returns state c (ok (output, requests)) h = elim (Bool-cases (is_complete output)) [
  | inr e ↦ rw (conclude_run, e) (_, refl, failed_run-IsCounted state c "ValidationError" h)
  | inl e ↦
      (let r = validate_plan_scope-returns output c e in
        rw (conclude_run, e, r.1) (_, refl, concluded-IsCounted state c output requests r.0))
]

-- A run in live mode returns, whatever the agents did and put out: no assertion fails, and the
-- counters of the result are within the bounds of the graph's state, if the number of model
-- calls was before.
pub run_incident_agent_loop-Returns :
    (state : IncidentGraphState) (skill : Option SelectedSkill) (max_tool_calls : ℕ)
    (calls : List ToolCall) (output : Outcome String (IncidentIntelligenceResult × ℕ))
    → state.model_call_count ≤ 64
    → (result : LoopResult) × (run_incident_agent_loop state skill max_tool_calls calls output
        ≡ ok result)
      × IsCounted result
unfolding run_incident_agent_loop
run_incident_agent_loop-Returns state skill max_tool_calls calls output h =
    conclude_run-Returns state (call_tools calls (new_context state skill max_tool_calls)).1 output
      h

-- The state of the incident in the context of a conclusion is the one that the run started with.
scope_error-none :
    (rollback : Rollback) (state : IncidentGraphState)
    → scope_error rollback state ≡ none
    → (rollback.project_id ≡ state.project_id)
      × (rollback.environment ≡ state.environment)
      × (rollback.service ≡ state.service)
      × (rollback.current_version ≢ rollback.target_version)
scope_error-none rollback state h = ground (
  arith,
  eq_iff rollback.project_id state.project_id,
  eq_iff rollback.environment state.environment,
  eq_iff rollback.service state.service,
  eq_iff rollback.current_version rollback.target_version,
)

validate_plan_scope-none :
    (output : IncidentIntelligenceResult) (c : IncidentAgentContext)
    → validate_plan_scope output c ≡ ok none
    → (plan : ActionPlanDraft) × (output.action_plan ≡ some plan)
      × (output.plan_ready ≡ true)
      × (usable_evidence c.evidence ≡ true)
      × (is_empty c.citations ≡ false)
      × (scope_error plan.rollback c.state ≡ none)
unfolding validate_plan_scope
validate_plan_scope-none output c h = elim (Option-cases output.action_plan) [
  | inl e ↦ absurd (ground arith)
  | inr (plan, e) ↦ (plan, e, ground arith, ground arith, ground arith, ground arith)
]

concluded-IsGrounded :
    (c : IncidentAgentContext) (output : IncidentIntelligenceResult) (requests : ℕ)
    → is_complete output ≡ true
    → validate_plan_scope output c ≡ ok none
    → IsGrounded c.state (concluded c.state c output requests none)
concluded-IsGrounded c output requests complete valid =
    (let v = validate_plan_scope-none output c valid in
      let s = scope_error-none v.0.rollback c.state v.5 in
      record {
        diagnosed = ground (arith, v.2);
        evidenced = v.3;
        cited = v.4;
        plan = v.0;
        is_plan = v.1;
        same_project = s.0;
        same_environment = s.1;
        same_service = s.2;
        other_version = s.3;
      })

conclude_run-IsGrounded :
    (c : IncidentAgentContext) (output : Outcome String (IncidentIntelligenceResult × ℕ))
    (result : LoopResult)
    → conclude_run c.state c output ≡ ok result
    → result.planned ≡ true
    → IsGrounded c.state result
unfolding conclude_run
conclude_run-IsGrounded c (raised e) result h planned = absurd (ground arith)
conclude_run-IsGrounded c (ok (output, requests)) result h planned =
    elim (Bool-cases (is_complete output)) [
      | inr e ↦ absurd (ground arith)
      | inl e ↦ elim (Outcome-cases (validate_plan_scope output c)) [
        | inr (x, f) ↦ absurd (ground arith)
        | inl (some reason, f) ↦ absurd (ground arith)
        | inl (none, f) ↦
            subst (IsGrounded c.state) (ok-injective (rw (conclude_run, e, f) at h))
              (concluded-IsGrounded c output requests e f)
      ]
    ]

new_context-state :
    (state : IncidentGraphState) (skill : Option SelectedSkill) (max_tool_calls : ℕ)
    → ((new_context state skill max_tool_calls).state ≡ state)
      × ((new_context state skill max_tool_calls).tool_call_count
          ≤ (new_context state skill max_tool_calls).max_tool_calls)
unfolding new_context
new_context-state state none max_tool_calls = (refl, omega arith)
new_context-state state (some skill) max_tool_calls = (refl, omega arith)

-- A run in live mode that ends with a plan has a diagnosis, evidence with the data of a read, and a
-- citation; the plan rolls back the incident's own project, environment and service, to a
-- version other than the current one. It holds whatever the agents called and put out.
pub run_incident_agent_loop-IsGrounded :
    (state : IncidentGraphState) (skill : Option SelectedSkill) (max_tool_calls : ℕ)
    (calls : List ToolCall) (output : Outcome String (IncidentIntelligenceResult × ℕ))
    (result : LoopResult)
    → run_incident_agent_loop state skill max_tool_calls calls output ≡ ok result
    → result.planned ≡ true
    → IsGrounded state result
unfolding run_incident_agent_loop
run_incident_agent_loop-IsGrounded state skill max_tool_calls calls output result h planned =
    (let start = new_context-state state skill max_tool_calls in
      let c = (call_tools calls (new_context state skill max_tool_calls)).1 in
      let same =
        (call_tools-IsBounded calls (new_context state skill max_tool_calls) start.1).same_state
        ∙ start.0 in
      subst (λ s. IsGrounded s result) same
        (conclude_run-IsGrounded c output result
          (subst (λ s. conclude_run s c output ≡ ok result) (sym same) h) planned))
