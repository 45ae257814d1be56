-- ===== src/Tests/Runs.antt =====
-- The theorems on the agents' run and the gateway at concrete inputs.
use oncall.Gateway.Bounds.{IsShrunk, bounded_result-Fits, item_count}
use oncall.Json.{get, field, Fields, end, list, nil, text, Items, cons, num}
use oncall.Agents.Loop.{IncidentGraphState, Hit, IncidentAgentContext, GatewayReply, read}
use oncall.Agents.Plans.{IsGrounded, run_incident_agent_loop-IsGrounded}
use oncall.Graph.Contracts.{ActionPlanDraft}
use oncall.Agents.Reads.{IsBounded, call_tools-IsBounded}
use oncall.Gateway.Size.{bounded_result}
use oncall.Prelude.{
  ℕ, String, List, [], Option, arith, false, length, none, ok, refl, some, true, ◌∷◌, ◌≡◌, ◌≤◌, ◌⊎◌,
}
use oncall.Tests.Data.{rollback}
use oncall.Agents.Output.{
  read_tool, IncidentIntelligenceResult, LoopResult, ToolCall, call_tools, concluded, new_context,
  run_incident_agent_loop, search_tool,
}

abbrev state : IncidentGraphState
state = record {
  incident_id = "1";
  graph_run_id = none;
  project_id = "shop";
  environment = "prod";
  service = "cart";
  evidence = [];
  knowledge_citations = [];
  investigation_rounds = 0;
  model_call_count = 3;
  no_progress_rounds = 0;
}

abbrev gateway : String → Fields → GatewayReply
gateway name arguments = read "call-1" false (field "entries" (list nil) end)

abbrev found : String → Option (List Hit)
found query = some (
    record {
      document_id = "sop";
      version = none;
      section_path = "Rollback";
      source_path = "sop.md";
      content = "Roll back";
      score = 1;
    }
    ∷ [])

-- A read that tries another project, a tool that is not allowed, a search, and a call too many.
abbrev calls : List ToolCall
calls =
    read_tool "query_service_logs" (field "project_id" (text "bank") end) gateway
    ∷ read_tool "restart" end gateway
    ∷ search_tool "rollback" found
    ∷ search_tool "again" found
    ∷ []

abbrev context : IncidentAgentContext
context = new_context state none 2

call_tools-IsBounded_example :
    IsBounded context (call_tools calls context).0 (call_tools calls context).1
unfolding new_context
call_tools-IsBounded_example = call_tools-IsBounded calls context (omega arith)

-- Two of the four calls were sent.
two_sent : length (call_tools calls context).0 ≡ 2
unfolding call_tools new_context
two_sent = refl

abbrev draft : ActionPlanDraft
draft = record {
  summary = "roll back";
  risk_level = "low";
  prerequisites = [];
  rollback = rollback;
  verification_criteria = "no errors" ∷ [];
  plan_hash = none;
}

abbrev output : IncidentIntelligenceResult
output = record {
  plan_ready = true;
  diagnosis = some (record { root_cause = "release"; confidence = 70; summary = "release" });
  action_plan = some draft;
  reason = "";
}

abbrev result : LoopResult
result = concluded state (call_tools calls context).1 output 100 none

planned_now : run_incident_agent_loop state none 2 calls (ok (output, 100)) ≡ ok result
unfolding run_incident_agent_loop get
planned_now = refl

run_incident_agent_loop-IsGrounded_example : IsGrounded state result
run_incident_agent_loop-IsGrounded_example =
    run_incident_agent_loop-IsGrounded state none 2 calls (ok (output, 100)) result planned_now refl

-- A size that counts the items of the first list.
abbrev json_size : Fields → ℕ
json_size (field key (list items) rest) = item_count items
json_size _ = 0

abbrev model_validate : Fields → Option Fields
model_validate d = some d

abbrev entries : Items → Fields
entries items = field "entries" (list items) end

abbrev three : Items
three = cons (num 1) (cons (num 2) (cons (num 3) nil))

abbrev four : Items
four = cons (num 1) (cons (num 2) (cons (num 3) (cons (num 4) nil)))

bounded_result-Fits_example :
    (json_size (entries three) ≤ 3)
    × (((true ≡ false) × (entries three ≡ entries four))
        ⊎ ((true ≡ true) × IsShrunk json_size model_validate (entries four) (entries three)))
unfolding bounded_result
bounded_result-Fits_example =
    bounded_result-Fits json_size model_validate (entries four) 3 (entries three) true refl
