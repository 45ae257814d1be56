-- ===== src/Execution/Service.antt =====
-- The executor of an approved plan, its data and queries: src/oncall/execution/service.py.
-- `Execution.Begin` and `Execution.Finish` have its operations. A call is three parts: a
-- transaction that claims the execution, the request to the Recovery MCP, and a transaction that
-- records the reply. The MCP is outside: its reply is an argument, and so are the clock and the
-- `nonce`, `issued_at` and `approval_proof` of the request.
use oncall.Prelude.{
  ℕ, Bool, Option, String, false, find, latest_by, nat_eq, none, select, some, string_eq, true,
  update_first, ◌&&◌, ◌==◌, earliest_by,
}
use oncall.Json.{Fields, Value}
use oncall.Models.{
  Db, ActionPlan, Approval, CloudService, Decision, Execution, ExecutionStatus, IdempotencyKey,
  Incident, PlanStatus, Rollback,
}
use oncall.Incidents.State.{IncidentStatus, StateError, status_eq}
use oncall.Policy.{ValidationError}
use oncall.Graph.Contracts.{ActionPlanDraft}

-- The texts that `ExecutionResult.status` takes.
pub data ResultStatus : Type 0 where
  not_found not_approved denied : ResultStatus
  stored : ExecutionStatus → ResultStatus

pub record ExecutionResult : Type 0 where
  pub execution_id : Option ℕ
  pub status : ResultStatus
  pub response : Option Value
  pub error : Option String

pub data ExecutionError : Type 0 where
  plan_error : ValidationError → ExecutionError
  request_error : ExecutionError
  transition_error : StateError → ExecutionError

pub record RecoveryRequest : Type 0 where
  pub rollback : Rollback
  pub action_plan_hash : String
  pub approval_id : ℕ
  pub nonce : String
  pub issued_at : ℕ
  pub approval_proof : String

-- The claim that the first transaction commits.
pub record Claim : Type 0 where
  pub execution_id : ℕ
  pub key : IdempotencyKey
  pub plan : ActionPlan
  pub approval : Approval
  pub tool_name : String
  pub tencent_tat : Fields

pub data Begun : Type 0 where
  returned : ExecutionResult → Begun
  claimed : Claim → Begun

-- What `_call_recovery_mcp` returns or raises.
pub data Reply : Type 0 where
  succeeded : Value → Reply
  reported_failure : Value → Reply
  timed_out : Reply
  rejected : Reply

abbrev pub plan_status_beq : PlanStatus → PlanStatus → Bool
plan_status_beq PlanStatus.draft PlanStatus.draft = true
plan_status_beq PlanStatus.pending_approval PlanStatus.pending_approval = true
plan_status_beq PlanStatus.approved PlanStatus.approved = true
plan_status_beq PlanStatus.rejected PlanStatus.rejected = true
plan_status_beq PlanStatus.executed PlanStatus.executed = true
plan_status_beq _ _ = false

abbrev pub is_approved : Decision → Bool
is_approved Decision.approved = true
is_approved Decision.rejected = false

abbrev pub key_beq : IdempotencyKey → IdempotencyKey → Bool
key_beq a b =
    a.plan_id == b.plan_id && (a.plan_hash == b.plan_hash && a.approval_id == b.approval_id)

-- `_idempotency_key`
abbrev pub idempotency_key : ActionPlan → Approval → IdempotencyKey
idempotency_key plan approval = record {
  plan_id = plan.id;
  plan_hash = plan.plan_hash;
  approval_id = approval.id;
}

unfoldable pub find_incident : ℕ → Db → Option Incident
unfolding find
find_incident id db = find (λ i. i.id == id) db.incidents

-- `select(ActionPlan).where(ActionPlan.id == plan_id, ActionPlan.incident_id == incident_id)`
unfoldable pub find_plan : ℕ → ℕ → Db → Option ActionPlan
unfolding find
find_plan plan_id incident_id db =
    find (λ p. p.id == plan_id && p.incident_id == incident_id) db.plans

unfoldable pub find_approval : ActionPlan → Db → Option Approval
unfolding select latest_by
find_approval plan db =
    latest_by (λ a. a.decided_at)
      (select
        (λ a.
          a.action_plan_id == plan.id
          && (a.action_plan_hash == plan.plan_hash && is_approved a.decision))
        db.approvals)

-- The active service binding of the incident's project, environment and service.
unfoldable pub find_binding : Incident → Db → Option CloudService
unfolding find
find_binding incident db = elim (find (λ p. p.project_id == incident.project_id) db.projects) [
  | none ↦ none
  | some project ↦
      find
        (λ s.
          s.cloud_project_id == project.id
          && (s.environment == incident.environment && (s.service == incident.service && s.active)))
        db.services
]

abbrev pub stored_draft : ActionPlan → ActionPlanDraft
stored_draft plan = record {
  summary = plan.summary;
  risk_level = plan.risk_level;
  prerequisites = plan.prerequisites;
  rollback = plan.rollback;
  verification_criteria = plan.verification_criteria;
  plan_hash = some plan.plan_hash;
}

-- `_existing_result`
unfoldable pub existing_result : Db → IdempotencyKey → Option ExecutionResult
unfolding find
existing_result db key = elim (find (λ x. key_beq x.idempotency_key key) db.executions) [
  | none ↦ none
  | some x ↦ some (record {
    execution_id = some x.id;
    status = stored x.status;
    response = x.response;
    error = x.error;
  })
]

abbrev pub refusal : ResultStatus → String → ExecutionResult
refusal status error = record {
  execution_id = none;
  status = status;
  response = none;
  error = some error;
}

-- the first step of the plan with the tool, by its place in the sequence
unfoldable pub step_of : ActionPlan → Db → Option ℕ
unfolding select earliest_by
step_of plan db =
    elim (earliest_by (λ s. s.sequence)
      (select (λ s. s.action_plan_id == plan.id && s.tool_name == "rollback_release") db.steps)) [
        | none ↦ none
        | some s ↦ some s.id
      ]

abbrev pub new_execution : ℕ → ActionPlan → Approval → Option ℕ → ℕ → Execution
new_execution id plan approval step now = record {
  id = id;
  action_plan_id = plan.id;
  action_step_id = step;
  idempotency_key = idempotency_key plan approval;
  status = ExecutionStatus.running;
  tool_name = "rollback_release";
  response = none;
  started_at = now;
  completed_at = none;
  error = none;
}

abbrev pub set_incident_status : ℕ → IncidentStatus → Db → Db
set_incident_status id status db = record db {
  incidents = update_first (λ i. i.id == id) (λ i. record i { status = status }) db.incidents;
}
