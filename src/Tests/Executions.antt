-- ===== src/Tests/Executions.antt =====
-- The theorems on the execution of a plan at concrete inputs.
use oncall.Graph.Recovery.{IsRecovery, resume-IsRecovery}
use oncall.Jobs.Resume.{approval_payload}
use oncall.Execution.Workflow.{VerificationOutcome}
use oncall.Graph.Incident.{resume, GraphState, approval_boundary, approved_ids, execute, verify}
use oncall.Graph.Contracts.{is_valid_draft, ActionPlanDraft}
use oncall.Json.{Value, end, get, dict, uuid}
use oncall.Policy.{evaluate_action_plan}
use oncall.Tests.Data.{value_or, plan_at, db_with, approval}
use oncall.Execution.Claims.{IsAuthorized, begin_execution-IsAuthorized}
use oncall.Prelude.{
  String, [], arith, count, is_hex64, is_version, latest_by, ok, refl, select, ◌∷◌, ◌≡◌, ◌≤◌,
  Option, Outcome, none, some, suc, true, ℕ,
}
use oncall.Models.{PlanStatus, Db, ExecutionStatus}
use oncall.Incidents.State.{IncidentStatus, coerce_status, ensure_transition}
use oncall.Execution.Service.{
  Claim, claimed, existing_result, find_approval, find_binding, find_incident, find_plan,
  idempotency_key, key_beq, ExecutionResult, stored, stored_draft,
}
use oncall.Execution.Begin.{begin_execution, check_policy, claim_execution, follow_decision}
use oncall.Execution.Concurrency.{System, Reach, start, sent_once, claim, next, send}

abbrev py_str : Value → String
py_str v = ""

abbrev approved_db : Db
approved_db = db_with IncidentStatus.waiting_approval PlanStatus.approved (approval ∷ []) []

abbrev pub the_claim : Claim
the_claim = record {
  execution_id = 10;
  key = idempotency_key (plan_at PlanStatus.approved) approval;
  plan = plan_at PlanStatus.approved;
  approval = approval;
  tool_name = "rollback_release";
  tencent_tat = end;
}

abbrev claimed_db : Db
claimed_db =
    (value_or (claimed the_claim, approved_db) (begin_execution py_str 1 2 100 approved_db)).1

-- The claim, by the code.
claims : begin_execution py_str 1 2 100 approved_db ≡ ok (claimed the_claim, claimed_db)
unfolding begin_execution find_incident find_plan find_approval find_binding select latest_by
    check_policy evaluate_action_plan is_valid_draft is_version is_hex64 follow_decision
    claim_execution existing_result ensure_transition coerce_status get
claims = refl

begin_execution-IsAuthorized_example : IsAuthorized 1 2 the_claim 100 approved_db claimed_db
begin_execution-IsAuthorized_example =
    begin_execution-IsAuthorized py_str 1 2 100 approved_db claimed_db the_claim claims

abbrev after_claim : System
after_claim = record { db = claimed_db; pending = the_claim ∷ []; sent = [] }

abbrev after_send : System
after_send = record { db = claimed_db; pending = []; sent = the_claim.key ∷ [] }

sends : Reach py_str (start approved_db) after_send
sends =
    next {t = after_claim} (next Reach.here (claim 1 2 100 the_claim claimed_db claims refl))
      (send [] [] the_claim refl refl)

sent_once_example :
    count (λ k. key_beq k (idempotency_key (plan_at PlanStatus.approved) approval)) after_send.sent
    ≤ 1
unfolding count
sent_once_example =
    sent_once py_str (idempotency_key (plan_at PlanStatus.approved) approval) approved_db after_send
      (omega arith) sends

abbrev paused : GraphState
paused = record {
  incident_id = 1;
  status = IncidentStatus.waiting_approval;
  has_diagnosis = true;
  action_plan = some (stored_draft (plan_at PlanStatus.approved));
  approval = none;
  execution_result = none;
  verification_result = none;
  verification_failures = 0;
  need_human_reason = none;
}

abbrev stored_hash : ActionPlanDraft → String
stored_hash d = elim d.plan_hash [ none ↦ "" | some h ↦ h ]

abbrev read_uuid : Value → Option ℕ
read_uuid (uuid n) = some n
read_uuid _ = none

-- The outside counts the calls.
abbrev run_plan : ℕ → ℕ → ℕ → Outcome String ExecutionResult × ℕ
run_plan i p w = (
  ok (record {
    execution_id = some 10;
    status = stored ExecutionStatus.succeeded;
    response = none;
    error = none;
  }),
  suc w,
)

abbrev check_plan : ℕ → ℕ → ℕ → ℕ → Outcome String VerificationOutcome × ℕ
check_plan i p x w = (
  ok (record { status = IncidentStatus.resolved; passed = true; checks = []; reason = none }),
  suc w,
)

abbrev response : Value
response = dict (approval_payload (plan_at PlanStatus.approved) approval)

abbrev finished : GraphState × ℕ
finished = resume stored_hash read_uuid run_plan check_plan response paused 0

resume-IsRecovery_example : IsRecovery stored_hash read_uuid run_plan check_plan response paused 0 2
unfolding resume approval_boundary approved_ids execute verify get
resume-IsRecovery_example =
    resume-IsRecovery stored_hash read_uuid run_plan check_plan response paused finished.0 0 2 refl
      refl refl
