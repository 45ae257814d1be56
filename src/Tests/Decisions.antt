-- ===== src/Tests/Decisions.antt =====
-- The theorems on the routes and the jobs at concrete inputs.
use oncall.Jobs.Walk.{store_graph_result-stored, LeavesResult}
use oncall.Jobs.Outcomes.{resume-passes_boundary}
use oncall.Jobs.Resume.{check_resumption, approval_payload}
use oncall.Graph.Incident.{GraphState, approval_boundary, approved_ids}
use oncall.Graph.Contracts.{ActionPlanDraft}
use oncall.Incidents.Decisions.{approve_incident-never_ok}
use oncall.Jobs.Tasks.{GraphResult, at, store_graph_result}
use oncall.Execution.Service.{find_incident, find_approval, find_plan, stored_draft}
use oncall.Tests.Data.{db_with, hash64, value_or, incident_at, approval, plan_at}
use oncall.Json.{Value, Fields, dict, uuid}
use oncall.Prelude.{
  ℕ, Option, String, [], latest_by, none, ok, refl, select, some, true, ◌∷◌, ◌≡◌, ◌≢◌,
}
use oncall.Models.{PlanStatus, Db, Approval, Decision, Incident}
use oncall.Incidents.State.{IncidentStatus}
use oncall.Incidents.Router.{
  ApprovalRequest, ApprovalResponse, Job, approve_incident, reject_rows, retry_investigation,
}

abbrev request : ApprovalRequest
request = record { action_plan_hash = hash64; comment = none }

abbrev waiting_db : Db
waiting_db = db_with IncidentStatus.waiting_approval PlanStatus.pending_approval [] []

abbrev answer_of : IncidentStatus → Decision → ApprovalResponse
answer_of s d = record {
  approval_id = 10;
  incident_id = 1;
  action_plan_id = 2;
  decision = d;
  status = s;
}

approve_incident-never_ok_example :
    approve_incident 1 request 7 "ann" 20 waiting_db
    ≢ ok (
      answer_of IncidentStatus.waiting_approval Decision.approved,
      waiting_db,
      Job.resume_incident 1 2,
    )
approve_incident-never_ok_example = approve_incident-never_ok 1 request 7 "ann" 20 waiting_db (
  answer_of IncidentStatus.waiting_approval Decision.approved,
  waiting_db,
  Job.resume_incident 1 2,
)

abbrev rejected_db : Db
rejected_db =
    (reject_rows (incident_at IncidentStatus.waiting_approval) (plan_at PlanStatus.pending_approval)
      request 7 "ann" 20 IncidentStatus.need_human waiting_db).1

abbrev stuck_db : Db
stuck_db = db_with IncidentStatus.need_human PlanStatus.rejected [] []

abbrev retried : IncidentStatus × Db × Job
retried =
    value_or (IncidentStatus.failed, stuck_db, Job.resume_incident 0 0)
      (retry_investigation 1 "ann" 20000000 stuck_db)

abbrev approved_db : Db
approved_db = db_with IncidentStatus.waiting_approval PlanStatus.approved (approval ∷ []) []

abbrev paused : GraphState
paused = record {
  incident_id = 1;
  status = IncidentStatus.waiting_approval;
  has_diagnosis = true;
  action_plan = some (stored_draft (plan_at PlanStatus.approved));
  approval = none;
  execution_result = none;
  verification_result = none;
  verification_failures = 0;
  need_human_reason = none;
}

abbrev stored_hash : ActionPlanDraft → String
stored_hash d = elim d.plan_hash [ none ↦ "" | some h ↦ h ]

abbrev read_uuid : Value → Option ℕ
read_uuid (uuid n) = some n
read_uuid _ = none

abbrev sent : Fields
sent = approval_payload (plan_at PlanStatus.approved) approval

resume-passes_boundary_example :
    let s = approval_boundary stored_hash read_uuid (dict sent) paused in
    (incident : Incident) × (a : Approval) × (find_incident 1 approved_db ≡ some incident)
    × (find_approval (plan_at PlanStatus.approved) approved_db ≡ some a)
    × (incident.status ≡ IncidentStatus.waiting_approval)
    × (true ≡ true)
    × (s.status ≡ IncidentStatus.executing)
    × (approved_ids stored_hash read_uuid s ≡ ok (1, 2))
unfolding check_resumption find_incident find_plan find_approval select latest_by
resume-passes_boundary_example =
    resume-passes_boundary stored_hash read_uuid 1 2 approved_db "run" sent paused
      (stored_draft (plan_at PlanStatus.approved)) (plan_at PlanStatus.approved) (λ n. refl) refl
      refl refl refl refl

abbrev triaged_db : Db
triaged_db = db_with IncidentStatus.triaging PlanStatus.rejected [] []

-- A run that drafted the plan again.
abbrev run_result : GraphResult
run_result = record {
  status = "WAITING_APPROVAL";
  graph_run_id = "run";
  action_plan = some (stored_draft (plan_at PlanStatus.rejected));
  investigation_rounds = 2;
  model_call_count = 5;
  need_human_reason = none;
}

store_graph_result-stored_example :
    (db' : Db) × (store_graph_result 1 3 run_result IncidentStatus.waiting_approval triaged_db
      ≡ ok (at IncidentStatus.waiting_approval, db'))
    × LeavesResult
        (incident_at IncidentStatus.triaging)
        run_result
        IncidentStatus.waiting_approval
        db'
unfolding find_incident
store_graph_result-stored_example =
    store_graph_result-stored 1 3 run_result IncidentStatus.waiting_approval triaged_db
      (incident_at IncidentStatus.triaging) refl refl refl
