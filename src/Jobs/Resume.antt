-- ===== src/Jobs/Resume.antt =====
-- The job that resumes the graph after an approval: src/oncall/jobs/tasks.py.
use oncall.Execution.Service.{
  find_incident, find_approval, find_plan, plan_status_beq, set_incident_status,
}
use oncall.Json.{Fields, end, field, text, uuid}
use Prim.Native.String.{◌++◌ as concat}
use oncall.Prelude.{
  ℕ, String, none, Bool, Option, Outcome, if◌then◌else◌, nat_eq, not, ok, some, string_eq, ◌==◌,
  ◌>>=◌, ◌||◌, update_first,
}
use oncall.Models.{Db, ActionPlan, Approval, PlanStatus, append_audit_event, Incident}
use oncall.Incidents.State.{
  IncidentStatus, ensure_transition, parse_status, StateError, member, status_eq, value,
}
use oncall.Jobs.Tasks.{Report, at}

abbrev pub is_settled : IncidentStatus → Bool
is_settled s =
    s == IncidentStatus.need_human || (s == IncidentStatus.resolved || s == IncidentStatus.failed)

-- The transition to a human, with its event.
unfoldable pub escalate : Incident → IncidentStatus → String → String → Db → Db
unfolding append_audit_event value update_first
escalate incident target reason actor db =
    append_audit_event (some incident.id) "incident.execution_requires_human"
      (field "from" (text (value incident.status)) (field "reason" (text reason) end)) actor
      (set_incident_status incident.id target db)

-- `_mark_need_human`
unfoldable pub mark_need_human : ℕ → String → String → Db → Outcome StateError (Report × Db)
mark_need_human incident_id reason actor db = elim (find_incident incident_id db) [
  | none ↦ ok (Report.not_found, db)
  | some incident ↦ if is_settled incident.status then ok (at incident.status, db) else (do
    target ← ensure_transition (member incident.status) (member IncidentStatus.need_human)
    ok (at target, escalate incident target reason actor db))
]

-- The value that the graph is resumed with.
abbrev pub approval_payload : ActionPlan → Approval → Fields
approval_payload plan approval = field "decision" (text "APPROVED") (
    field "approval_id" (uuid approval.id)
      (field "action_plan_id" (uuid plan.id) (field "action_plan_hash" (text plan.plan_hash) end)))

pub data Resumption : Type 0 where
  refused : Report → Resumption
  resumes : String → Fields → Resumption

-- The first session, which reads only.
unfoldable pub check_resumption : ℕ → ℕ → Db → Resumption
check_resumption incident_id plan_id db = elim (find_incident incident_id db) [
  | none ↦ refused Report.not_found
  | some incident ↦ elim (find_plan plan_id incident_id db) [
    | none ↦ refused Report.not_found
    | some plan ↦ elim (find_approval plan db) [
      | none ↦ refused (at incident.status)
      | some approval ↦
          if not (incident.status == IncidentStatus.waiting_approval)
            || (not (plan_status_beq plan.status PlanStatus.approved) || plan.graph_run_id == "")
          then refused (at incident.status)
          else resumes plan.graph_run_id (approval_payload plan approval)
    ]
  ]
]

-- The end of a run of the graph: the text of its status, and its reason for calling a human.
pub record Ended : Type 0 where
  pub status : String
  pub need_human_reason : Option String

abbrev human_reason : Option String → String
human_reason none = "The recovery graph requires human review."
human_reason (some r) = if r == "" then "The recovery graph requires human review." else r

-- What is done with the end of the run, `none` for an exception.
unfoldable pub settle : (ℕ → Db → Db) → ℕ → Option Ended → Db → Outcome StateError (Report × Db)
unfolding value
settle extract incident_id none db =
    mark_need_human incident_id "The persisted approval graph could not resume safely."
      "celery:resume_incident" db
settle extract incident_id (some ended) db = elim (parse_status ended.status) [
  | none ↦
      mark_need_human incident_id "The resumed graph returned an invalid terminal state."
        "celery:resume_incident" db
  | some s ↦
      if s == IncidentStatus.need_human
      then mark_need_human incident_id (human_reason ended.need_human_reason)
          "celery:resume_incident" db
      else if s == IncidentStatus.resolved
      then ok (at s, extract incident_id db)
      else mark_need_human incident_id
          (concat "The recovery graph stopped unexpectedly at " (concat (value s) "."))
          "celery:resume_incident" db
]

-- `resume_incident`. `run_graph` runs the graph of that id on the tables with the resumed value.
unfoldable pub resume_incident :
    (ℕ → Db → Db)
    → (String → Fields → Db → Option Ended × Db)
    → ℕ
    → ℕ
    → Db
    → Outcome StateError (Report × Db)
resume_incident extract run_graph incident_id plan_id db =
    elim (check_resumption incident_id plan_id db) [
      | refused report ↦ ok (report, db)
      | resumes graph_run_id payload ↦
          let r = run_graph graph_run_id payload db in settle extract incident_id r.0 r.1
    ]
