-- ===== src/Incidents/Router.antt =====
-- The routes that decide on a plan and retry an investigation: src/oncall/incidents/router.py. An
-- answer comes with the committed tables and with the job that was sent.
use oncall.Json.{Fields, field, end, num, text, uuid}
use oncall.Execution.Service.{find_incident, plan_status_beq, set_incident_status, stored_draft}
use Prim.Native.Nat.{◌/◌}
use oncall.Prelude.{
  ℕ, String, Bool, Option, Outcome, false, if◌then◌else◌, latest_by, nat_eq, none, not, ok, raised,
  select, some, string_eq, suc, true, update_first, ◌&&◌, ◌==◌, ◌>>=◌, ◌||◌, ◌∷◌,
}
use oncall.Models.{Db, ActionPlan, Decision, Incident, PlanStatus, append_audit_event}
use oncall.Incidents.State.{IncidentStatus, StateError, ensure_transition, member, status_eq}
use oncall.Policy.{evaluate_action_plan, ValidationError}

pub record ApprovalRequest : Type 0 where
  pub action_plan_hash : String
  pub comment : Option String

pub record ApprovalResponse : Type 0 where
  pub approval_id : ℕ
  pub incident_id : ℕ
  pub action_plan_id : ℕ
  pub decision : Decision
  pub status : IncidentStatus

-- A request that is not served: the HTTP statuses, or an exception that the route lets through.
pub data RouteError : Type 0 where
  not_found conflict forbidden : RouteError
  invalid_plan : ValidationError → RouteError
  invalid_state : StateError → RouteError

pub data Job : Type 0 where
  resume_incident : ℕ → ℕ → Job
  start_incident : ℕ → ℕ → Job

abbrev pub newest_plan : ℕ → Db → Option ActionPlan
newest_plan incident_id db =
    latest_by (λ p. p.version) (select (λ p. p.incident_id == incident_id) db.plans)

-- `_locked_incident_and_plan`; of plans with one version, the first row.
unfoldable pub locked_incident_and_plan : ℕ → Db → Option (Incident × ActionPlan)
unfolding select latest_by
locked_incident_and_plan incident_id db = elim (find_incident incident_id db) [
  | none ↦ none
  | some incident ↦ elim (newest_plan incident_id db) [
    | none ↦ none
    | some plan ↦ some (incident, plan)
  ]
]

abbrev set_plan_status : ℕ → PlanStatus → Db → Db
set_plan_status id status db = record db {
  plans = update_first (λ p. p.id == id) (λ p. record p { status = status }) db.plans;
}

-- The decision's row, and the plan's new status.
unfoldable pub store_decision :
    Decision → PlanStatus → ActionPlan → ApprovalRequest → ℕ → ℕ → Db → ℕ × Db
store_decision decision status plan payload user_id now db = (
  db.next_id,
  record (set_plan_status plan.id status db) {
    next_id = suc db.next_id;
    approvals =
        record {
          id = db.next_id;
          action_plan_id = plan.id;
          action_plan_hash = plan.plan_hash;
          user_id = user_id;
          decision = decision;
          comment = payload.comment;
          decided_at = now;
        }
        ∷ db.approvals;
  },
)

abbrev plan_fields : ActionPlan → Fields → Fields
plan_fields plan rest =
    field "action_plan_id" (uuid plan.id) (field "action_plan_hash" (text plan.plan_hash) rest)

-- The guards of both routes.
unfoldable pub check_request :
    Bool → Incident → ActionPlan → ApprovalRequest → Outcome RouteError (Unit {0})
check_request needs_run incident plan payload =
    if not (incident.status == IncidentStatus.waiting_approval)
    then raised conflict
    else if not (plan.plan_hash == payload.action_plan_hash)
    then raised conflict
    else if not (plan_status_beq plan.status PlanStatus.pending_approval)
        || (needs_run && plan.graph_run_id == "")
    then raised conflict
    else ok tt

-- `evaluate_action_plan(_plan_draft(plan), incident)`: no recovery configuration is passed.
unfoldable pub check_plan : Incident → ActionPlan → Outcome RouteError (Unit {0})
check_plan incident plan = elim (evaluate_action_plan (stored_draft plan) (some incident) none) [
  | raised e ↦ raised (invalid_plan e)
  | ok decision ↦ if not decision.allowed then raised forbidden else ok tt
]

abbrev approve_rows :
    Incident → ActionPlan → ApprovalRequest → ℕ → String → ℕ → Db → ApprovalResponse × Db × Job
approve_rows incident plan payload user_id username now db =
    let decided =
      store_decision Decision.approved PlanStatus.approved plan payload user_id now db in
    (
      record {
        approval_id = decided.0;
        incident_id = incident.id;
        action_plan_id = plan.id;
        decision = Decision.approved;
        status = incident.status;
      },
      append_audit_event (some incident.id) "incident.approved"
          (plan_fields plan (field "approval_id" (uuid decided.0) end)) username decided.1,
      resume_incident incident.id plan.id,
    )

-- `approve_incident`, called by the user of that id and name.
unfoldable pub approve_incident :
    ℕ → ApprovalRequest → ℕ → String → ℕ → Db → Outcome RouteError (ApprovalResponse × Db × Job)
approve_incident incident_id payload user_id username now db =
    elim (locked_incident_and_plan incident_id db) [
      | none ↦ raised not_found
      | some r ↦ (do
        _ ← check_request true r.0 r.1 payload
        _ ← check_plan r.0 r.1
        ok (approve_rows r.0 r.1 payload user_id username now db))
    ]

-- The incident goes to a human, the decision is stored.
unfoldable pub reject_rows :
    Incident
    → ActionPlan
    → ApprovalRequest
    → ℕ
    → String
    → ℕ
    → IncidentStatus
    → Db
    → ApprovalResponse × Db
unfolding append_audit_event store_decision
reject_rows incident plan payload user_id username now target db =
    let decided =
      store_decision Decision.rejected PlanStatus.rejected plan payload user_id now
        (set_incident_status incident.id target db) in
    (
      record {
        approval_id = decided.0;
        incident_id = incident.id;
        action_plan_id = plan.id;
        decision = Decision.rejected;
        status = target;
      },
      append_audit_event (some incident.id) "incident.rejected" (plan_fields plan end) username
          decided.1,
    )

-- A call of `ensure_transition` in a route.
abbrev pub transition : IncidentStatus → IncidentStatus → Outcome RouteError IncidentStatus
transition current target = elim (ensure_transition (member current) (member target)) [
  | ok s ↦ ok s
  | raised e ↦ raised (invalid_state e)
]

unfoldable pub reject_incident :
    ℕ → ApprovalRequest → ℕ → String → ℕ → Db → Outcome RouteError (ApprovalResponse × Db)
reject_incident incident_id payload user_id username now db =
    elim (locked_incident_and_plan incident_id db) [
      | none ↦ raised not_found
      | some r ↦ (do
        _ ← check_request false r.0 r.1 payload
        target ← transition r.0.status IncidentStatus.need_human
        ok (reject_rows r.0 r.1 payload user_id username now target db))
    ]

-- `retry_investigation`; the checkpoint version is the time in whole seconds.
unfoldable pub retry_investigation :
    ℕ → String → ℕ → Db → Outcome RouteError (IncidentStatus × Db × Job)
unfolding append_audit_event
retry_investigation incident_id username now db = elim (find_incident incident_id db) [
  | none ↦ raised not_found
  | some incident ↦
      if not (incident.status == IncidentStatus.need_human) then raised conflict else (do
        target ← transition incident.status IncidentStatus.triaging
        ok (
          target,
          append_audit_event (some incident.id) "incident.investigation_retried"
              (field "checkpoint_version" (num (now / 1000000)) end) username
              (set_incident_status incident.id target db),
          start_incident incident.id (now / 1000000),
        ))
]
