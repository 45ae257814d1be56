-- ===== src/Incidents/Decisions.antt =====
-- What the routes of src/oncall/incidents/router.py decide.
use oncall.Policy.{evaluate_action_plan}
use oncall.Execution.Service.{plan_status_beq, find_approval, find_incident}
use Prim.Native.Nat.{◌/◌}
use oncall.Prelude.{
  ℕ, String, Option-cases, arith, eq_iff, inl, inr, ok, refl, some, true, ◌∷◌, ◌≡◌, ◌≢◌, select,
  Bool, false, ◌&&◌,
}
use oncall.Models.{Db, ActionPlan, Approval, Decision, Incident, PlanStatus, append_audit_event}
use oncall.Incidents.State.{IncidentStatus, ensure_transition, status_beq_iff, coerce_status}
use oncall.Incidents.Router.{
  ApprovalRequest, ApprovalResponse, approve_incident, reject_incident, Job, check_plan,
  check_request, locked_incident_and_plan, reject_rows, store_decision, retry_investigation,
  start_incident, transition,
}

plan_never_passes : (incident : Incident) (plan : ActionPlan) → check_plan incident plan ≢ ok tt
unfolding check_plan evaluate_action_plan
plan_never_passes incident plan h = ground (arith)

-- Whatever the request, the caller and the tables, the route that approves a plan refuses or raises:
-- it asks the policy without the recovery configuration of the service.
pub approve_incident-never_ok :
    (incident_id : ℕ) (payload : ApprovalRequest) (user_id : ℕ) (username : String) (now : ℕ)
    (db : Db) (r : ApprovalResponse × Db × Job)
    → approve_incident incident_id payload user_id username now db ≢ ok r
unfolding approve_incident
approve_incident-never_ok incident_id payload user_id username now db r h =
    elim (Option-cases (locked_incident_and_plan incident_id db)) [
      | inl e ↦ ground arith
      | inr e ↦ ground (arith, plan_never_passes e.0.0 e.0.1)
    ]

transition-target :
    (current target s : IncidentStatus) → transition current target ≡ ok s → s ≡ target
unfolding ensure_transition coerce_status
transition-target current target s h = ground (arith)

rejected_status :
    (incident_id : ℕ) (payload : ApprovalRequest) (user_id : ℕ) (username : String) (now : ℕ)
    (db db' : Db) (a : ApprovalResponse)
    → reject_incident incident_id payload user_id username now db ≡ ok (a, db')
    → a.status ≡ IncidentStatus.need_human
unfolding reject_incident reject_rows
rejected_status incident_id payload user_id username now db db' a h =
    elim (Option-cases (locked_incident_and_plan incident_id db)) [
      | inl e ↦ absurd (ground arith)
      | inr e ↦ ground (arith, transition-target e.0.0.status IncidentStatus.need_human a.status)
    ]

-- What a rejection has checked and stored.
record IsRejection (incident_id : ℕ) (payload : ApprovalRequest) (a : ApprovalResponse)
    (db db' : Db) : Type 0 where
  incident : Incident
  plan : ActionPlan
  locked : locked_incident_and_plan incident_id db ≡ some (incident, plan)
  waiting : incident.status ≡ IncidentStatus.waiting_approval
  same_hash : plan.plan_hash ≡ payload.action_plan_hash
  pending : plan_status_beq plan.status PlanStatus.pending_approval ≡ true
  answered : a.status ≡ IncidentStatus.need_human
  executions_kept : db'.executions ≡ db.executions
  row : Approval
  row_rejected : row.decision ≡ Decision.rejected
  row_hash : row.action_plan_hash ≡ payload.action_plan_hash
  row_plan : row.action_plan_id ≡ plan.id
  approvals_of : db'.approvals ≡ row ∷ db.approvals

reject_incident-IsRejection :
    (incident_id : ℕ) (payload : ApprovalRequest) (user_id : ℕ) (username : String) (now : ℕ)
    (db db' : Db) (a : ApprovalResponse)
    → reject_incident incident_id payload user_id username now db ≡ ok (a, db')
    → IsRejection incident_id payload a db db'
unfolding reject_incident check_request reject_rows store_decision append_audit_event
    ensure_transition
reject_incident-IsRejection incident_id payload user_id username now db db' a h =
    elim (Option-cases (locked_incident_and_plan incident_id db)) [
      | inl e ↦ absurd (ground arith)
      | inr e ↦ record {
        incident = e.0.0;
        plan = e.0.1;
        locked = e.1;
        waiting = ground (arith, status_beq_iff e.0.0.status IncidentStatus.waiting_approval);
        same_hash = ground (arith, eq_iff e.0.1.plan_hash payload.action_plan_hash);
        pending = ground arith;
        answered = rejected_status incident_id payload user_id username now db db' a h;
        executions_kept = ground arith;
        row = record {
          id = db.next_id;
          action_plan_id = e.0.1.id;
          action_plan_hash = e.0.1.plan_hash;
          user_id = user_id;
          decision = Decision.rejected;
          comment = payload.comment;
          decided_at = now;
        };
        row_rejected = refl;
        row_hash = ground (arith, eq_iff e.0.1.plan_hash payload.action_plan_hash);
        row_plan = refl;
        approvals_of = ground arith;
      }
    ]

no_match : (a b : Bool) → (a && (b && false)) ≡ false
no_match a b = ground arith

-- A rejection that is accepted sends the incident to a human, leaves the executions as they are, and
-- changes no look-up of the approval of a plan.
pub reject_incident-authorizes_nothing :
    (incident_id : ℕ) (payload : ApprovalRequest) (user_id : ℕ) (username : String) (now : ℕ)
    (db db' : Db) (a : ApprovalResponse) (plan : ActionPlan)
    → reject_incident incident_id payload user_id username now db ≡ ok (a, db')
    → (a.status ≡ IncidentStatus.need_human)
      × (db'.executions ≡ db.executions)
      × (find_approval plan db' ≡ find_approval plan db)
unfolding find_approval select
reject_incident-authorizes_nothing incident_id payload user_id username now db db' a plan h =
    let r = reject_incident-IsRejection incident_id payload user_id username now db db' a h in
    (
      r.answered,
      r.executions_kept,
      rw (find_approval, r.approvals_of, select, r.row_rejected, no_match _ _),
    )

-- A retry that is accepted was for an incident with a human, takes it back to triage, sends the job
-- with the time in seconds as its version, and leaves plans, approvals and executions as they are.
pub retry_investigation-only_reads :
    (incident_id : ℕ) (username : String) (now : ℕ) (db db' : Db) (s : IncidentStatus) (j : Job)
    → retry_investigation incident_id username now db ≡ ok (s, db', j)
    → (incident : Incident) × (find_incident incident_id db ≡ some incident)
      × (incident.status ≡ IncidentStatus.need_human)
      × (s ≡ IncidentStatus.triaging)
      × (j ≡ start_incident incident.id (now / 1000000))
      × (db'.executions ≡ db.executions)
      × (db'.plans ≡ db.plans)
      × (db'.approvals ≡ db.approvals)
unfolding retry_investigation append_audit_event
retry_investigation-only_reads incident_id username now db db' s j h =
    elim (Option-cases (find_incident incident_id db)) [
      | inl e ↦ absurd (ground arith)
      | inr e ↦ (
        e.0,
        e.1,
        ground (arith, status_beq_iff e.0.status IncidentStatus.need_human),
        ground (arith, transition-target e.0.status IncidentStatus.triaging s),
        ground arith,
        ground arith,
        ground arith,
        ground arith,
      )
    ]
