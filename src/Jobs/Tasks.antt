-- ===== src/Jobs/Tasks.antt =====
-- The jobs that run the incident graph: src/oncall/jobs/tasks.py. What the graph returns is an
-- argument, `none` for an exception; the rows for evidence, hypotheses and citations are not
-- modelled, nor is the extraction of an experience, which is a parameter.
use oncall.Execution.Service.{plan_status_beq, set_incident_status, find_incident}
use oncall.Prelude.{
  ℕ, String, none, Bool, List, Option, Outcome, [], false, find, if◌then◌else◌, latest_by, ltb,
  nat_eq, not, ok, raised, select, some, string_eq, suc, true, ◌&&◌, ◌==◌, ◌>>=◌, ◌∷◌,
}
use oncall.Json.{Value, Fields, end, field, null, num, text}
use oncall.Models.{Db, ActionPlan, Incident, PlanStatus, append_audit_event}
use oncall.Incidents.State.{
  IncidentStatus, ensure_transition, parse_status, StateError, member, status_eq, value,
}
use oncall.Graph.Contracts.{ActionPlanDraft}

abbrev pub graph_status_path : List IncidentStatus
graph_status_path =
    IncidentStatus.investigating ∷ IncidentStatus.diagnosed ∷ IncidentStatus.planning
    ∷ IncidentStatus.waiting_approval ∷ []

-- What the graph's state holds when the run stops.
pub record GraphResult : Type 0 where
  pub status : String
  pub graph_run_id : String
  pub action_plan : Option ActionPlanDraft
  pub investigation_rounds : ℕ
  pub model_call_count : ℕ
  pub need_human_reason : Option String

pub data JobError : Type 0 where
  bad_version : JobError
  bad_status : String → JobError
  bad_transition : StateError → JobError

-- The status of the answer.
pub data Report : Type 0 where
  not_found : Report
  at : IncidentStatus → Report

abbrev pub hash_of : ActionPlanDraft → String
hash_of d = elim d.plan_hash [ none ↦ "" | some h ↦ h ]

-- `(latest_version or 0) + 1`
abbrev next_version : Option ActionPlan → ℕ
next_version none = 1
next_version (some p) = suc p.version

abbrev new_plan : ℕ → ℕ → String → ℕ → ActionPlanDraft → ActionPlan
new_plan id incident_id graph_run_id version d = record {
  id = id;
  incident_id = incident_id;
  graph_run_id = graph_run_id;
  version = version;
  summary = d.summary;
  risk_level = d.risk_level;
  prerequisites = d.prerequisites;
  rollback = d.rollback;
  verification_criteria = d.verification_criteria;
  plan_hash = hash_of d;
  status = PlanStatus.pending_approval;
}

-- A new version of the plan, with its one step.
unfoldable pub add_plan : Incident → String → ActionPlanDraft → Db → ActionPlan × Db
unfolding select latest_by
add_plan incident graph_run_id d db =
    let latest = latest_by (λ p. p.version) (select (λ p. p.incident_id == incident.id) db.plans) in
    let plan = new_plan db.next_id incident.id graph_run_id (next_version latest) d in
    (
      plan,
      record db {
        next_id = suc (suc db.next_id);
        plans = plan ∷ db.plans;
        steps =
            record {
              id = suc db.next_id;
              action_plan_id = plan.id;
              sequence = 1;
              tool_name = "rollback_release";
            }
            ∷ db.steps;
      },
    )

-- The last part of `_persist_graph_findings`: the plan that the run ends with.
unfoldable pub persist_plan : Incident → GraphResult → Db → Option ActionPlan × Db
unfolding find
persist_plan incident result db = elim result.action_plan [
  | none ↦ (none, db)
  | some d ↦
      let fresh = add_plan incident result.graph_run_id d db in
      elim (find (λ p. p.incident_id == incident.id && p.plan_hash == hash_of d) db.plans) [
        | none ↦ (some fresh.0, fresh.1)
        | some plan ↦
            if plan_status_beq plan.status PlanStatus.pending_approval
            then (some plan, db)
            else (some fresh.0, fresh.1)
      ]
]

abbrev unstarted : GraphResult
unstarted = record {
  status = "NEED_HUMAN";
  graph_run_id = "";
  action_plan = none;
  investigation_rounds = 0;
  model_call_count = 0;
  need_human_reason = some "The durable incident graph could not start safely.";
}

abbrev result_of : Option GraphResult → GraphResult
result_of none = unstarted
result_of (some g) = g

abbrev optional : Option String → Value
optional none = null
optional (some s) = text s

abbrev hash_value : Option ActionPlan → Value
hash_value none = null
hash_value (some p) = text p.plan_hash

abbrev completed : IncidentStatus → IncidentStatus → ℕ → GraphResult → Option ActionPlan → Fields
completed previous target version result plan = field "from" (text (value previous)) (
    field "to" (text (value target)) (
      field "checkpoint_version" (num version) (
        field "investigation_rounds" (num result.investigation_rounds) (
          field "model_call_count" (num result.model_call_count) (
            field "action_plan_hash" (hash_value plan)
              (field "need_human_reason" (optional result.need_human_reason) end))))))

-- The loop over the path; the statuses that are already reached are skipped.
unfoldable pub walk :
    List IncidentStatus
    → Incident
    → ℕ
    → GraphResult
    → Option ActionPlan
    → Db
    → Outcome JobError (IncidentStatus × Db)
unfolding append_audit_event value
walk [] incident version result plan db = ok (incident.status, db)
walk (t ∷ ts) incident version result plan db =
    let skip = walk ts incident version result plan db in
    if incident.status == t
    then skip
    else elim (ensure_transition (member incident.status) (member t)) [
      | raised e ↦ raised (bad_transition e)
      | ok target ↦
          walk ts (record incident { status = target }) version result plan
            (append_audit_event (some incident.id) "incident.graph_completed"
              (completed incident.status target version result plan) "celery:start_incident"
              (set_incident_status incident.id target db))
    ]

-- The first transaction of `_start_incident`: whether the graph is to run.
unfoldable pub enter_triage : ℕ → ℕ → Db → Outcome JobError ((Bool × Report) × Db)
unfolding append_audit_event value
enter_triage incident_id version db = elim (find_incident incident_id db) [
  | none ↦ ok ((false, Report.not_found), db)
  | some incident ↦
      if incident.status == IncidentStatus.received
      then elim (ensure_transition (member incident.status) (member IncidentStatus.triaging)) [
        | raised e ↦ raised (bad_transition e)
        | ok target ↦ ok (
          (true, at target),
          append_audit_event (some incident.id) "incident.status_changed"
              (field "from" (text (value incident.status))
                (field "to" (text (value target)) (field "checkpoint_version" (num version) end)))
              "celery:start_incident" (set_incident_status incident.id target db),
        )
      ]
      else if incident.status == IncidentStatus.triaging
      then ok ((true, at incident.status), db)
      else ok ((false, at incident.status), db)
]

abbrev pub path_to : IncidentStatus → List IncidentStatus
path_to s = if s == IncidentStatus.waiting_approval then graph_status_path else s ∷ []

-- The second transaction, with the status that the graph stopped at.
unfoldable pub store_graph_result :
    ℕ → ℕ → GraphResult → IncidentStatus → Db → Outcome JobError (Report × Db)
store_graph_result incident_id version result status db = elim (find_incident incident_id db) [
  | none ↦ ok (Report.not_found, db)
  | some incident ↦
      let persisted = persist_plan incident result db in
      if incident.status == status then ok (at status, persisted.1) else (do
        r ← walk (path_to status) incident version result persisted.0 persisted.1
        ok (at status, r.1))
]

-- `start_incident`. `meanwhile` is what other sessions do during the graph's run.
unfoldable pub start_incident :
    ℕ → ℕ → Option GraphResult → (Db → Db) → Db → Outcome JobError (Report × Db)
start_incident incident_id version answer meanwhile db =
    if ltb version 1 then raised bad_version else (do
      r ← enter_triage incident_id version db
      if not r.0.0
          then ok (r.0.1, r.1)
          else (let result = result_of answer in
              elim (parse_status result.status) [
                | none ↦ raised (bad_status result.status)
                | some s ↦ store_graph_result incident_id version result s (meanwhile r.1)
              ]))
