-- ===== src/Learning/Eligible.antt =====
-- What a new experience rests on: src/oncall/experience/service.py.
use oncall.Execution.Workflow.{is_passed, has_succeeded}
use oncall.Execution.Service.{find_incident}
use oncall.Learning.Experiences.{create_candidate_from_resolved_incident}
use oncall.Learning.Grounds.{
  grounds_of, Grounds, checks_of, citation_rows, evidence_rows, executed_plan, succeeded_execution,
  is_executed, or_zero,
}
use oncall.Models.{Incident, ActionPlan, Execution, ExecutionStatus, PlanStatus}
use oncall.Json.{Value}
use mathlib.Core.Option.{some-injective}
use oncall.Prelude.{
  ℕ, String, List, Option-cases, Outcome-cases, all, arith, find, inl, inr, length, nat_eq, none,
  ok, some, string_eq, true, ◌==◌, ◌≡◌, ◌≤◌, Bool, Mem, find-select, is_some, latest_by-select-Mem,
  latest_by-select_sound, not, select, subst, ◌&&◌,
}
use oncall.Incidents.State.{IncidentStatus, status_beq_iff, status_eq}
use oncall.Learning.{ExperienceCandidate, LearningDb, pending_review}

-- A resolved incident with an executed plan, a successful execution of it, checks that all passed,
-- evidence and a citation
pub record IsEligible (incident_id : ℕ) (db : LearningDb) : Type 0 where
  pub incident : Incident
  pub is_incident : find_incident incident_id db.tables ≡ some incident
  pub is_resolved : incident.status ≡ IncidentStatus.resolved
  pub plan : ActionPlan
  pub is_plan : executed_plan incident.id db ≡ some plan
  pub stored_plan : Mem plan db.tables.plans
  pub plan_of : plan.incident_id ≡ incident.id
  pub executed : plan.status ≡ PlanStatus.executed
  pub execution : Execution
  pub is_execution : succeeded_execution plan.id db ≡ some execution
  pub stored_execution : Mem execution db.tables.executions
  pub execution_of : execution.action_plan_id ≡ plan.id
  pub succeeded : execution.status ≡ ExecutionStatus.succeeded
  pub checked : 1 ≤ length (checks_of incident.id db)
  pub all_passed : all is_passed (checks_of incident.id db) ≡ true
  pub evidenced : 1 ≤ length (evidence_rows incident.id db)
  pub cited : 1 ≤ length (citation_rows incident.id db)

executed_plan-row :
    (incident_id : ℕ) (db : LearningDb) (p : ActionPlan)
    → executed_plan incident_id db ≡ some p
    → Mem p db.tables.plans × (p.incident_id ≡ incident_id) × (p.status ≡ PlanStatus.executed)
unfolding executed_plan
executed_plan-row incident_id db p h =
    let key : ActionPlan → ℕ = λ q. q.version in
    let test : ActionPlan → Bool = λ q. q.incident_id == incident_id && is_executed q.status in
    let t = latest_by-select_sound key test db.tables.plans {x = p} h in
    (latest_by-select-Mem key test db.tables.plans {x = p} h, ground (arith, t), ground (arith, t))

succeeded_execution-row :
    (plan_id : ℕ) (db : LearningDb) (x : Execution)
    → succeeded_execution plan_id db ≡ some x
    → Mem x db.tables.executions
      × (x.action_plan_id ≡ plan_id)
      × (x.status ≡ ExecutionStatus.succeeded)
unfolding succeeded_execution
succeeded_execution-row plan_id db x h =
    let test : Execution → Bool = λ y. y.action_plan_id == plan_id && has_succeeded y.status in
    let unended : Execution → Bool = λ y. not (is_some y.completed_at) in
    elim (Option-cases (find unended (select test db.tables.executions))) [
      | inl e ↦
          (let h' = rw (succeeded_execution, e) at h in
            let t =
              latest_by-select_sound (λ y. or_zero y.completed_at) test db.tables.executions {x = x}
                h' in
            (
              latest_by-select-Mem (λ y. or_zero y.completed_at) test db.tables.executions {x = x}
                  h',
              ground (arith, t),
              ground (arith, t),
            ))
      | inr (y, e) ↦
          (let same = some-injective _ _ (rw (succeeded_execution, e) at h) in
            let (t, m) = find-select unended test db.tables.executions {x = y} e in
            subst
              (λ z.
                Mem z db.tables.executions
                × (z.action_plan_id ≡ plan_id)
                × (z.status ≡ ExecutionStatus.succeeded))
              same (m, ground (arith, t), ground (arith, t)))
    ]

grounds_of-IsEligible :
    (incident_id : ℕ) (incident : Incident) (db : LearningDb) (g : Grounds)
    → find_incident incident_id db.tables ≡ some incident
    → incident.status ≡ IncidentStatus.resolved
    → grounds_of incident db ≡ ok g
    → IsEligible incident_id db
unfolding grounds_of
grounds_of-IsEligible incident_id incident db g found resolved_now h =
    elim (Option-cases (executed_plan incident.id db)) [
      | inl e ↦ absurd (ground arith)
      | inr (plan, e) ↦ elim (Option-cases (succeeded_execution plan.id db)) [
        | inl f ↦ absurd (ground arith)
        | inr (execution, f) ↦ record {
          incident = incident;
          is_incident = found;
          is_resolved = resolved_now;
          plan = plan;
          is_plan = e;
          stored_plan = (executed_plan-row incident.id db plan e).0;
          plan_of = (executed_plan-row incident.id db plan e).1;
          executed = (executed_plan-row incident.id db plan e).2;
          execution = execution;
          is_execution = f;
          stored_execution = (succeeded_execution-row plan.id db execution f).0;
          execution_of = (succeeded_execution-row plan.id db execution f).1;
          succeeded = (succeeded_execution-row plan.id db execution f).2;
          checked = ground arith;
          all_passed = ground arith;
          evidenced = ground arith;
          cited = ground arith;
        }
      ]
    ]

module _ (canonical_hash : Value → String) (fold strip normalize : String → String)
    (words : String → List String) (re_sub : String → String → String → String) where
  -- A candidate is created only from an incident that is resolved, has an executed plan with a
  -- successful execution, checks that all passed, evidence and a citation, and that no candidate
  -- was created from before; it waits for its review, and no experience is published by it.
  pub create_candidate-IsEligible :
      (incident_id now : ℕ) (db db' : LearningDb) (c : ExperienceCandidate)
      → create_candidate_from_resolved_incident canonical_hash fold strip normalize words re_sub
          incident_id now db
        ≡ ok (some c, db')
      → IsEligible incident_id db
        × (find (λ x. x.incident_id == incident_id) db.experience_candidates ≡ none)
        × (c.status ≡ pending_review)
        × (db'.experiences ≡ db.experiences)
  unfolding create_candidate_from_resolved_incident
  create_candidate-IsEligible incident_id now db db' c h =
      elim (Option-cases (find_incident incident_id db.tables)) [
        | inl e ↦ absurd (ground arith)
        | inr (incident, e) ↦ elim (Outcome-cases (grounds_of incident db)) [
          | inr (x, f) ↦ absurd (ground arith)
          | inl (g, f) ↦ (
            grounds_of-IsEligible incident_id incident db g e
                (ground (arith, status_beq_iff incident.status IncidentStatus.resolved)) f,
            ground arith,
            ground arith,
            ground arith,
          )
        ]
      ]
