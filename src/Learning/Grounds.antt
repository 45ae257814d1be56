-- ===== src/Learning/Grounds.antt =====
-- What an experience is extracted from: the queries of src/oncall/experience/service.py.
use oncall.Prelude.{
  ℕ, List, [], Bool, Option, Outcome, all, false, if◌then◌else◌, is_some, latest_by, leb, length,
  ltb, nat_beq, nat_eq, none, not, ok, raised, select, some, sort_by, string_eq, true, ◌&&◌, ◌==◌,
  ◌||◌, ◌∷◌, find,
}
use oncall.Learning.{Evidence, Hypothesis, KnowledgeCitation, LearningDb}
use oncall.Execution.Workflow.{has_succeeded, is_passed}
use oncall.Incidents.State.{status_eq}
use oncall.Models.{PlanStatus, ActionPlan, Execution, Incident, VerificationCheck}

pub data NotEligible : Type 0 where
  not_resolved no_executed_plan no_execution unverified no_grounds no_hypothesis : NotEligible

-- What the queries of an extraction find.
pub record Grounds : Type 0 where
  pub incident : Incident
  pub plan : ActionPlan
  pub execution : Execution
  pub checks : List VerificationCheck
  pub evidence : List Evidence
  pub citations : List KnowledgeCitation
  pub hypothesis : Hypothesis

abbrev pub is_executed : PlanStatus → Bool
is_executed PlanStatus.executed = true
is_executed _ = false

abbrev pub or_zero : Option ℕ → ℕ
or_zero none = 0
or_zero (some n) = n

abbrev pub first {ℓ} : {A : Type ℓ} → List A → Option A
first [] = none
first (x ∷ xs) = some x

-- `confidence.desc().nullslast()`, then `updated_at.desc()`
abbrev precedes : Hypothesis → Hypothesis → Bool
precedes a b = elim a.confidence [
  | none ↦ not (is_some b.confidence) && leb b.updated_at a.updated_at
  | some m ↦ elim b.confidence [
    | none ↦ true
    | some n ↦ ltb n m || (nat_beq n m && leb b.updated_at a.updated_at)
  ]
]

unfoldable pub executed_plan : ℕ → LearningDb → Option ActionPlan
unfolding select latest_by
executed_plan incident_id db =
    latest_by (λ p. p.version)
      (select (λ p. p.incident_id == incident_id && is_executed p.status) db.tables.plans)

-- The database puts the rows with no time of completion before the others.
unfoldable pub succeeded_execution : ℕ → LearningDb → Option Execution
unfolding find select latest_by
succeeded_execution plan_id db =
    let rows =
      select (λ x. x.action_plan_id == plan_id && has_succeeded x.status) db.tables.executions in
    elim (find (λ x. not (is_some x.completed_at)) rows) [
      | some x ↦ some x
      | none ↦ latest_by (λ x. or_zero x.completed_at) rows
    ]

unfoldable pub checks_of : ℕ → LearningDb → List VerificationCheck
unfolding select sort_by
checks_of incident_id db =
    sort_by
      (λ a b. ltb a.checked_at b.checked_at || (nat_beq a.checked_at b.checked_at && leb a.id b.id))
      (select (λ c. c.incident_id == incident_id) db.tables.checks)

unfoldable pub evidence_rows : ℕ → LearningDb → List Evidence
unfolding select sort_by
evidence_rows incident_id db =
    sort_by (λ a b. leb a.collected_at b.collected_at)
      (select (λ e. e.incident_id == incident_id) db.evidence)

unfoldable pub citation_rows : ℕ → LearningDb → List KnowledgeCitation
unfolding select sort_by
citation_rows incident_id db =
    sort_by (λ a b. leb a.created_at b.created_at)
      (select (λ c. c.incident_id == incident_id) db.citations)

unfoldable pub best_hypothesis : ℕ → LearningDb → Option Hypothesis
unfolding select sort_by
best_hypothesis incident_id db =
    first (sort_by precedes (select (λ h. h.incident_id == incident_id) db.hypotheses))

-- The checks of `create_candidate_from_resolved_incident` after that of the incident.
unfoldable pub grounds_of : Incident → LearningDb → Outcome NotEligible Grounds
grounds_of incident db = elim (executed_plan incident.id db) [
  | none ↦ raised no_executed_plan
  | some plan ↦ elim (succeeded_execution plan.id db) [
    | none ↦ raised no_execution
    | some execution ↦
        if not
          (leb 1 (length (checks_of incident.id db)) && all is_passed (checks_of incident.id db))
        then raised unverified
        else if not (
            leb 1 (length (evidence_rows incident.id db))
            && leb 1 (length (citation_rows incident.id db)))
        then raised no_grounds
        else elim (best_hypothesis incident.id db) [
          | none ↦ raised no_hypothesis
          | some hypothesis ↦ ok (record {
            incident = incident;
            plan = plan;
            execution = execution;
            checks = checks_of incident.id db;
            evidence = evidence_rows incident.id db;
            citations = citation_rows incident.id db;
            hypothesis = hypothesis;
          })
        ]
  ]
]
