-- ===== src/Execution/Claims.antt =====
-- When the executor claims an execution: src/oncall/execution/service.py.
use oncall.Policy.Laws.{allowed_conditions}
use oncall.Policy.{PolicyDecision, asks_approval, evaluate_action_plan, is_tencent}
use oncall.Graph.Contracts.{is_valid_draft}
use oncall.Prelude.{
  ℕ, String, none, ok, ◌∷◌, ◌≡◌, arith, Option, some, true, Bool-cases, Option-cases, Outcome-cases,
  inl, inr, if◌then◌else◌,
}
use oncall.Json.{Fields, Value, as_dict}
use oncall.Models.{Db, ActionPlan, Approval, Incident, CloudService, PlanStatus}
use oncall.Execution.Service.{
  Claim, claimed, existing_result, idempotency_key, new_execution, step_of, find_approval,
  find_binding, find_incident, find_plan, plan_status_beq, stored_draft, not_approved, refusal,
  returned,
}
use oncall.Execution.Begin.{
  claim_execution, check_policy, config_of, begin_execution, config_get, follow_decision,
  tool_name_of,
}

-- What the claim of `claim_execution` did to the rows.
pub record IsClaim (incident : Incident) (plan : ActionPlan) (approval : Approval) (c : Claim)
    (now : ℕ) (db db' : Db) : Type 0 where
  pub plan_of : c.plan ≡ plan
  pub approval_of : c.approval ≡ approval
  pub key_of : c.key ≡ idempotency_key plan approval
  pub first : existing_result db (idempotency_key plan approval) ≡ none
  pub id_of : c.execution_id ≡ db.next_id
  pub inserted :
      db'.executions ≡ new_execution db.next_id plan approval (step_of plan db) now ∷ db.executions

claim_execution-IsClaim :
    (incident : Incident) (plan : ActionPlan) (approval : Approval) (tool : String) (tat : Fields)
    (now : ℕ) (db db' : Db) (c : Claim)
    → claim_execution incident plan approval tool tat now db ≡ ok (claimed c, db')
    → IsClaim incident plan approval c now db db'
unfolding claim_execution
claim_execution-IsClaim incident plan approval tool tat now db db' c h = ground (arith)

-- What has been checked when an execution is claimed.
pub record IsAuthorized (incident_id plan_id : ℕ) (c : Claim) (now : ℕ) (db db' : Db) : Type 0 where
  pub incident : Incident
  pub plan : ActionPlan
  pub approval : Approval
  pub found : find_incident incident_id db ≡ some incident
  pub plan_found : find_plan plan_id incident_id db ≡ some plan
  pub approval_found : find_approval plan db ≡ some approval
  pub approved : plan_status_beq plan.status PlanStatus.approved ≡ true
  pub valid : is_valid_draft (stored_draft plan) ≡ true
  pub tencent : is_tencent (config_of (find_binding incident db)) ≡ true
  pub by_human : asks_approval (config_of (find_binding incident db)) ≡ true
  pub project : incident.project_id ≡ plan.rollback.project_id
  pub environment : incident.environment ≡ plan.rollback.environment
  pub service : incident.service ≡ plan.rollback.service
  pub claim : IsClaim incident plan approval c now db db'

-- The policy check of a claim passed, and the claim is for its plan and approval.
record IsChecked (incident : Incident) (plan : ActionPlan) (approval : Approval)
    (binding : Option CloudService) (c : Claim) (now : ℕ) (db db' : Db) : Type 0 where
  decision : PolicyDecision
  decided :
      evaluate_action_plan (stored_draft plan) (some incident) (config_of binding) ≡ ok decision
  allowed : decision.allowed ≡ true
  claim : IsClaim incident plan approval c now db db'

follow_decision-IsClaim :
    (py_str : Value → String) (d : PolicyDecision) (incident : Incident) (plan : ActionPlan)
    (approval : Approval) (config : Option Fields) (now : ℕ) (db db' : Db) (c : Claim)
    → follow_decision py_str d incident plan approval config now db ≡ ok (claimed c, db')
    → (d.allowed ≡ true) × IsClaim incident plan approval c now db db'
unfolding follow_decision
follow_decision-IsClaim py_str d incident plan approval config now db db' c h =
    elim (Bool-cases d.allowed) [
      | inr e ↦ (let h' = rw (e, follow_decision) at h in absurd (cc))
      | inl e ↦ elim (Option-cases (as_dict (config_get "tencent_tat" config))) [
        | inl n ↦ (let h' = rw (e, n, follow_decision) at h in absurd (cc))
        | inr (tat, s) ↦ (
          e,
          claim_execution-IsClaim incident plan approval (tool_name_of py_str config) tat now db db'
              c (rw (e, s, follow_decision) at h),
        )
      ]
    ]

check_policy-IsChecked :
    (py_str : Value → String) (incident : Incident) (plan : ActionPlan) (approval : Approval)
    (binding : Option CloudService) (now : ℕ) (db db' : Db) (c : Claim)
    → check_policy py_str incident plan approval binding now db ≡ ok (claimed c, db')
    → IsChecked incident plan approval binding c now db db'
unfolding check_policy
check_policy-IsChecked py_str incident plan approval binding now db db' c h =
    elim (Outcome-cases
      (evaluate_action_plan (stored_draft plan) (some incident) (config_of binding))) [
        | inr (e, q) ↦ (let h' = rw (q, check_policy) at h in absurd (cc))
        | inl (d, q) ↦
            let (a, claim) =
              follow_decision-IsClaim py_str d incident plan approval (config_of binding) now db db'
                c (rw (q, check_policy) at h) in
            record { decision = d; decided = q; allowed = a; claim = claim }
      ]

-- The last step of `begin_execution`, with what its queries found.
authorize :
    (py_str : Value → String) (incident_id plan_id : ℕ) (incident : Incident) (plan : ActionPlan)
    (approval : Approval) (now : ℕ) (db db' : Db) (c : Claim)
    → find_incident incident_id db ≡ some incident
    → find_plan plan_id incident_id db ≡ some plan
    → find_approval plan db ≡ some approval
    → (if plan_status_beq plan.status PlanStatus.approved
        then check_policy py_str incident plan approval (find_binding incident db) now db
        else ok (returned (refusal not_approved "matching approved plan is required"), db))
      ≡ ok (claimed c, db')
    → IsAuthorized incident_id plan_id c now db db'
authorize py_str incident_id plan_id incident plan approval now db db' c e q r h =
    elim (Bool-cases (plan_status_beq plan.status PlanStatus.approved)) [
      | inr b ↦ (let h' = rw b at h in absurd (cc))
      | inl b ↦
          let k =
            check_policy-IsChecked py_str incident plan approval (find_binding incident db) now db
              db' c (rw b at h) in
          let (valid, tencent, human, project, environment, service) =
            allowed_conditions (stored_draft plan) incident (config_of (find_binding incident db))
              k.decision k.decided k.allowed in
          record {
            incident = incident;
            plan = plan;
            approval = approval;
            found = e;
            plan_found = q;
            approval_found = r;
            approved = b;
            valid = valid;
            tencent = tencent;
            by_human = human;
            project = project;
            environment = environment;
            service = service;
            claim = k.claim;
          }
    ]

-- An execution is claimed only for the stored plan of the incident, when that plan is APPROVED,
-- well formed and for the incident's own project, environment and service, with a matching
-- approval, under an active Tencent TAT binding that asks for human approval; and no execution
-- with its key was there.
pub begin_execution-IsAuthorized :
    (py_str : Value → String) (incident_id plan_id now : ℕ) (db db' : Db) (c : Claim)
    → begin_execution py_str incident_id plan_id now db ≡ ok (claimed c, db')
    → IsAuthorized incident_id plan_id c now db db'
unfolding begin_execution
begin_execution-IsAuthorized py_str incident_id plan_id now db db' c h =
    elim (Option-cases (find_incident incident_id db)) [
      | inl e ↦ (let h' = rw (e, begin_execution) at h in absurd (cc))
      | inr (incident, e) ↦ elim (Option-cases (find_plan plan_id incident_id db)) [
        | inl q ↦ (let h' = rw (e, q, begin_execution) at h in absurd (cc))
        | inr (plan, q) ↦ elim (Option-cases (find_approval plan db)) [
          | inl r ↦ (let h' = rw (e, q, r, begin_execution) at h in absurd (cc))
          | inr (approval, r) ↦
              authorize py_str incident_id plan_id incident plan approval now db db' c e q r
                (rw (e, q, r, begin_execution) at h)
        ]
      ]
    ]
