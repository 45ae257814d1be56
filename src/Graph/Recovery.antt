-- ===== src/Graph/Recovery.antt =====
-- What has happened when the graph ends as resolved: src/oncall/graph/incident.py.
use oncall.Execution.Service.{ExecutionResult}
use oncall.Json.{Value, Fields, dict, get, is_text}
use oncall.Graph.Contracts.{ActionPlanDraft}
use oncall.Prelude.{
  ℕ, Option, Option-cases, Outcome, Outcome-cases, String, arith, false, inl, inr, nat_eq, none, ok,
  refl, some, string_eq, true, ◌==◌, ◌≡◌, Bool-cases,
}
use oncall.Incidents.State.{IncidentStatus, status_eq, status_beq_iff}
use oncall.Execution.Workflow.{VerificationOutcome}
use oncall.Graph.Incident.{
  GraphState, approval_boundary, approved_ids, execute, is_succeeded, execution_id_of, resume,
  verify, may_verify,
}

module _ (stable_hash : ActionPlanDraft → String) (parse_uuid : Value → Option ℕ) where
  -- The resumed value is an approval of the state's plan.
  pub record IsApproved (response : Value) (s : GraphState) : Type 0 where
    pub draft : ActionPlanDraft
    pub planned : s.action_plan ≡ some draft
    pub answer : Fields
    pub answered : response ≡ dict answer
    pub decided : is_text "APPROVED" (get "decision" answer) ≡ true
    pub same_plan : is_text (stable_hash draft) (get "action_plan_hash" answer) ≡ true

  approval_boundary-IsApproved :
      (response : Value) (s : GraphState)
      → (s.status == IncidentStatus.executing) ≡ false
      → (approval_boundary stable_hash parse_uuid response s).status ≡ IncidentStatus.executing
      → IsApproved response s
        × ((approval_boundary stable_hash parse_uuid response s).incident_id ≡ s.incident_id)
  unfolding approval_boundary
  approval_boundary-IsApproved (dict d) s f h = elim (Option-cases s.action_plan) [
    | inl e ↦ absurd (ground arith)
    | inr e ↦ (
      record {
        draft = e.0;
        planned = e.1;
        answer = d;
        answered = refl;
        decided = ground arith;
        same_plan = ground arith;
      },
      ground arith,
    )
  ]
  approval_boundary-IsApproved v s f h = absurd (ground (arith))

  module _ {W : Type 0} (execute_plan : ℕ → ℕ → W → Outcome String ExecutionResult × W)
      (verify_plan : ℕ → ℕ → ℕ → W → Outcome String VerificationOutcome × W) where
    -- The execution succeeded.
    record IsExecuted (s s' : GraphState) (w w' : W) : Type 0 where
      plan_id : ℕ
      ids : approved_ids stable_hash parse_uuid s ≡ ok (s.incident_id, plan_id)
      result : ExecutionResult
      ran : execute_plan s.incident_id plan_id w ≡ (ok result, w')
      succeeded : is_succeeded result.status ≡ true
      now : s' ≡ record s {
        status = IncidentStatus.verifying;
        execution_result = some result;
        need_human_reason = none;
      }

    execute-IsExecuted :
        (s s' : GraphState) (w w' : W)
        → execute stable_hash parse_uuid execute_plan verify_plan s w ≡ (s', w')
        → s'.status ≡ IncidentStatus.verifying
        → IsExecuted s s' w w'
    unfolding execute approved_ids
    execute-IsExecuted s s' w w' h v =
        elim (Outcome-cases (approved_ids stable_hash parse_uuid s)) [
          | inr e ↦ absurd (ground arith)
          | inl e ↦ elim (Outcome-cases (execute_plan e.0.0 e.0.1 w).0) [
            | inr r ↦ absurd (ground arith)
            | inl r ↦ record {
              plan_id = e.0.1;
              ids = ground arith;
              result = r.0;
              ran = ground arith;
              succeeded = ground arith;
              now = ground arith;
            }
          ]
        ]

    -- The verification passed.
    record IsVerified (s s' : GraphState) (execution_id : ℕ) (w w' : W) : Type 0 where
      plan_id : ℕ
      ids : approved_ids stable_hash parse_uuid s ≡ ok (s.incident_id, plan_id)
      outcome : VerificationOutcome
      ran : verify_plan s.incident_id plan_id execution_id w ≡ (ok outcome, w')
      resolved : outcome.status ≡ IncidentStatus.resolved
      passed : outcome.passed ≡ true

    verify-IsVerified :
        (s s' : GraphState) (execution_id : ℕ) (w w' : W)
        → execution_id_of s.execution_result ≡ ok execution_id
        → verify stable_hash parse_uuid execute_plan verify_plan s w ≡ (s', w')
        → s'.status ≡ IncidentStatus.resolved
        → IsVerified s s' execution_id w w'
    unfolding verify approved_ids
    verify-IsVerified s s' execution_id w w' x h v =
        elim (Outcome-cases (approved_ids stable_hash parse_uuid s)) [
          | inr e ↦ absurd (ground arith)
          | inl e ↦ elim (Outcome-cases (verify_plan e.0.0 e.0.1 execution_id w).0) [
            | inr r ↦ absurd (ground arith)
            | inl r ↦ record {
              plan_id = e.0.1;
              ids = ground arith;
              outcome = r.0;
              ran = ground arith;
              resolved = ground (arith, status_beq_iff r.0.status IncidentStatus.resolved);
              passed = ground arith;
            }
          ]
        ]

    -- What a graph that ends as resolved has done.
    pub record IsRecovery (response : Value) (s : GraphState) (w w' : W) : Type 0 where
      pub approved : IsApproved response s
      pub plan_id : ℕ
      pub execution_id : ℕ
      pub result : ExecutionResult
      pub between : W
      pub executed_once : execute_plan s.incident_id plan_id w ≡ (ok result, between)
      pub succeeded : is_succeeded result.status ≡ true
      pub identified : result.execution_id ≡ some execution_id
      pub outcome : VerificationOutcome
      pub verified_once : verify_plan s.incident_id plan_id execution_id between ≡ (ok outcome, w')
      pub resolved : outcome.status ≡ IncidentStatus.resolved
      pub passed : outcome.passed ≡ true

    may_verify-id :
        (s : GraphState)
        → may_verify s ≡ true
        → (s.status ≡ IncidentStatus.verifying)
          × ((n : ℕ) × (execution_id_of s.execution_result ≡ ok n))
    may_verify-id s h = elim (Option-cases s.execution_result) [
      | inl e ↦ absurd (ground arith)
      | inr e ↦ elim (Option-cases e.0.execution_id) [
        | inl x ↦ absurd (ground arith)
        | inr x ↦
            (ground (arith, status_beq_iff s.status IncidentStatus.verifying), (x.0, ground arith))
      ]
    ]

    -- The first step was taken, and its outcome may be verified.
    resume-executes :
        (response : Value) (s s' : GraphState) (w w' : W)
        → resume stable_hash parse_uuid execute_plan verify_plan response s w ≡ (s', w')
        → s'.status ≡ IncidentStatus.resolved
        → let decided = approval_boundary stable_hash parse_uuid response s in
          let r = execute stable_hash parse_uuid execute_plan verify_plan decided w in
          let v = verify stable_hash parse_uuid execute_plan verify_plan r.0 r.1 in
          (decided.status ≡ IncidentStatus.executing)
          × (may_verify r.0 ≡ true)
          × (v.0.status ≡ IncidentStatus.resolved)
          × (v.1 ≡ w')
    unfolding resume
    resume-executes response s s' w w' h v =
        let decided = approval_boundary stable_hash parse_uuid response s in
        elim (Bool-cases (decided.status == IncidentStatus.executing)) [
          | inr e ↦ absurd (ground arith)
          | inl e ↦
              let r = execute stable_hash parse_uuid execute_plan verify_plan decided w in
              let x = verify stable_hash parse_uuid execute_plan verify_plan r.0 r.1 in
              (
                ground (arith, status_beq_iff decided.status IncidentStatus.executing),
                ground arith,
                ground (arith, status_beq_iff x.0.status IncidentStatus.resolved),
                ground arith,
              )
        ]

    combine :
        (response : Value) (s decided s1 s2 : GraphState) (w w1 w' : W) (execution_id : ℕ)
        → IsApproved response s
        → decided.incident_id ≡ s.incident_id
        → execution_id_of s1.execution_result ≡ ok execution_id
        → IsExecuted decided s1 w w1
        → IsVerified s1 s2 execution_id w1 w'
        → IsRecovery response s w w'
    unfolding approved_ids
    combine response s decided s1 s2 w w1 w' execution_id approved same_id id e c =
        let same_plan : e.plan_id ≡ c.plan_id = ground (arith, e.ids, c.ids, e.now) in
        let same_incident : s1.incident_id ≡ s.incident_id = ground (arith, e.now) in
        record {
          approved = approved;
          plan_id = e.plan_id;
          execution_id = execution_id;
          result = e.result;
          between = w1;
          executed_once = rw (← same_id) e.ran;
          succeeded = e.succeeded;
          identified = ground (arith, e.now);
          outcome = c.outcome;
          verified_once = rw (same_plan, ← same_incident) c.ran;
          resolved = c.resolved;
          passed = c.passed;
        }

    -- If the resumed graph ends as resolved, from a state that was not executing, then it was resumed
    -- with an approval of its own plan, the one execution it called returned as succeeded with an id,
    -- and the one verification it called, of that execution, returned as resolved and passed.
    pub resume-IsRecovery :
        (response : Value) (s s' : GraphState) (w w' : W)
        → (s.status == IncidentStatus.executing) ≡ false
        → resume stable_hash parse_uuid execute_plan verify_plan response s w ≡ (s', w')
        → s'.status ≡ IncidentStatus.resolved
        → IsRecovery response s w w'
    resume-IsRecovery response s s' w w' f h v =
        let decided = approval_boundary stable_hash parse_uuid response s in
        let r = execute stable_hash parse_uuid execute_plan verify_plan decided w in
        let (deciding, may, ends, last) = resume-executes response s s' w w' h v in
        let (approved, same_id) = approval_boundary-IsApproved response s f deciding in
        let (starts, verifiable) = may_verify-id r.0 may in
        let x = verify stable_hash parse_uuid execute_plan verify_plan r.0 r.1 in
        combine response s decided r.0 x.0 w r.1 w' verifiable.0 approved same_id verifiable.1
          (execute-IsExecuted decided r.0 w r.1 refl starts)
          (verify-IsVerified r.0 x.0 verifiable.0 r.1 w' verifiable.1 (λ i. (x.0, last i)) ends)
