-- ===== src/Tests/State.antt =====
-- The theorems on the lifecycle and the policy at concrete inputs.
use oncall.Tests.Data.{plan_at, config, incident_at, rollback}
use oncall.Policy.Laws.{allowed_iff}
use oncall.Execution.Service.{stored_draft}
use oncall.Graph.Contracts.{is_valid_draft}
use oncall.Policy.{evaluate_action_plan, PolicyDecision, asks_approval, is_tencent}
use oncall.Incidents.State.{
  IncidentStatus, coerce_status, ensure_transition, executing, planning, verifying,
  waiting_approval,
}
use oncall.Models.{PlanStatus}
use oncall.Prelude.{arith, ok, refl, some, true, ◌↔◌, ◌≡◌}
use oncall.Incidents.State.Paths.{Reach, here, Reach-resolved, next, step}

Reach-resolved_example : Reach planning IncidentStatus.resolved
Reach-resolved_example = Reach-resolved planning (λ t. ground arith)

verified_run : Reach executing IncidentStatus.resolved
unfolding ensure_transition coerce_status
verified_run = next {b = verifying} (next here (step refl)) (step refl)

allowed_iff_example :
    ((d : PolicyDecision) × (evaluate_action_plan
          (stored_draft (plan_at PlanStatus.approved))
          (some (incident_at waiting_approval))
          (some config)
        ≡ ok d)
      × (d.allowed ≡ true))
    ↔ ((is_valid_draft (stored_draft (plan_at PlanStatus.approved)) ≡ true)
        × (is_tencent (some config) ≡ true)
        × (asks_approval (some config) ≡ true)
        × ((incident_at waiting_approval).project_id ≡ rollback.project_id)
        × ((incident_at waiting_approval).environment ≡ rollback.environment)
        × ((incident_at waiting_approval).service ≡ rollback.service))
allowed_iff_example =
    allowed_iff (stored_draft (plan_at PlanStatus.approved)) (incident_at waiting_approval)
      (some config)
