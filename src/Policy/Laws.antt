-- ===== src/Policy/Laws.antt =====
-- What the policy check decides: src/oncall/policy/engine.py.
use oncall.Prelude.{
  Option, String, false, is_version, nat_eq, ok, some, string_eq, true, ◌==◌, ◌↔◌, ◌≡◌, arith,
  eq_iff, none, refl, ◌≢◌, Bool-cases, inl, inr,
}
use oncall.Json.{Fields}
use oncall.Models.{Incident, Rollback}
use oncall.Graph.Contracts.{ActionPlanDraft, is_valid_draft}
use oncall.Policy.{
  PolicyDecision, asks_approval, evaluate_action_plan, is_tencent, allowed_code,
  invalid_recovery_target, recovery_not_configured, same_scope,
}

version-ne-empty : (s : String) → is_version s ≡ true → (s == "") ≡ false
unfolding is_version
version-ne-empty String.[] h = absurd (cc)
version-ne-empty (String.◌∷◌ c s) h = elim (Bool-cases (String.◌∷◌ c s == "")) [
  | inl e ↦ absurd (cc ((eq_iff (String.◌∷◌ c s) "").0 e))
  | inr e ↦ e
]

versions-ne-empty :
    (plan : ActionPlanDraft)
    → is_valid_draft plan ≡ true
    → ((plan.rollback.current_version == "") ≡ false)
      × ((plan.rollback.target_version == "") ≡ false)
unfolding is_valid_draft
versions-ne-empty plan h = ground (
  arith,
  version-ne-empty plan.rollback.current_version,
  version-ne-empty plan.rollback.target_version,
)

same_scope_iff :
    (r : Rollback) (i : Incident)
    → (same_scope r (some i) ≡ true)
      ↔ ((i.project_id ≡ r.project_id) × (i.environment ≡ r.environment) × (i.service ≡ r.service))
same_scope_iff r i = ground (
  arith,
  eq_iff i.project_id r.project_id,
  eq_iff i.environment r.environment,
  eq_iff i.service r.service,
)

pub allowed_conditions :
    (plan : ActionPlanDraft) (incident : Incident) (config : Option Fields) (d : PolicyDecision)
    → evaluate_action_plan plan (some incident) config ≡ ok d
    → d.allowed ≡ true
    → (is_valid_draft plan ≡ true)
      × (is_tencent config ≡ true)
      × (asks_approval config ≡ true)
      × (incident.project_id ≡ plan.rollback.project_id)
      × (incident.environment ≡ plan.rollback.environment)
      × (incident.service ≡ plan.rollback.service)
unfolding evaluate_action_plan
allowed_conditions plan incident config d e a =
    ground (arith, same_scope_iff plan.rollback incident)

-- A plan passes exactly if it is well formed, the service is bound to Tencent TAT with human
-- approval of rollbacks, and the plan is for the incident's project, environment and service.
pub allowed_iff :
    (plan : ActionPlanDraft) (incident : Incident) (config : Option Fields)
    → ((d : PolicyDecision) × (evaluate_action_plan plan (some incident) config ≡ ok d)
        × (d.allowed ≡ true))
      ↔ ((is_valid_draft plan ≡ true)
          × (is_tencent config ≡ true)
          × (asks_approval config ≡ true)
          × (incident.project_id ≡ plan.rollback.project_id)
          × (incident.environment ≡ plan.rollback.environment)
          × (incident.service ≡ plan.rollback.service))
unfolding evaluate_action_plan
allowed_iff plan incident config = (
  (λ h. allowed_conditions plan incident config h.0 h.1 h.2),
  (λ h. (
    record { allowed = true; reason_code = allowed_code },
    ground (arith, versions-ne-empty plan h.0, same_scope_iff plan.rollback incident),
    refl,
  )),
)

-- With no recovery configuration every well formed plan is refused for that reason.
pub not_configured :
    (plan : ActionPlanDraft) (incident : Option Incident)
    → is_valid_draft plan ≡ true
    → evaluate_action_plan plan incident none
      ≡ ok (record { allowed = false; reason_code = recovery_not_configured })
unfolding evaluate_action_plan
not_configured plan incident v = rw v refl

-- Whatever the arguments, the refusal for an empty version is never given: such a plan is not well
-- formed.
pub never_invalid_target :
    (plan : ActionPlanDraft) (incident : Option Incident) (config : Option Fields)
    (d : PolicyDecision)
    → evaluate_action_plan plan incident config ≡ ok d
    → d.reason_code ≢ invalid_recovery_target
unfolding evaluate_action_plan
never_invalid_target plan incident config d h = ground (arith, versions-ne-empty plan)
