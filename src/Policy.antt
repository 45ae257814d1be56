-- ===== src/Policy.antt =====
-- The policy check of a recovery plan: src/oncall/policy/engine.py and src/oncall/policy/schemas.py.
-- The messages to the user are not modelled; the reason codes are.
pub mod Laws
use oncall.Prelude.{
  ℕ, Bool, Option, Outcome, false, if◌then◌else◌, nat_eq, none, not, ok, raised, some, string_eq,
  true, ◌&&◌, ◌==◌, ◌||◌,
}
use oncall.Json.{Fields, as_dict, get, is_text}
use oncall.Models.{Incident, Rollback}
use oncall.Graph.Contracts.{ActionPlanDraft, is_valid_draft}

pub data ReasonCode : Type 0 where
  recovery_not_configured recovery_approval_required incident_scope_mismatch : ReasonCode
  invalid_recovery_target allowed_code : ReasonCode

pub record PolicyDecision : Type 0 where
  pub allowed : Bool
  pub reason_code : ReasonCode

pub data ValidationError : Type 0 where
  invalid_draft : ValidationError

-- `recovery_config is not None and recovery_config.get("provider") == "tencent_tat"`
abbrev pub is_tencent : Option Fields → Bool
is_tencent none = false
is_tencent (some config) = is_text "tencent_tat" (get "provider" config)

-- `recovery_config.get("action_policy", {})` asks for a human approval
abbrev pub asks_approval : Option Fields → Bool
asks_approval none = false
asks_approval (some config) = elim (as_dict (get "action_policy" config)) [
  | none ↦ false
  | some policy ↦ is_text "approval" (get "rollback_release" policy)
]

abbrev pub same_scope : Rollback → Option Incident → Bool
same_scope r none = true
same_scope r (some i) =
    i.project_id == r.project_id && (i.environment == r.environment && i.service == r.service)

abbrev deny : ReasonCode → PolicyDecision
deny code = record { allowed = false; reason_code = code }

unfoldable pub evaluate_action_plan :
    ActionPlanDraft → Option Incident → Option Fields → Outcome ValidationError PolicyDecision
evaluate_action_plan plan incident recovery_config =
    if not (is_valid_draft plan)
    then raised invalid_draft
    else if not (is_tencent recovery_config)
    then ok (deny recovery_not_configured)
    else if not (asks_approval recovery_config)
    then ok (deny recovery_approval_required)
    else if not (same_scope plan.rollback incident)
    then ok (deny incident_scope_mismatch)
    else if plan.rollback.current_version == "" || plan.rollback.target_version == ""
    then ok (deny invalid_recovery_target)
    else ok (record { allowed = true; reason_code = allowed_code })
