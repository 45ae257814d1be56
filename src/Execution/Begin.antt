-- ===== src/Execution/Begin.antt =====
-- The first transaction of `execute_approved_plan` of src/oncall/execution/service.py: the checks,
-- and the insert that claims the execution.
use oncall.Prelude.{
  ℕ, Option, Outcome, String, if◌then◌else◌, nat_eq, none, ok, raised, some, string_eq, suc, ◌==◌,
  ◌∷◌,
}
use oncall.Json.{Fields, Value, as_dict, get, text}
use oncall.Models.{Db, ActionPlan, Approval, CloudService, Incident, PlanStatus}
use oncall.Incidents.State.{IncidentStatus, ensure_transition, status_eq, member}
use oncall.Policy.{
  ReasonCode, allowed_code, evaluate_action_plan, incident_scope_mismatch, invalid_recovery_target,
  recovery_approval_required, recovery_not_configured, PolicyDecision,
}
use oncall.Execution.Service.{
  Begun, Claim, ExecutionError, claimed, denied, existing_result, find_approval, find_binding,
  find_incident, find_plan, idempotency_key, new_execution, not_approved, not_found, plan_error,
  plan_status_beq, refusal, returned, set_incident_status, step_of, stored_draft, transition_error,
}

-- The insert, with its conflict, and the commit.
unfoldable pub claim_execution :
    Incident
    → ActionPlan
    → Approval
    → String
    → Fields
    → ℕ
    → Db
    → Outcome ExecutionError (Begun × Db)
claim_execution incident plan approval tool_name tat now db =
    elim (existing_result db (idempotency_key plan approval)) [
      | some result ↦ ok (returned result, db)
      | none ↦
          let inserted : Db = record db {
            next_id = suc db.next_id;
            executions =
                new_execution db.next_id plan approval (step_of plan db) now ∷ db.executions;
          } in
          let claim : Claim = record {
            execution_id = db.next_id;
            key = idempotency_key plan approval;
            plan = plan;
            approval = approval;
            tool_name = tool_name;
            tencent_tat = tat;
          } in
          if incident.status == IncidentStatus.waiting_approval
          then elim (ensure_transition (member incident.status) (member IncidentStatus.executing)) [
            | raised e ↦ raised (transition_error e)
            | ok target ↦ ok (claimed claim, set_incident_status incident.id target inserted)
          ]
          else ok (claimed claim, inserted)
    ]

abbrev pub config_get : String → Option Fields → Option Value
config_get key none = none
config_get key (some config) = get key config

-- `str(service_config.get("tool_name", ...))`: a name that is no text is `str` of it, which the
-- parameter `py_str` stands for.
abbrev pub tool_name_of : (Value → String) → Option Fields → String
tool_name_of py_str config = elim (config_get "tool_name" config) [
  | none ↦ "rollback_release"
  | some (text t) ↦ t
  | some other ↦ py_str other
]

abbrev pub code_text : ReasonCode → String
code_text recovery_not_configured = "RECOVERY_NOT_CONFIGURED"
code_text recovery_approval_required = "RECOVERY_APPROVAL_REQUIRED"
code_text incident_scope_mismatch = "INCIDENT_SCOPE_MISMATCH"
code_text invalid_recovery_target = "INVALID_RECOVERY_TARGET"
code_text allowed_code = "ALLOWED"

abbrev pub config_of : Option CloudService → Option Fields
config_of none = none
config_of (some binding) = some binding.recovery_config

-- What follows the decision of the policy check.
unfoldable pub follow_decision :
    (Value → String)
    → PolicyDecision
    → Incident
    → ActionPlan
    → Approval
    → Option Fields
    → ℕ
    → Db
    → Outcome ExecutionError (Begun × Db)
follow_decision py_str decision incident plan approval config now db =
    if decision.allowed
    then (elim (as_dict (config_get "tencent_tat" config)) [
      | none ↦ ok (returned (refusal denied "Tencent TAT recovery configuration is required"), db)
      | some tat ↦ claim_execution incident plan approval (tool_name_of py_str config) tat now db
    ])
    else ok (returned (refusal denied (code_text decision.reason_code)), db)

-- The policy check and what depends on the binding's configuration.
unfoldable pub check_policy :
    (Value → String)
    → Incident
    → ActionPlan
    → Approval
    → Option CloudService
    → ℕ
    → Db
    → Outcome ExecutionError (Begun × Db)
check_policy py_str incident plan approval binding now db =
    let config = config_of binding in
    elim (evaluate_action_plan (stored_draft plan) (some incident) config) [
      | raised e ↦ raised (plan_error e)
      | ok decision ↦ follow_decision py_str decision incident plan approval config now db
    ]

-- The first transaction of `execute_approved_plan`.
unfoldable pub begin_execution :
    (Value → String) → ℕ → ℕ → ℕ → Db → Outcome ExecutionError (Begun × Db)
begin_execution py_str incident_id plan_id now db = elim (find_incident incident_id db) [
  | none ↦ ok (returned (refusal not_found "incident or plan not found"), db)
  | some incident ↦ elim (find_plan plan_id incident_id db) [
    | none ↦ ok (returned (refusal not_found "incident or plan not found"), db)
    | some plan ↦ elim (find_approval plan db) [
      | none ↦ ok (returned (refusal not_approved "matching approved plan is required"), db)
      | some approval ↦
          if plan_status_beq plan.status PlanStatus.approved
          then check_policy py_str incident plan approval (find_binding incident db) now db
          else ok (returned (refusal not_approved "matching approved plan is required"), db)
    ]
  ]
]
