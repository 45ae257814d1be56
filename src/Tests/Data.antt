-- ===== src/Tests/Data.antt =====
-- Tables with one incident, its plan, its approval and the binding of its service.
use oncall.Prelude.{String, none, List, Outcome, [], ok, raised, true, ◌∷◌}
use oncall.Json.{Fields, dict, end, field, text}
use oncall.Models.{Db, PlanStatus, Decision, ActionPlan, Approval, Execution, Incident, Rollback}
use oncall.Incidents.State.{IncidentStatus}

abbrev pub rollback : Rollback
rollback = record {
  project_id = "shop";
  environment = "prod";
  service = "cart";
  current_version = "v2";
  target_version = "v1";
}

abbrev pub hash64 : String
hash64 = "aaaaaaaaaaaaaaaaaaaaaaaaaaaaaaaaaaaaaaaaaaaaaaaaaaaaaaaaaaaaaaaa"

abbrev pub incident_at : IncidentStatus → Incident
incident_at s = record {
  id = 1;
  title = "errors";
  status = s;
  project_id = "shop";
  environment = "prod";
  service = "cart";
  correlation_key = "k";
  summary = none;
  opened_at = 0;
  resolved_at = none;
}

abbrev pub plan_at : PlanStatus → ActionPlan
plan_at s = record {
  id = 2;
  incident_id = 1;
  graph_run_id = "run";
  version = 1;
  summary = "roll back";
  risk_level = "low";
  prerequisites = [];
  rollback = rollback;
  verification_criteria = "no errors" ∷ [];
  plan_hash = hash64;
  status = s;
}

abbrev pub approval : Approval
approval = record {
  id = 3;
  action_plan_id = 2;
  action_plan_hash = hash64;
  user_id = 7;
  decision = Decision.approved;
  comment = none;
  decided_at = 5;
}

abbrev pub config : Fields
config = field "provider" (text "tencent_tat") (
    field "action_policy" (dict (field "rollback_release" (text "approval") end))
      (field "tencent_tat" (dict end) end))

abbrev pub db_with : IncidentStatus → PlanStatus → List Approval → List Execution → Db
db_with s p approvals executions = record {
  next_id = 10;
  projects = record { id = 4; project_id = "shop"; active = true } ∷ [];
  services =
      record {
        id = 5;
        cloud_project_id = 4;
        environment = "prod";
        service = "cart";
        recovery_config = config;
        active = true;
      }
      ∷ [];
  raw_events = [];
  alerts = [];
  incidents = incident_at s ∷ [];
  incident_alerts = [];
  plans = plan_at p ∷ [];
  steps = [];
  approvals = approvals;
  executions = executions;
  checks = [];
  audit = [];
}

-- The value of a call that returns.
abbrev pub value_or {ℓ} : {E : Type 0} {A : Type ℓ} → A → Outcome E A → A
value_or a (ok r) = r
value_or a (raised e) = a
