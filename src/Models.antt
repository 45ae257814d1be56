-- ===== src/Models.antt =====
-- The rows of src/oncall/models.py. A UUID and a point in time (in microseconds) are numbers; a
-- status column is a data type with the values that the source writes to it.
use oncall.Prelude.{ℕ, Bool, List, Option, String, ◌∷◌}
use oncall.Json.{Value, Fields}
use oncall.Incidents.State.{IncidentStatus}

pub data AlertStatus : Type 0 where
  firing resolved : AlertStatus

pub data PlanStatus : Type 0 where
  draft pending_approval approved rejected executed : PlanStatus

pub data Decision : Type 0 where
  approved rejected : Decision

pub data ExecutionStatus : Type 0 where
  running succeeded failed unknown : ExecutionStatus

-- The column holds the name in upper case, the payloads show it in lower case.
pub data CheckStatus : Type 0 where
  passed failed unavailable : CheckStatus

pub data Conclusion : Type 0 where
  passed failed : Conclusion

pub record CloudProject : Type 0 where
  pub id : ℕ
  pub project_id : String
  pub active : Bool

pub record CloudService : Type 0 where
  pub id : ℕ
  pub cloud_project_id : ℕ
  pub environment : String
  pub service : String
  pub recovery_config : Fields
  pub active : Bool

pub record RawAlertEvent : Type 0 where
  pub id : ℕ
  pub source : String
  pub project_id : String
  pub payload : Fields
  pub received_at : ℕ

pub record Alert : Type 0 where
  pub id : ℕ
  pub raw_event_id : ℕ
  pub source : String
  pub fingerprint : String
  pub project_id : String
  pub environment : String
  pub service : String
  pub alert_name : String
  pub severity : String
  pub status : AlertStatus
  pub correlation_key : String
  pub labels : Fields
  pub annotations : Fields
  pub starts_at : ℕ
  pub ends_at : Option ℕ
  pub last_seen : ℕ
  pub occurrence_count : ℕ

pub record Incident : Type 0 where
  pub id : ℕ
  pub title : String
  pub status : IncidentStatus
  pub project_id : String
  pub environment : String
  pub service : String
  pub correlation_key : String
  pub summary : Option Value
  pub opened_at : ℕ
  pub resolved_at : Option ℕ

pub record IncidentAlert : Type 0 where
  pub incident_id : ℕ
  pub alert_id : ℕ

-- `ActionPlan.rollback`, the dump of a `RollbackReleaseAction`
pub record Rollback : Type 0 where
  pub project_id : String
  pub environment : String
  pub service : String
  pub current_version : String
  pub target_version : String

pub record ActionPlan : Type 0 where
  pub id : ℕ
  pub incident_id : ℕ
  pub graph_run_id : String
  pub version : ℕ
  pub summary : String
  pub risk_level : String
  pub prerequisites : List String
  pub rollback : Rollback
  pub verification_criteria : List String
  pub plan_hash : String
  pub status : PlanStatus

pub record ActionStep : Type 0 where
  pub id : ℕ
  pub action_plan_id : ℕ
  pub sequence : ℕ
  pub tool_name : String

pub record Approval : Type 0 where
  pub id : ℕ
  pub action_plan_id : ℕ
  pub action_plan_hash : String
  pub user_id : ℕ
  pub decision : Decision
  pub comment : Option String
  pub decided_at : ℕ

-- `Execution.idempotency_key`: `rollback:{plan.id}:{plan.plan_hash}:{approval.id}`
pub record IdempotencyKey : Type 0 where
  pub plan_id : ℕ
  pub plan_hash : String
  pub approval_id : ℕ

pub record Execution : Type 0 where
  pub id : ℕ
  pub action_plan_id : ℕ
  pub action_step_id : Option ℕ
  pub idempotency_key : IdempotencyKey
  pub status : ExecutionStatus
  pub tool_name : String
  pub response : Option Value
  pub started_at : ℕ
  pub completed_at : Option ℕ
  pub error : Option String

pub record VerificationCheck : Type 0 where
  pub id : ℕ
  pub incident_id : ℕ
  pub execution_id : ℕ
  pub name : String
  pub status : CheckStatus
  pub observed_value : Fields
  pub conclusion : Conclusion
  pub reason : Option String
  pub checked_at : ℕ

pub record AuditEvent : Type 0 where
  pub incident_id : Option ℕ
  pub event_type : String
  pub payload : Fields
  pub actor : String

-- The tables. `next_id` is what the next `uuid4()` returns: a value that no row has.
pub record Db : Type 0 where
  pub next_id : ℕ
  pub projects : List CloudProject
  pub services : List CloudService
  pub raw_events : List RawAlertEvent
  pub alerts : List Alert
  pub incidents : List Incident
  pub incident_alerts : List IncidentAlert
  pub plans : List ActionPlan
  pub steps : List ActionStep
  pub approvals : List Approval
  pub executions : List Execution
  pub checks : List VerificationCheck
  pub audit : List AuditEvent

-- `append_audit_event`: the row that the caller's transaction stages.
unfoldable pub append_audit_event : Option ℕ → String → Fields → String → Db → Db
append_audit_event incident event_type payload actor db = record db {
  audit =
      record { incident_id = incident; event_type = event_type; payload = payload; actor = actor }
      ∷ db.audit;
}
