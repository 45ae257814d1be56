-- ===== src/Execution/Workflow.antt =====
-- The durable verification step: src/oncall/execution/workflow.py. A call is two transactions with
-- the query of `Execution.Verification` between them.
use Prim.Native.String.{◌++◌ as concat}
use mathlib.Core.List.{reverse}
use oncall.Prelude.{
  ℕ, Bool, List, Option, Outcome, String, [], all, false, find, if◌then◌else◌, map, nat_eq, none,
  not, ok, select, some, string_eq, true, ◌&&◌, ◌==◌, ◌>>=◌, ◌∷◌, raised,
}
use oncall.Json.{Fields, end, field, text, uuid}
use oncall.Models.{
  ActionPlan, Conclusion, Db, Execution, ExecutionStatus, Incident, VerificationCheck,
  append_audit_event,
}
use oncall.Incidents.State.{IncidentStatus, StateError, ensure_transition, member, status_eq, value}
use oncall.Execution.Service.{find_incident, find_plan, set_incident_status}
use oncall.Execution.Verification.{status_text}

pub record VerificationOutcome : Type 0 where
  pub status : IncidentStatus
  pub passed : Bool
  pub checks : List Fields
  pub reason : Option String

abbrev pub needs_human : String → VerificationOutcome
needs_human reason = record {
  status = IncidentStatus.need_human;
  passed = false;
  checks = [];
  reason = some reason;
}

unfoldable pub find_execution : ℕ → ℕ → Db → Option Execution
unfolding find
find_execution execution_id plan_id db =
    find (λ x. x.id == execution_id && x.action_plan_id == plan_id) db.executions

-- `_persisted_checks`: the rows are kept with the newest first, and are read oldest first.
unfoldable pub persisted_checks : ℕ → Db → List VerificationCheck
unfolding select
persisted_checks execution_id db = reverse (select (λ c. c.execution_id == execution_id) db.checks)

-- `_checks_payload`
abbrev pub row_dict : VerificationCheck → Fields
row_dict c =
    field "name" (text c.name) (field "status" (text (status_text c.status)) c.observed_value)

abbrev pub is_passed : VerificationCheck → Bool
is_passed c = elim c.conclusion [ Conclusion.passed ↦ true | Conclusion.failed ↦ false ]

-- `existing[-1].reason`
abbrev pub last_reason : List VerificationCheck → Option String
last_reason [] = none
last_reason (c ∷ []) = c.reason
last_reason (c ∷ d ∷ rest) = last_reason (d ∷ rest)

-- The outcome that the stored checks stand for.
abbrev pub stored_outcome : Incident → List VerificationCheck → VerificationOutcome
stored_outcome incident existing = record {
  status = incident.status;
  passed = incident.status == IncidentStatus.resolved && all is_passed existing;
  checks = map row_dict existing;
  reason = last_reason existing;
}

-- What leaves a transaction: an illegal transition, or the database's refusal of a value that its column
-- has no room for.
pub data VerificationError : Type 0 where
  illegal_transition : StateError → VerificationError
  data_error : VerificationError

-- `ensure_transition`
abbrev pub transition : IncidentStatus → IncidentStatus → Outcome VerificationError IncidentStatus
transition from target = elim (ensure_transition (member from) (member target)) [
  | raised e ↦ raised (illegal_transition e)
  | ok status ↦ ok status
]

pub data Started : Type 0 where
  settled : VerificationOutcome → Started
  verifying : Incident → ActionPlan → Execution → Started

abbrev pub execution_status_text : ExecutionStatus → String
execution_status_text ExecutionStatus.running = "RUNNING"
execution_status_text ExecutionStatus.succeeded = "SUCCEEDED"
execution_status_text ExecutionStatus.failed = "FAILED"
execution_status_text ExecutionStatus.unknown = "UNKNOWN"

abbrev pub has_succeeded : ExecutionStatus → Bool
has_succeeded ExecutionStatus.succeeded = true
has_succeeded _ = false

-- The transition to VERIFYING, or the refusal to start.
unfoldable pub enter_verifying :
    Incident → ActionPlan → Execution → Db → Outcome VerificationError (Started × Db)
unfolding append_audit_event value ensure_transition
enter_verifying incident plan execution db =
    if incident.status == IncidentStatus.executing
    then (do
      target ← transition incident.status IncidentStatus.verifying
      ok (
        verifying (record incident { status = target }) plan execution,
        append_audit_event (some incident.id) "incident.recovery_executed"
            (field "from" (text (value incident.status)) (
              field "to" (text (value target)) (
                field "execution_id" (uuid execution.id)
                  (field "action_plan_id" (uuid plan.id) end))))
            "langgraph:verify_recovery" (set_incident_status incident.id target db),
      ))
    else if incident.status == IncidentStatus.verifying
    then ok (verifying incident plan execution, db)
    else ok (
      settled (
          needs_human (
            concat "Recovery verification cannot start from incident status "
              (concat (value incident.status) "."))),
      db,
    )

abbrev not_loaded : VerificationOutcome
not_loaded = needs_human "The executed incident plan could not be loaded for verification."

-- The first transaction.
unfoldable pub begin_verification : ℕ → ℕ → ℕ → Db → Outcome VerificationError (Started × Db)
begin_verification incident_id plan_id execution_id db = elim (find_incident incident_id db) [
  | none ↦ ok (settled not_loaded, db)
  | some incident ↦ elim (find_plan plan_id incident_id db) [
    | none ↦ ok (settled not_loaded, db)
    | some plan ↦ elim (find_execution execution_id plan_id db) [
      | none ↦ ok (settled not_loaded, db)
      | some execution ↦
          if not (has_succeeded execution.status)
          then ok (
            settled (
                needs_human (
                  concat "Execution ended as " (
                    concat (execution_status_text execution.status)
                      "; verification was not started."))),
            db,
          )
          else elim (persisted_checks execution_id db) [
            | [] ↦ enter_verifying incident plan execution db
            | c ∷ cs ↦ ok (settled (stored_outcome incident (c ∷ cs)), db)
          ]
    ]
  ]
]
