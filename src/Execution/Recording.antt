-- ===== src/Execution/Recording.antt =====
-- The second transaction of `verify_executed_plan` and the whole call: src/oncall/execution/
-- workflow.py.
use oncall.Prelude.{
  ℕ, Bool, List, Option, Outcome, String, [], false, find, if◌then◌else◌, map, nat_eq, none, ok,
  some, string_eq, suc, update_first, ◌&&◌, ◌==◌, ◌>>=◌, ◌∷◌, any, ltb, raised, size,
}
use oncall.Json.{Fields, Value, boolean, end, field, null, text, uuid}
use oncall.Models.{Db, ActionPlan, Conclusion, Incident, PlanStatus, append_audit_event}
use oncall.Incidents.State.{IncidentStatus, status_eq, value}
use oncall.Execution.Service.{find_incident, find_plan, set_incident_status}
use oncall.Execution.Verification.{
  Logs, Check, VerificationResult, check_dict, check_name, check_status, observed_value,
  verify_recovery,
}
use oncall.Execution.Workflow.{
  Started, VerificationOutcome, begin_verification, persisted_checks, settled, stored_outcome,
  VerificationError, data_error, transition,
}

-- One row for each check of the result.
abbrev pub new_checks : ℕ → ℕ → ℕ → VerificationResult → List Check → Db → Db
new_checks incident_id execution_id now verification [] db = db
new_checks incident_id execution_id now verification (c ∷ cs) db =
    new_checks incident_id execution_id now verification cs (record db {
      next_id = suc db.next_id;
      checks =
          record {
            id = db.next_id;
            incident_id = incident_id;
            execution_id = execution_id;
            name = check_name c;
            status = check_status c;
            observed_value = observed_value c;
            conclusion = if verification.passed then Conclusion.passed else Conclusion.failed;
            reason = verification.reason;
            checked_at = now;
          }
          ∷ db.checks;
    })

abbrev resolve_row : IncidentStatus → ℕ → Incident → Incident
resolve_row target now i = record i { status = target; resolved_at = some now }

abbrev execute_row : ActionPlan → ActionPlan
execute_row p = record p { status = PlanStatus.executed }

-- `incident.resolved`, with the plan's last status
unfoldable pub resolve : ℕ → IncidentStatus → ℕ → ℕ → Db → Db
resolve incident_id target plan_id now db = record db {
  incidents = update_first (λ i. i.id == incident_id) (resolve_row target now) db.incidents;
  plans = update_first (λ p. p.id == plan_id && p.incident_id == incident_id) execute_row db.plans;
}

-- The incident's new status, the tables, and the event's name.
unfoldable pub conclude :
    Incident → ℕ → Bool → ℕ → Db → Outcome VerificationError (IncidentStatus × Db × String)
conclude incident plan_id clean now db =
    if clean && incident.status == IncidentStatus.verifying
    then (do
      target ← transition incident.status IncidentStatus.resolved
      ok (target, resolve incident.id target plan_id now db, "incident.resolved"))
    else if incident.status == IncidentStatus.verifying
    then (do
      target ← transition incident.status IncidentStatus.need_human
      ok (target, set_incident_status incident.id target db, "incident.verification_failed"))
    else ok (incident.status, db, "incident.verification_recorded")

abbrev optional_text : Option String → Value
optional_text none = null
optional_text (some s) = text s

abbrev outcome_payload : IncidentStatus → IncidentStatus → ℕ → VerificationResult → Fields
outcome_payload previous target execution_id verification = field "from" (text (value previous)) (
    field "to" (text (value target)) (
      field "execution_id" (uuid execution_id) (
        field "passed" (boolean verification.passed)
          (field "reason" (optional_text verification.reason) end))))

-- The column of the name holds 256 characters.
abbrev pub has_long_name : Check → Bool
has_long_name c = ltb 256 (size (check_name c))

-- The rows of the result, the transition and its event. The rows are flushed after the transition.
unfoldable pub store_result :
    Incident
    → ℕ
    → ℕ
    → VerificationResult
    → ℕ
    → Db
    → Outcome VerificationError (VerificationOutcome × Db)
unfolding append_audit_event value
store_result incident plan_id execution_id verification now db = do
  (target, concluded, event_type) ←
      conclude incident plan_id verification.passed now
        (new_checks incident.id execution_id now verification verification.checks db)
  if any has_long_name verification.checks
      then raised data_error
      else ok (
        record {
          status = target;
          passed = verification.passed;
          checks = map check_dict verification.checks;
          reason = verification.reason;
        },
        append_audit_event (some incident.id) event_type
            (outcome_payload incident.status target execution_id verification)
            "langgraph:verify_recovery" concluded,
      )

abbrev unavailable_records : VerificationResult → VerificationOutcome
unavailable_records verification = record {
  status = IncidentStatus.need_human;
  passed = false;
  checks = map check_dict verification.checks;
  reason = some "Verification completed but its durable records are unavailable.";
}

-- The second transaction.
unfoldable pub finish_verification :
    ℕ → ℕ → ℕ → VerificationResult → ℕ → Db → Outcome VerificationError (VerificationOutcome × Db)
unfolding find
finish_verification incident_id plan_id execution_id verification now db =
    elim (find_incident incident_id db) [
      | none ↦ ok (unavailable_records verification, db)
      | some incident ↦ elim (find_plan plan_id incident_id db) [
        | none ↦ ok (unavailable_records verification, db)
        | some plan ↦ elim (find (λ x. x.id == execution_id) db.executions) [
          | none ↦ ok (unavailable_records verification, db)
          | some execution ↦ elim (persisted_checks execution_id db) [
            | [] ↦ store_result incident plan_id execution_id verification now db
            | c ∷ cs ↦ ok (stored_outcome incident (c ∷ cs), db)
          ]
        ]
      ]
    ]

-- `verify_executed_plan`. `meanwhile` is what other sessions do to the tables during the query.
unfoldable pub verify_executed_plan :
    ℕ → ℕ → ℕ → Logs → (Db → Db) → ℕ → Db → Outcome VerificationError (VerificationOutcome × Db)
verify_executed_plan incident_id plan_id execution_id logs meanwhile now db = do
  (started, db1) ← begin_verification incident_id plan_id execution_id db
  elim started [
    | settled outcome ↦ ok (outcome, db1)
    | Started.verifying incident plan execution ↦
        finish_verification incident_id plan_id execution_id
          (verify_recovery plan.verification_criteria logs) now (meanwhile db1)
  ]
