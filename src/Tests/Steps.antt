-- ===== src/Tests/Steps.antt =====
-- The theorems on verification and on the supervisor at concrete inputs.
use Prim.Native.String.{◌++◌ as concat}
use oncall.Agents.Gates.{decide_next_step-gates}
use oncall.Execution.Verification.{verify_recovery, answered, Logs}
use oncall.Execution.Recording.{
  conclude, verify_executed_plan, finish_verification, resolve, store_result,
}
use oncall.Agents.Supervisor.{
  SupervisorDecision, Budget, decide_next_step, call_knowledge, deterministic_decision,
  guard_decision, is_human, is_investigation, is_submit, submit_diagnosis,
}
use oncall.Execution.Service.{idempotency_key, find_incident, find_plan}
use oncall.Tests.Data.{value_or, db_with, approval, incident_at, plan_at}
use oncall.Prelude.{
  String, [], false, find, implies, leb, ltb, none, not, refl, select, some, true, update_first,
  ◌&&◌, ◌∷◌, ◌≡◌, raised, suc, zero, ℕ, ◌⊎◌,
}
use oncall.Models.{PlanStatus, ExecutionStatus, Execution, Db, append_audit_event, ActionPlan}
use oncall.Incidents.State.{IncidentStatus, coerce_status, ensure_transition}
use oncall.Execution.Workflow.{
  VerificationOutcome, begin_verification, enter_verifying, find_execution, has_succeeded,
  persisted_checks, data_error,
}
use oncall.Execution.Recovered.{
  Returns, verify_executed_plan-passed, verify_executed_plan-Returns, has_long_criterion,
}

abbrev execution : Execution
execution = record {
  id = 10;
  action_plan_id = 2;
  action_step_id = none;
  idempotency_key = idempotency_key (plan_at PlanStatus.approved) approval;
  status = ExecutionStatus.succeeded;
  tool_name = "rollback_release";
  response = none;
  started_at = 0;
  completed_at = some 1;
  error = none;
}

abbrev executed_db : Db
executed_db = db_with IncidentStatus.executing PlanStatus.approved (approval ∷ []) (execution ∷ [])

abbrev no_outcome : VerificationOutcome
no_outcome = record { status = IncidentStatus.failed; passed = false; checks = []; reason = none }

-- The query returns no error logs.
abbrev verified_run : VerificationOutcome × Db
verified_run =
    value_or (no_outcome, executed_db)
      (verify_executed_plan 1 2 10 (answered (some 0)) (λ d. d) 50 executed_db)

verify_executed_plan-passed_example :
    (x : Execution) × (find_execution 10 2 executed_db ≡ some x) × (has_succeeded x.status ≡ true)
unfolding verify_executed_plan begin_verification enter_verifying finish_verification store_result
    conclude resolve find_incident find_plan find_execution persisted_checks find select
    update_first ensure_transition coerce_status append_audit_event verify_recovery
verify_executed_plan-passed_example =
    verify_executed_plan-passed 1 2 10 (answered (some 0)) (λ d. d) 50 executed_db verified_run.1
      verified_run.0 refl refl

verify_executed_plan-Returns_example :
    let m = verify_executed_plan 1 2 10 Logs.unavailable (λ d. d) 50 executed_db in
    Returns m
    ⊎ ((m ≡ raised data_error)
        × (Logs.unavailable ≡ Logs.unavailable)
        × (plan : ActionPlan) × (find_plan 2 1 executed_db ≡ some plan)
        × (has_long_criterion plan ≡ true))
verify_executed_plan-Returns_example =
    verify_executed_plan-Returns 1 2 10 Logs.unavailable (λ d. d) 50 executed_db

abbrev long_text : ℕ → String
long_text zero = "c"
long_text (suc n) = concat (long_text n) (long_text n)

-- The plan asks for a check whose name has 512 characters.
abbrev wordy_plan : ActionPlan
wordy_plan = record (plan_at PlanStatus.approved) { verification_criteria = long_text 9 ∷ [] }

-- With no logs the step raises.
wordy_plan_raises :
    verify_executed_plan 1 2 10 Logs.unavailable
      (λ d. d)
      50
      (record executed_db { plans = wordy_plan ∷ [] })
    ≡ raised data_error
unfolding verify_executed_plan begin_verification enter_verifying finish_verification store_result
    conclude find_incident find_plan find_execution persisted_checks find select update_first
    ensure_transition coerce_status append_audit_event verify_recovery
wordy_plan_raises = refl

abbrev concluded : IncidentStatus × Db × String
concluded =
    value_or (IncidentStatus.failed, executed_db, "")
      (conclude (incident_at IncidentStatus.verifying) 2 true 50 executed_db)

abbrev budget : Budget
budget = record { investigation_rounds = 1; no_progress_rounds = 0; model_call_count = 3 }

-- The model wants a diagnosis with no citation; it is sent to the knowledge base.
abbrev too_early : SupervisorDecision
too_early = record { next_step = submit_diagnosis; rationale = "now" }

abbrev knowledge_first : SupervisorDecision
knowledge_first = record {
  next_step = call_knowledge;
  rationale = "Retrieve approved SOP references before diagnosis.";
}

decide_next_step-gates_example :
    (implies (is_submit call_knowledge) (ltb 0 2 && ltb 0 0) ≡ true)
    × (implies (is_investigation call_knowledge) (ltb 1 4) ≡ true)
    × (implies (not (is_human call_knowledge)) (ltb 3 12 && ltb 0 2) ≡ true)
    × (leb 1 1 ≡ true)
    × (implies (ltb 0 1) (true && ltb 3 12) ≡ true)
unfolding decide_next_step guard_decision deterministic_decision
decide_next_step-gates_example =
    decide_next_step-gates true 2 0 budget (some too_early) knowledge_first 1 refl
