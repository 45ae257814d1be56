-- ===== src/Tests/Experiences.antt =====
-- The extraction of an experience at a concrete input.
use oncall.Learning.Eligible.{IsEligible, create_candidate-IsEligible}
use oncall.Learning.Experiences.{
  create_candidate_from_resolved_incident, add_candidate, new_candidate, duplicate_of,
  fingerprint_of,
}
use oncall.Learning.Grounds.{
  Grounds, best_hypothesis, checks_of, citation_rows, evidence_rows, executed_plan,
  succeeded_execution,
}
use oncall.Tests.Data.{db_with, approval, incident_at, plan_at}
use oncall.Execution.Service.{idempotency_key}
use oncall.Json.{end, Value}
use oncall.Prelude.{String, List, [], find, nat_eq, none, ok, refl, some, string_eq, ◌==◌, ◌∷◌, ◌≡◌}
use oncall.Incidents.State.{IncidentStatus, status_eq}
use oncall.Models.{
  PlanStatus, ExecutionStatus, CheckStatus, Conclusion, Execution, VerificationCheck,
}
use oncall.Learning.{ExperienceCandidate, LearningDb, pending_review}

abbrev executed : Execution
executed = record {
  id = 6;
  action_plan_id = 2;
  action_step_id = none;
  idempotency_key = idempotency_key (plan_at PlanStatus.executed) approval;
  status = ExecutionStatus.succeeded;
  tool_name = "rollback_release";
  response = none;
  started_at = 10;
  completed_at = some 20;
  error = none;
}

abbrev check : VerificationCheck
check = record {
  id = 8;
  incident_id = 1;
  execution_id = 6;
  name = "logs";
  status = CheckStatus.passed;
  observed_value = end;
  conclusion = Conclusion.passed;
  reason = none;
  checked_at = 30;
}

abbrev resolved_db : LearningDb
resolved_db = record {
  tables =
      record (db_with IncidentStatus.resolved PlanStatus.executed (approval ∷ []) (executed ∷ [])) {
        checks = check ∷ [];
      };
  evidence = record { id = 20; incident_id = 1; observation = "5xx"; collected_at = 5 } ∷ [];
  citations = record { id = 21; incident_id = 1; created_at = 6 } ∷ [];
  hypotheses =
      record { incident_id = 1; description = "release"; confidence = some 700; updated_at = 7 }
      ∷ [];
  experience_candidates = [];
  experiences = [];
  skill_candidates = [];
  skill_versions = [];
}

abbrev hash : Value → String
hash v = "h"

abbrev same : String → String
same s = s

abbrev one_word : String → List String
one_word s = s ∷ []

abbrev no_match : String → String → String → String
no_match pattern_name replacement s = s

abbrev grounds : Grounds
grounds = record {
  incident = incident_at IncidentStatus.resolved;
  plan = plan_at PlanStatus.executed;
  execution = executed;
  checks = check ∷ [];
  evidence = resolved_db.evidence;
  citations = resolved_db.citations;
  hypothesis = record {
    incident_id = 1;
    description = "release";
    confidence = some 700;
    updated_at = 7;
  };
}

abbrev new_row : ExperienceCandidate
new_row = new_candidate hash same same same one_word no_match grounds none "h" 10 100

abbrev after : LearningDb
after = add_candidate hash same same same one_word no_match new_row resolved_db

created :
    create_candidate_from_resolved_incident hash same same same one_word no_match 1 100 resolved_db
    ≡ ok (some new_row, after)
unfolding create_candidate_from_resolved_incident executed_plan succeeded_execution checks_of
    evidence_rows citation_rows best_hypothesis fingerprint_of duplicate_of
created = refl

create_candidate-IsEligible_example :
    IsEligible 1 resolved_db
    × (find (λ x. x.incident_id == 1) resolved_db.experience_candidates ≡ none)
    × (new_row.status ≡ pending_review)
    × (after.experiences ≡ resolved_db.experiences)
create_candidate-IsEligible_example =
    create_candidate-IsEligible hash same same same one_word no_match 1 100 resolved_db after
      new_row created
