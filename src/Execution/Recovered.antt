-- ===== src/Execution/Recovered.antt =====
-- What the verification step does in every case: src/oncall/execution/workflow.py.
use oncall.Execution.Service.{find_incident, find_plan}
use oncall.Prelude.{
  ℕ, Bool, Bool-cases, Option-cases, Outcome, Outcome-cases, String, arith, inl, inr, ok, some,
  true, ◌↔◌, ◌≡◌, ◌⊎◌, raised, List, any, ltb, refl, size, [], map, ◌∷◌, nat_eq, string_eq, ◌==◌,
}
use oncall.Models.{Db, ActionPlan, Execution, Incident}
use oncall.Incidents.State.{
  IncidentStatus, ensure_transition, coerce_status, status_beq_iff, status_eq,
}
use oncall.Execution.Verification.{
  Logs, VerificationResult, verify_recovery, Check, answered, criterion_unavailable,
}
use oncall.Execution.Workflow.{
  VerificationOutcome, begin_verification, enter_verifying, Started, find_execution, has_succeeded,
  settled, VerificationError, data_error,
}
use oncall.Execution.Recording.{
  conclude, verify_executed_plan, finish_verification, new_checks, store_result, has_long_name,
}

-- The call returns.
abbrev pub Returns : {E A : Type 0} → Outcome E A → Type 0
Returns {E} {A} m = (r : A) × (m ≡ ok r)

-- The first transaction starts the check, or finds a passed one.
abbrev clears : Started → Bool
clears (settled o) = o.passed
clears _ = true

conclude-Returns :
    (incident : Incident) (plan_id : ℕ) (clean : Bool) (now : ℕ) (db : Db)
    → Returns (conclude incident plan_id clean now db)
unfolding conclude ensure_transition coerce_status
conclude-Returns incident plan_id clean now db =
    elim (Outcome-cases (conclude incident plan_id clean now db)) [
      | inl r ↦ r
      | inr r ↦ absurd (ground (arith, status_beq_iff incident.status IncidentStatus.verifying))
    ]

enter_verifying-Returns :
    (incident : Incident) (plan : ActionPlan) (execution : Execution) (db : Db)
    → Returns (enter_verifying incident plan execution db)
unfolding enter_verifying ensure_transition coerce_status
enter_verifying-Returns incident plan execution db =
    elim (Outcome-cases (enter_verifying incident plan execution db)) [
      | inl r ↦ r
      | inr r ↦ absurd (ground (arith, status_beq_iff incident.status IncidentStatus.executing))
    ]

-- The second transaction ends with RESOLVED exactly if the incident was resolved already, or was in
-- verification and the check passed.
pub conclude-resolves_iff :
    (incident : Incident) (plan_id : ℕ) (clean : Bool) (now : ℕ) (db db' : Db) (s : IncidentStatus)
    (event_type : String)
    → conclude incident plan_id clean now db ≡ ok (s, db', event_type)
    → ((s ≡ IncidentStatus.resolved) ↔ (
        (incident.status ≡ IncidentStatus.resolved)
        ⊎ ((incident.status ≡ IncidentStatus.verifying) × (clean ≡ true))))
unfolding conclude ensure_transition coerce_status
conclude-resolves_iff incident plan_id clean now db db' s event_type h =
    ground (arith, status_beq_iff incident.status IncidentStatus.verifying)

started-succeeded :
    (incident_id plan_id execution_id : ℕ) (db db1 : Db) (st : Started)
    → begin_verification incident_id plan_id execution_id db ≡ ok (st, db1)
    → clears st ≡ true
    → (x : Execution) × (find_execution execution_id plan_id db ≡ some x)
      × (has_succeeded x.status ≡ true)
unfolding begin_verification
started-succeeded incident_id plan_id execution_id db db1 st h c =
    elim (Option-cases (find_incident incident_id db)) [
      | inl e ↦ absurd (ground arith)
      | inr e ↦ elim (Option-cases (find_plan plan_id incident_id db)) [
        | inl f ↦ absurd (ground arith)
        | inr f ↦ elim (Option-cases (find_execution execution_id plan_id db)) [
          | inl g ↦ absurd (ground arith)
          | inr g ↦ elim (Bool-cases (has_succeeded g.0.status)) [
            | inl b ↦ (g.0, g.1, b)
            | inr b ↦ absurd (ground arith)
          ]
        ]
      ]
    ]

-- A step that reports success, from stored checks or from a check of its own, found the execution of
-- this plan, and it had succeeded.
pub verify_executed_plan-passed :
    (incident_id plan_id execution_id : ℕ) (logs : Logs) (meanwhile : Db → Db) (now : ℕ)
    (db db' : Db) (o : VerificationOutcome)
    → verify_executed_plan incident_id plan_id execution_id logs meanwhile now db ≡ ok (o, db')
    → o.passed ≡ true
    → (x : Execution) × (find_execution execution_id plan_id db ≡ some x)
      × (has_succeeded x.status ≡ true)
unfolding verify_executed_plan
verify_executed_plan-passed incident_id plan_id execution_id logs meanwhile now db db' o h p =
    elim (Outcome-cases (begin_verification incident_id plan_id execution_id db)) [
      | inr r ↦ absurd (ground arith)
      | inl r ↦ started-succeeded incident_id plan_id execution_id db r.0.1 r.0.0 r.1 (ground arith)
    ]

begin_verification-Returns :
    (incident_id plan_id execution_id : ℕ) (db : Db)
    → Returns (begin_verification incident_id plan_id execution_id db)
unfolding begin_verification
begin_verification-Returns incident_id plan_id execution_id db =
    elim (Outcome-cases (begin_verification incident_id plan_id execution_id db)) [
      | inl r ↦ r
      | inr r ↦ elim (Option-cases (find_incident incident_id db)) [
        | inl e ↦ absurd (ground arith)
        | inr e ↦ elim (Option-cases (find_plan plan_id incident_id db)) [
          | inl f ↦ absurd (ground arith)
          | inr f ↦ elim (Option-cases (find_execution execution_id plan_id db)) [
            | inl g ↦ absurd (ground arith)
            | inr g ↦ let q = enter_verifying-Returns e.0 f.0 g.0 db in absurd (ground (arith, q.1))
          ]
        ]
      ]
    ]

-- The call returns, or the column of the names has no room for one of the checks.
abbrev ReturnsIfRoom : {A : Type 0} → Outcome VerificationError A → List Check → Type 0
ReturnsIfRoom m checks = Returns m ⊎ ((m ≡ raised data_error) × (any has_long_name checks ≡ true))

store_result-ReturnsIfRoom :
    (incident : Incident) (plan_id execution_id : ℕ) (verification : VerificationResult) (now : ℕ)
    (db : Db)
    → ReturnsIfRoom
        (store_result incident plan_id execution_id verification now db)
        verification.checks
unfolding store_result
store_result-ReturnsIfRoom incident plan_id execution_id verification now db =
    let q =
      conclude-Returns incident plan_id verification.passed now
        (new_checks incident.id execution_id now verification verification.checks db) in
    elim (Bool-cases (any has_long_name verification.checks)) [
      | inl b ↦ inr (rw (q.1, b, store_result) refl, b)
      | inr b ↦
          elim (Outcome-cases (store_result incident plan_id execution_id verification now db)) [
            | inl r ↦ inl r
            | inr r ↦ absurd (ground (arith, q.1))
          ]
    ]

finish_verification-ReturnsIfRoom :
    (incident_id plan_id execution_id : ℕ) (verification : VerificationResult) (now : ℕ) (db : Db)
    → ReturnsIfRoom
        (finish_verification incident_id plan_id execution_id verification now db)
        verification.checks
unfolding finish_verification
finish_verification-ReturnsIfRoom incident_id plan_id execution_id verification now db =
    elim (Outcome-cases
      (finish_verification incident_id plan_id execution_id verification now db)) [
        | inl r ↦ inl r
        | inr r ↦ elim (Option-cases (find_incident incident_id db)) [
          | inl e ↦ absurd (ground arith)
          | inr e ↦ elim (store_result-ReturnsIfRoom e.0 plan_id execution_id verification now db) [
            | inl q ↦ absurd (ground (arith, q.1))
            | inr q ↦ inr (ground (arith, q.0), q.1)
          ]
        ]
      ]

-- The plan has a criterion with more characters than the name of a check can have.
abbrev pub has_long_criterion : ActionPlan → Bool
has_long_criterion plan = any (λ c. ltb 256 (size c)) plan.verification_criteria

long_name-criterion :
    (c : String) → has_long_name (criterion_unavailable c) ≡ true → ltb 256 (size c) ≡ true
long_name-criterion c h = elim (Bool-cases (c == "")) [
  | inl e ↦ absurd (let h' = rw e at h in cc)
  | inr e ↦ rw e at h
]

long_name-unavailable :
    (criteria : List String)
    → any has_long_name (map criterion_unavailable criteria) ≡ true
    → any (λ c. ltb 256 (size c)) criteria ≡ true
long_name-unavailable [] h = h
long_name-unavailable (c ∷ cs) h = elim (Bool-cases (has_long_name (criterion_unavailable c))) [
  | inl e ↦ rw (long_name-criterion c e) refl
  | inr e ↦
      (let rest = long_name-unavailable cs (rw e at h) in
        elim (Bool-cases (ltb 256 (size c))) [ inl b ↦ rw b refl | inr b ↦ rw b rest ])
]

verify_recovery-long :
    (criteria : List String) (logs : Logs)
    → any has_long_name (verify_recovery criteria logs).checks ≡ true
    → (logs ≡ Logs.unavailable) × (any (λ c. ltb 256 (size c)) criteria ≡ true)
unfolding verify_recovery
verify_recovery-long criteria Logs.unavailable h = (refl, long_name-unavailable criteria h)
verify_recovery-long criteria (answered entries) h = absurd (cc)

started-plan :
    (incident_id plan_id execution_id : ℕ) (db db1 : Db) (incident : Incident) (plan : ActionPlan)
    (execution : Execution)
    → begin_verification incident_id plan_id execution_id db
      ≡ ok (Started.verifying incident plan execution, db1)
    → find_plan plan_id incident_id db ≡ some plan
unfolding begin_verification enter_verifying ensure_transition coerce_status
started-plan incident_id plan_id execution_id db db1 incident plan execution h =
    elim (Option-cases (find_plan plan_id incident_id db)) [
      | inl f ↦ absurd (ground arith)
      | inr f ↦ ground (arith, f.1)
    ]

-- Whatever the tables hold, before and after the query, no transition of the step is illegal: it returns
-- an outcome, unless the logs are unavailable and the plan has a verification criterion of more than 256
-- characters; then the database may refuse the row of that check, and only that is raised.
pub verify_executed_plan-Returns :
    (incident_id plan_id execution_id : ℕ) (logs : Logs) (meanwhile : Db → Db) (now : ℕ) (db : Db)
    → let m = verify_executed_plan incident_id plan_id execution_id logs meanwhile now db in
      Returns m
      ⊎ ((m ≡ raised data_error)
          × (logs ≡ Logs.unavailable)
          × (plan : ActionPlan) × (find_plan plan_id incident_id db ≡ some plan)
          × (has_long_criterion plan ≡ true))
unfolding verify_executed_plan
verify_executed_plan-Returns incident_id plan_id execution_id logs meanwhile now db =
    elim (Outcome-cases (begin_verification incident_id plan_id execution_id db)) [
      | inr r ↦ absurd (
          let b = begin_verification-Returns incident_id plan_id execution_id db in
          ground (arith, b.1))
      | inl ((settled o, db1), r) ↦ inl ((o, db1), rw (verify_executed_plan, r) refl)
      | inl ((Started.verifying incident plan execution, db1), r) ↦
          elim (finish_verification-ReturnsIfRoom incident_id plan_id execution_id
            (verify_recovery plan.verification_criteria logs) now (meanwhile db1)) [
              | inl q ↦ inl (q.0, rw (verify_executed_plan, r, q.1) refl)
              | inr q ↦
                  let (down, long) = verify_recovery-long plan.verification_criteria logs q.1 in
                  inr (
                    rw (verify_executed_plan, r, q.0) refl,
                    down,
                    plan,
                    started-plan incident_id plan_id execution_id db db1 incident plan execution r,
                    long,
                  )
            ]
    ]
