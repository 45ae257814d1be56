-- ===== src/Execution/Finish.antt =====
-- The request to the Recovery MCP and the second transaction of `execute_approved_plan` of
-- src/oncall/execution/service.py, and the whole call.
use oncall.Prelude.{
  ℕ, Bool, Option, Outcome, String, find, if◌then◌else◌, nat_eq, none, ok, raised, some, string_eq,
  update_first, ◌&&◌, ◌==◌, ◌∷◌, List, [], all_chars, is_alnum, is_hex64, is_slug, is_version, leb,
  size, ◌||◌,
}
use oncall.Json.{Value, text, dict, end, field}
use oncall.Models.{Db, ExecutionStatus}
use oncall.Incidents.State.{status_eq}
use oncall.Execution.Service.{
  Reply, Claim, ExecutionError, ExecutionResult, RecoveryRequest, claimed, reported_failure,
  request_error, returned, stored, timed_out,
}
use oncall.Execution.Begin.{begin_execution}

abbrev pub request_of : Claim → String → ℕ → String → RecoveryRequest
request_of claim nonce issued_at proof = record {
  rollback = claim.plan.rollback;
  action_plan_hash = claim.plan.plan_hash;
  approval_id = claim.approval.id;
  nonce = nonce;
  issued_at = issued_at;
  approval_proof = proof;
}

-- [A-Za-z0-9_.:-]
abbrev pub is_nonce_char : ℕ → Bool
is_nonce_char c = is_alnum c || (c == b'_' || (c == b'.' || (c == b':' || c == b'-')))

-- The field patterns of `RecoveryRequest`.
unfoldable pub is_valid_request : RecoveryRequest → Bool
unfolding is_slug is_version is_hex64
is_valid_request r =
    is_slug 63 r.rollback.project_id
    && (is_slug 63 r.rollback.environment
        && (is_slug 127 r.rollback.service
            && (is_version r.rollback.current_version
                && (is_version r.rollback.target_version
                    && (is_hex64 r.action_plan_hash
                        && (leb 16 (size r.nonce)
                            && (leb (size r.nonce) 128
                                && (all_chars is_nonce_char r.nonce
                                    && is_hex64 r.approval_proof))))))))

-- Between the transactions; a request that fails its patterns raises outside the `try`.
unfoldable pub build_request : Claim → String → ℕ → String → Outcome ExecutionError RecoveryRequest
build_request claim nonce issued_at proof =
    if is_valid_request (request_of claim nonce issued_at proof)
    then ok (request_of claim nonce issued_at proof)
    else raised request_error

abbrev pub reply_status : Reply → ExecutionStatus
reply_status (Reply.succeeded response) = ExecutionStatus.succeeded
reply_status (reported_failure response) = ExecutionStatus.failed
reply_status timed_out = ExecutionStatus.unknown
reply_status Reply.rejected = ExecutionStatus.failed

abbrev pub reply_response : Reply → Option Value
reply_response (Reply.succeeded response) = some response
reply_response (reported_failure response) = some response
reply_response timed_out = some (dict (field "tencent_tat" (text "timeout") end))
reply_response Reply.rejected = none

abbrev pub reply_error : Reply → Option String
reply_error (Reply.succeeded response) = none
reply_error (reported_failure response) = some "Recovery MCP reported failure"
reply_error timed_out = some "Tencent Cloud TAT timed out; automatic retry is prohibited"
reply_error Reply.rejected =
    some "Tencent Cloud TAT MCP rejected or could not execute the configured action"

-- The second transaction: `session.get(Execution, execution_id)` and its assignments.
unfoldable pub finish_execution : ℕ → Reply → ℕ → Db → ExecutionResult × Db
unfolding find update_first
finish_execution execution_id reply now db = elim (find (λ x. x.id == execution_id) db.executions) [
  | none ↦ (
    record {
      execution_id = none;
      status = stored ExecutionStatus.unknown;
      response = none;
      error = some "execution disappeared";
    },
    db,
  )
  | some x ↦ (
    record {
      execution_id = some x.id;
      status = stored (reply_status reply);
      response = reply_response reply;
      error = reply_error reply;
    },
    record db {
      executions =
          update_first (λ x. x.id == execution_id)
            (λ x. record x {
              status = reply_status reply;
              response = reply_response reply;
              error = reply_error reply;
              completed_at = some now;
            })
            db.executions;
    },
  )
]

-- `execute_approved_plan`, run with nothing between its parts: `sign` gives the nonce, the time
-- and the proof of a claim, `call` is the Recovery MCP. The list holds the requests sent.
unfoldable pub execute_approved_plan :
    (Value → String)
    → (Claim → String × ℕ × String)
    → (RecoveryRequest → Reply)
    → ℕ
    → ℕ
    → ℕ
    → Db
    → Outcome ExecutionError ExecutionResult × List RecoveryRequest × Db
execute_approved_plan py_str sign call incident_id plan_id now db =
    elim (begin_execution py_str incident_id plan_id now db) [
      | raised e ↦ (raised e, [], db)
      | ok (returned result, db1) ↦ (ok result, [], db1)
      | ok (claimed claim, db1) ↦
          elim (build_request claim (sign claim).0 (sign claim).1 (sign claim).2) [
            | raised e ↦ (raised e, [], db1)
            | ok request ↦
                let (result, db2) = finish_execution claim.execution_id (call request) now db1 in
                (ok result, request ∷ [], db2)
          ]
    ]
