-- ===== src/Execution/Verification.antt =====
-- The read-only check after a recovery: src/oncall/execution/verification.py. What the gateway
-- answers is an argument; the wait before the query and its time window are not modelled.
use oncall.Prelude.{
  ℕ, Bool, List, Option, String, [], false, if◌then◌else◌, map, nat_eq, none, some, string_eq, ◌==◌,
  ◌∷◌,
}
use oncall.Json.{Fields, end, field, num, text}
use oncall.Models.{CheckStatus}

-- `logs.data.get("entries")` of the answer, with its length if it is a list, or an exception.
pub data Logs : Type 0 where
  unavailable : Logs
  answered : Option ℕ → Logs

-- The two forms of the dictionaries in `checks`.
pub data Check : Type 0 where
  criterion_unavailable : String → Check
  cls_error_logs : Bool → ℕ → Check

pub record VerificationResult : Type 0 where
  pub passed : Bool
  pub checks : List Check
  pub reason : Option String

abbrev pub error_count : Option ℕ → ℕ
error_count none = 0
error_count (some n) = n

unfoldable pub verify_recovery : List String → Logs → VerificationResult
verify_recovery criteria Logs.unavailable = record {
  passed = false;
  checks = map criterion_unavailable criteria;
  reason = some "Required read-only recovery verification data is unavailable.";
}
verify_recovery criteria (answered entries) =
    let error_ok = error_count entries == 0 in
    record {
      passed = error_ok;
      checks = cls_error_logs error_ok (error_count entries) ∷ [];
      reason =
          if error_ok
          then none
          else some "Tencent Cloud CLS still reports error logs after recovery.";
    }

-- `check.get("name") or check.get("criterion") or "verification"`
abbrev pub check_name : Check → String
check_name (criterion_unavailable c) = if c == "" then "verification" else c
check_name (cls_error_logs clean n) = "cls_error_logs"

abbrev pub check_status : Check → CheckStatus
check_status (criterion_unavailable c) = CheckStatus.unavailable
check_status (cls_error_logs clean n) = if clean then CheckStatus.passed else CheckStatus.failed

-- The items other than `name`, `status` and `criterion`.
abbrev pub observed_value : Check → Fields
observed_value (criterion_unavailable c) = end
observed_value (cls_error_logs clean n) = field "value" (num n) (field "threshold" (num 0) end)

abbrev pub status_text : CheckStatus → String
status_text CheckStatus.passed = "passed"
status_text CheckStatus.failed = "failed"
status_text CheckStatus.unavailable = "unavailable"

-- The dictionary of a check.
abbrev pub check_dict : Check → Fields
check_dict (criterion_unavailable c) =
    field "criterion" (text c) (field "status" (text "unavailable") end)
check_dict (cls_error_logs clean n) = field "name" (text "cls_error_logs") (
    field "status" (text (if clean then "passed" else "failed"))
      (field "value" (num n) (field "threshold" (num 0) end)))
